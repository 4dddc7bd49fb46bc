-- ===== src/Ui/Captured.antt =====
-- An example of the button "digest now".
use calendar_digest.Prelude.{some, ◌≡◌, refl}
use calendar_digest.Jobs.Examples.{deps, no_events}
use calendar_digest.Jobs.Capture.Stored.{HasSnapshot}
use calendar_digest.Ui.Views.{patch_capture, queued}
use calendar_digest.Ui.Examples.{pages, site}
use calendar_digest.Ui.Captures.{recipient_digest_now-HasSnapshot}
use calendar_digest.Ui.Pages.{recipient_from_path, run_digest_now, Pages}
use calendar_digest.Prelude.Ints.{parse_int, digits, digits_from}
use calendar_digest.Store.Recipients.{get_recipient, list_enabled_targets}
use calendar_digest.Ui.Recipients.{digest_now_loaded, reported, recipient_digest_now, tomorrow}
use calendar_digest.Jobs.Capture.{
  capture, capture_from, captured, gather, capture_body, enqueue, enqueue_sends, fan_out, finish,
  outcome, refresh,
}
use calendar_digest.Calendar.Ids.{ids}
use calendar_digest.Prelude.Words.{split_on, trim_space, trim_right, is_space, trim_left}
use calendar_digest.Calendar.Event.{next_day}
use calendar_digest.Clock.Civil.{civil, days_in_month, is_leap}
use calendar_digest.Clock.Layout.{format_date}
use calendar_digest.Clock.Stamp.{format_rfc3339}
use calendar_digest.Clock.Zone.{date_of_time, instant, lookup, wall, utc}
use calendar_digest.Jobs.Alert.{raise, record_calendar_access}
use calendar_digest.Prelude.Chars.{codes, decimal, text_eq, text_lt}
use calendar_digest.Prelude.Sorting.{sort_by}
use calendar_digest.Store.Flags.{get_app_state, set_app_state, set_flag, set_flag_body}
use calendar_digest.Store.Snapshots.{
  get_snapshot_for_date, insert_snapshot_if_absent, replace_snapshot_events, upsert_body,
  upsert_snapshot,
}
use calendar_digest.Store.Times.{format_time}
use calendar_digest.Store.Tx.{begin_func, ensure_tx, in_tx, with_tx}

abbrev running : Pages
running = record pages { runner = some (deps no_events) }

now_queued :
    (recipient_digest_now running (codes "1") site).0
    ≡ patch_capture 1 (queued (tomorrow running utc))
unfolding recipient_from_path parse_int digits digits_from get_recipient digest_now_loaded reported
    run_digest_now capture capture_from captured gather ids split_on trim_space trim_right next_day
    civil days_in_month is_leap format_date format_rfc3339 date_of_time instant lookup wall raise
    record_calendar_access capture_body enqueue enqueue_sends fan_out finish outcome refresh decimal
    text_eq text_lt sort_by is_space trim_left get_app_state set_app_state set_flag set_flag_body
    list_enabled_targets get_snapshot_for_date insert_snapshot_if_absent replace_snapshot_events
    upsert_body upsert_snapshot format_time begin_func ensure_tx in_tx with_tx recipient_digest_now
    tomorrow
now_queued = refl

recipient_digest_now-HasSnapshot_example :
    HasSnapshot 1 (tomorrow running utc) (recipient_digest_now running (codes "1") site).1.world
recipient_digest_now-HasSnapshot_example =
    recipient_digest_now-HasSnapshot running (codes "1") site 1 (tomorrow running utc) now_queued
