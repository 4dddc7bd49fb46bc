-- ===== src/Jobs/Examples.antt =====
-- Examples of the workers: a recipient at UTC with one target, on 2026-08-05 at 21:30.
use calendar_digest.Prelude.{
  ◌+◌, ◌*◌, ◌/◌, ◌≤◌, ◌<◌, true, false, ◌&&◌, if◌then◌else◌, List, [], ◌∷◌, ◌++◌, some, ◌≡◌, ◌≢◌,
  refl, arith,
}
use calendar_digest.Prelude.Chars.{Text, codes, text_eq, text_lt, decimal}
use calendar_digest.Prelude.Sorting.{sort_by}
use calendar_digest.Prelude.Words.{split_on, trim_space, trim_right, trim_left, is_space}
use calendar_digest.Clock.Civil.{civil, days_in_month, is_leap}
use calendar_digest.Clock.Layout.{format_date}
use calendar_digest.Clock.Stamp.{format_rfc3339}
use calendar_digest.Calendar.Ids.{ids}
use calendar_digest.Store.Recipients.{get_recipient, list_enabled_targets}
use calendar_digest.Store.Times.{format_time}
use calendar_digest.Clock.Zone.{Time, Location, utc, day_seconds, in_zone, wall, lookup}
use calendar_digest.Clock.Zone.Offsets.{date_of_time-wall}
use calendar_digest.Store.Models.{SnapshotKey}
use calendar_digest.Store.Tables.{Tables, first_row}
use calendar_digest.Store.Tx.{with_tx, ensure_tx, begin_func, in_tx}
use calendar_digest.Store.Flags.{flag_of, get_app_state, set_app_state, set_flag, set_flag_body}
use calendar_digest.Store.Snapshots.{
  has_key, upsert_snapshot, insert_snapshot_if_absent, get_snapshot_for_date,
  replace_snapshot_events, upsert_body,
}
use calendar_digest.Store.Examples.{ana, stored, wednesday}
use calendar_digest.Digest.Due.{date_of, due}
use calendar_digest.Calendar.Event.{Event}
use calendar_digest.Calendar.Google.{Fetched, access}
use calendar_digest.Jobs.Deps.{
  Deps, World, CalendarClient, Enqueuer, Job, DigestArgs, SendArgs, WorkResult, done, cancel,
  calendar_restored, recovered,
}
use calendar_digest.Jobs.Alert.{
  record_calendar_access, raise, flag_calendar_access, flag_ok, flag_failed,
  record_calendar_access_lem,
}
use calendar_digest.Jobs.Capture.{
  capture, capture_from, captured, gather, outcome, capture_body, enqueue, enqueue_sends, fan_out,
  finish, refresh,
}
use calendar_digest.Jobs.Capture.Keeps.{SameDigests, capture_atomic, capture_repeat}
use calendar_digest.Jobs.Capture.Stored.{HasSnapshot, capture_done}
use calendar_digest.Jobs.Scan.{scan, scan_time, offer, enabled, history, scan_lem}
use calendar_digest.Jobs.Purge.{purge}
use calendar_digest.Jobs.Retention.{purge-due}
use calendar_digest.Jobs.Verify.{verify}
use calendar_digest.Jobs.Verify.Verdict.{IsVerified, verify-IsVerified}
use calendar_digest.Jobs.Send.{send_work, Ends, send_work-Ends}

pub grown :
    (queue jobs queue' : List Job) → some (queue ++ jobs) ≡ some queue' → queue' ≡ queue ++ jobs
grown queue jobs queue' e = cc

abbrev pub takes_all : Enqueuer
takes_all = record {
  insert = λ queue jobs. some (queue ++ jobs);
  appends = λ queue jobs queue' e. (jobs, grown queue jobs queue' e, λ j m. m);
}

abbrev pub reader : Fetched (List Event) → CalendarClient
reader answer = record {
  events_for_day = λ id date loc. answer;
  verify_access = λ id. Fetched.ok tt;
}

abbrev pub deps : Fetched (List Event) → Deps
deps answer = record {
  conn = record { begins = true; commits = true };
  load_location = λ tz. some utc;
  calendar = some (reader answer);
  notifiers = (codes "email", λ config d. true) ∷ [];
  now = 739832 * day_seconds + 77400;
  snapshot_retention_days = 90;
  jobs = some takes_all;
  encode = λ events. codes "[]";
  decode = λ text. some [];
  token = codes "t2";
}

abbrev world : World
world = record { tables = stored; queue = [] }

abbrev request : Text → DigestArgs
request date = record { recipient_id = 1; digest_date = date; force = false }

abbrev pub no_events : Fetched (List Event)
no_events = Fetched.ok []

found : first_row (has_key 1 (codes "2026-08-05")) stored.snapshots ≡ some wednesday
unfolding text_eq
found = refl

capture_repeat_example :
    SameDigests (capture (deps no_events) (request (codes "2026-08-05")) world).1 world
capture_repeat_example =
    capture_repeat (deps no_events) (request (codes "2026-08-05")) world wednesday refl found

thursday_done : (capture (deps no_events) (request (codes "2026-08-06")) world).0 ≡ done
unfolding capture get_recipient capture_from captured gather ids split_on trim_space trim_right
    trim_left is_space outcome with_tx capture_body upsert_snapshot ensure_tx
    insert_snapshot_if_absent record_calendar_access civil days_in_month is_leap format_date
    format_rfc3339 raise enqueue enqueue_sends fan_out finish refresh decimal text_eq text_lt
    sort_by get_app_state set_app_state set_flag set_flag_body list_enabled_targets
    get_snapshot_for_date replace_snapshot_events upsert_body format_time begin_func in_tx
thursday_done = refl

capture_done_example :
    HasSnapshot 1
      (codes "2026-08-06")
      (capture (deps no_events) (request (codes "2026-08-06")) world).1
capture_done_example =
    capture_done (deps no_events) (request (codes "2026-08-06")) world thursday_done

abbrev no_access : Fetched (List Event)
no_access = Fetched.err access

thursday_cancelled : (capture (deps no_access) (request (codes "2026-08-06")) world).0 ≡ cancel
unfolding capture get_recipient capture_from captured gather ids split_on trim_space trim_right
    trim_left is_space
thursday_cancelled = refl

not_done : (r : WorkResult) → r ≡ cancel → r ≢ done
not_done r c e = cc

capture_atomic_example :
    SameDigests (capture (deps no_access) (request (codes "2026-08-06")) world).1 world
capture_atomic_example =
    capture_atomic (deps no_access) (request (codes "2026-08-06")) world (
      not_done (capture (deps no_access) (request (codes "2026-08-06")) world).0 thursday_cancelled)

scan_date : date_of (in_zone utc (scan_time (deps no_events))) ≡ 739832
unfolding date_of wall lookup
scan_date = rw (date_of_time-wall (in_zone utc (scan_time (deps no_events)))) refl

on_time :
    (tz : Text) (loc : Location)
    → (deps no_events).load_location tz ≡ some loc
    → (1 ≤ date_of (in_zone loc (scan_time (deps no_events))))
      × (date_of (in_zone loc (scan_time (deps no_events))) < 3652057)
on_time tz loc h =
    let same : utc ≡ loc = cc in rw (← same) (rw scan_date (omega arith, omega arith))

scan_lem_example :
    scan (deps no_events) world
    ≡ offer
        (some takes_all)
        (due (λ tz. some utc) (scan_time (deps no_events)) (enabled stored) (history stored)).0
        world
scan_lem_example = scan_lem (deps no_events) world on_time

abbrev delivery : SendArgs
delivery = record { recipient_id = 1; digest_date = codes "2026-08-05"; target_id = 7 }

send_work-Ends_example :
    Ends (deps no_events) delivery world (send_work (deps no_events) delivery world)
send_work-Ends_example = send_work-Ends (deps no_events) delivery world

record_calendar_access_lem_example :
    (t' : Tables) × (flag_of flag_calendar_access t' ≡ (if true then flag_ok else flag_failed))
    × (record_calendar_access (deps no_events) true world ≡ (
        if true && text_eq (flag_of flag_calendar_access stored) flag_failed
        then raise (deps no_events) calendar_restored recovered (record world { tables = t' })
        else record world { tables = t' }))
record_calendar_access_lem_example =
    record_calendar_access_lem (deps no_events) true world refl refl

-- With a snapshot that is older than the retention.
abbrev long_kept : World
long_kept = record world {
  tables = record stored {
    snapshots =
        record wednesday { id = 2; digest_date = codes "2026-01-01"; token = codes "t0" }
        ∷ wednesday
        ∷ [];
  };
}

-- A check a day after the purge, with a snapshot captured in between.
abbrev next_check : Time
next_check = record { sec = (deps no_events).now + day_seconds; loc = utc }

abbrev captured_key : SnapshotKey
captured_key = record { recipient_id = 1; digest_date = codes "2026-08-06" }

check_date : date_of (in_zone utc next_check) ≡ 739833
unfolding date_of wall lookup
check_date = rw (date_of_time-wall (in_zone utc next_check)) refl

later_on_time :
    (tz : Text) (loc : Location)
    → (deps no_events).load_location tz ≡ some loc
    → (1 ≤ date_of (in_zone loc next_check)) × (date_of (in_zone loc next_check) < 3652057)
later_on_time tz loc h =
    let same : utc ≡ loc = cc in rw (← same) (rw check_date (omega arith, omega arith))

near_utc :
    (tz : Text) (loc : Location)
    → (deps no_events).load_location tz ≡ some loc
    → next_check.sec / day_seconds ≤ date_of (in_zone loc next_check) + 1
near_utc tz loc h = let same : utc ≡ loc = cc in rw (← same) (rw check_date (omega arith))

purge-due_example :
    due
      (λ tz. some utc)
      next_check
      (ana ∷ [])
      (history (purge (deps no_events) long_kept).1.tables ++ captured_key ∷ [])
    ≡ due (λ tz. some utc) next_check (ana ∷ []) (history long_kept.tables ++ captured_key ∷ [])
purge-due_example =
    purge-due (deps no_events) next_check (omega arith) (omega arith) later_on_time near_utc
      (omega arith) (ana ∷ []) (captured_key ∷ []) long_kept

abbrev refusing : CalendarClient
refusing = record (reader no_events) { verify_access = λ id. Fetched.err access }

abbrev refusing_deps : Deps
refusing_deps = record (deps no_events) { calendar = some refusing }

verify-IsVerified_example : IsVerified (some refusing) world (verify refusing_deps world)
verify-IsVerified_example = verify-IsVerified refusing_deps refl refl world
