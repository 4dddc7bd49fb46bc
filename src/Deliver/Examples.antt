-- ===== src/Deliver/Examples.antt =====
-- Examples of the messages and of the channels.
use calendar_digest.Prelude.{
  ◌+◌, ◌*◌, true, false, [], ◌∷◌, ◌++◌, none, some, ◌≡◌, ◌≢◌, refl, ◌⊎◌, ◌↔◌, arith,
}
use calendar_digest.Prelude.Chars.{Text, codes, text_eq}
use calendar_digest.Prelude.Affixes.{has_prefix}
use calendar_digest.Deliver.Redact.{
  contains, replace_from, unchanged, renewed, redacted_text, redact_token, redact_token-Hides,
}
use calendar_digest.Clock.Zone.{utc, day_seconds}
use calendar_digest.Store.Models.{NotificationTargets}
use calendar_digest.Store.Tx.{ok}
use calendar_digest.Store.Recipients.{get_target}
use calendar_digest.Store.Examples.{stored}
use calendar_digest.Calendar.Event.{Event}
use calendar_digest.Jobs.Deps.{Deps, World, SendArgs, Digest, done}
use calendar_digest.Jobs.Send.{send_work}
use calendar_digest.Config.Examples.{home_conf}
use calendar_digest.Deliver.Message.{detail_url, event_count}
use calendar_digest.Deliver.Sms.{
  sms_segments, gsm_fold, render_sms, candidate, prefix_of, entries_of, with_link,
}
use calendar_digest.Deliver.Senders.{Outside}
use calendar_digest.Deliver.Notifiers.{build_notifiers}
use calendar_digest.Deliver.Notifiers.Channels.{Reaches, send_work-Reaches}
use calendar_digest.Prelude.Words.{is_empty, fields}
use calendar_digest.Deliver.Sms.{gsm_part}
use calendar_digest.Deliver.Sms.Segments.{IsLeast, all_gsm, encoded, sms_segments-IsLeast}
use calendar_digest.Deliver.Sms.Fold.{IsLine, IsGsm, gsm_fold_lem}
use calendar_digest.Deliver.Sms.Render.{IsFitted, render_sms-IsFitted}

abbrev standup : Event
standup = record {
  id = codes "e1";
  summary = codes "Standup";
  description = [];
  location = [];
  start = record { sec = 739832 * day_seconds + 32400; loc = utc };
  end = record { sec = 739832 * day_seconds + 33300; loc = utc };
  all_day = false;
  status = codes "confirmed";
  organizer = [];
  attendees = [];
  conference_url = [];
  html_link = [];
  recurring = false;
}

abbrev one_event : Digest
one_event = record {
  recipient_name = codes "Ana";
  date = codes "2026-08-05";
  token = codes "t1";
  events = standup ∷ [];
}

sms_segments-IsLeast_example :
    IsLeast
      (all_gsm (codes "see you €"))
      (encoded (codes "see you €"))
      (sms_segments (codes "see you €"))
sms_segments-IsLeast_example = sms_segments-IsLeast (codes "see you €")

gsm_fold_lem_example :
    IsLine (gsm_fold (codes "Café — now"))
    × (IsGsm (gsm_fold (codes "Café — now")) ⊎ (fields (gsm_part (codes "Café — now")) ≡ []))
    × ((is_empty (gsm_fold (codes "Café — now")) ≡ false) ⊎ (fields (codes "Café — now") ≡ []))
gsm_fold_lem_example = gsm_fold_lem (codes "Café — now")

render_sms-IsFitted_example :
    IsFitted
      (candidate
        (prefix_of one_event)
        (detail_url (codes "https://x") (codes "t1"))
        (entries_of one_event))
      (with_link
        (prefix_of one_event ++ event_count one_event)
        (detail_url (codes "https://x") (codes "t1")))
      1
      (render_sms (codes "https://x") one_event)
render_sms-IsFitted_example = render_sms-IsFitted (codes "https://x") one_event (omega arith)

abbrev pub outside : Outside
outside = record {
  unmarshal = λ field config. some config;
  http = λ request. none;
  is_address = λ address. true;
  dial_and_send = λ client mail. true;
  encode_email = λ email. [];
  decode_email = λ text. none;
  encode_message = λ chat_id text. text;
  decode_message = λ text. some true;
}

abbrev deps : Deps
deps = record {
  conn = record { begins = true; commits = true };
  load_location = λ tz. some utc;
  calendar = none;
  notifiers = build_notifiers outside home_conf;
  now = 739832 * day_seconds + 77400;
  snapshot_retention_days = 90;
  jobs = none;
  encode = λ events. codes "[]";
  decode = λ text. some [];
  token = codes "t2";
}

abbrev mail_job : SendArgs
mail_job = record { recipient_id = 1; digest_date = codes "2026-08-05"; target_id = 7 }

abbrev world : World
world = record { tables = stored; queue = [] }

send_work-Reaches_example :
    ((target : NotificationTargets) × ((get_target 7 stored).0 ≡ ok target)
      × Reaches home_conf target.kind)
    ⊎ (((send_work deps mail_job world).0 ≢ done) × ((send_work deps mail_job world).1 ≡ world))
send_work-Reaches_example = send_work-Reaches outside home_conf deps mail_job world refl

abbrev bot_url : Text
bot_url = codes "Post https://api.telegram.org/bot12:xy/sendMessage: EOF"

redact_token_test :
    redact_token (λ t. t) bot_url (codes "12:xy")
    ≡ renewed (codes "Post https://api.telegram.org/botREDACTED/sendMessage: EOF")
unfolding redact_token replace_from has_prefix text_eq
redact_token_test = refl

redact_token-Hides_example :
    (contains
        (redacted_text (λ t. t) (redact_token (λ t. t) bot_url (codes "12:xy")))
        (codes "12:xy")
      ≡ false)
    × ((redact_token (λ t. t) bot_url (codes "12:xy") ≡ unchanged bot_url)
        ↔ (contains bot_url (codes "12:xy") ≡ false))
redact_token-Hides_example = redact_token-Hides (λ t. t) bot_url b'1' (codes "2:xy") refl refl
