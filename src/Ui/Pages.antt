-- ===== src/Ui/Pages.antt =====
-- internal/ui/ui.go and the digest runner of internal/jobs/client.go: what the handlers are given
-- and the state that they read and write, which is the database with the job queue and the flash
-- message of the session.
use calendar_digest.Prelude.{ℕ, List, Option, none, some}
use calendar_digest.Prelude.Chars.{Text}
use calendar_digest.Prelude.Ints.{pos, negsuc, parse_int}
use calendar_digest.Clock.Zone.{Location, utc}
use calendar_digest.Calendar.Event.{Event}
use calendar_digest.Store.Models.{Recipients, NotificationTargets}
use calendar_digest.Store.Tables.{Tables}
use calendar_digest.Store.Tx.{Outcome, ok, err, panic, no_rows}
use calendar_digest.Store.Recipients.{get_recipient, get_target}
use calendar_digest.Jobs.Deps.{Deps, World, DigestArgs, Notifier, WorkResult, retry}
use calendar_digest.Jobs.Capture.{capture}
use calendar_digest.Ui.Views.{Response, not_found, server_error, broken}
use calendar_digest.Ui.Forms.{Addresses}

-- `now` is in seconds. `runner` is what the workers share, where there is a job client. `zone_name`
-- is the abbreviation of a zone at an instant; `marshal` encodes a config with one value.
pub record Pages : Type 0 where
  pub base_url : Text
  pub now : ℕ
  pub load_location : Text → Option Location
  pub zone_name : Location → ℕ → Text
  pub notifiers : List (Text × Notifier)
  pub runner : Option Deps
  pub marshal : Text → Text → Option Text
  pub addresses : Text → Option Addresses
  pub decode : Text → Option (List Event)

pub record Site : Type 0 where
  pub world : World
  pub flash : Text

abbrev pub Handler : Type 0
Handler = Site → Response × Site

abbrev pub answer : Response → Handler
answer r s = (r, s)

-- The site after the tables were written, or a flash was put.
abbrev pub with_tables : Site → Tables → Site
with_tables s t = record s { world = record s.world { tables = t } }

abbrev pub with_flash : Site → Text → Site
with_flash s message = record s { flash = message }

-- The zone of that name, or UTC where it cannot be loaded.
unfoldable pub zone_or_utc : (Text → Option Location) → Text → Location
zone_or_utc load_location tz = elim (load_location tz) [ none ↦ utc | some loc ↦ loc ]

-- A query, and what is done with its value.
abbrev pub query_or : {A : Type 0} → Outcome A × Tables → Site → (A → Handler) → Response × Site
query_or (ok a, t) s f = f a (with_tables s t)
query_or (err e, t) s f = (server_error, with_tables s t)
query_or (panic, t) s f = (broken, with_tables s t)

-- The row that the path names.
abbrev pub loaded : {A : Type 0} → Outcome A → (A → Handler) → Handler
loaded (ok a) f s = f a s
loaded (err no_rows) f s = (not_found, s)
loaded (err _) f s = (server_error, s)
loaded panic f s = (broken, s)

-- Ids are positive, so a negative one names no row.
unfoldable pub recipient_from_path : Text → (Recipients → Handler) → Handler
recipient_from_path id f s = elim (parse_int id) [
  | none ↦ (not_found, s)
  | some z ↦ elim z [
    | negsuc n ↦ (not_found, s)
    | pos n ↦ loaded (get_recipient n s.world.tables).0 f s
  ]
]

unfoldable pub target_from_path : Text → (NotificationTargets → Handler) → Handler
target_from_path id f s = elim (parse_int id) [
  | none ↦ (not_found, s)
  | some z ↦ elim z [
    | negsuc n ↦ (not_found, s)
    | pos n ↦ loaded (get_target n s.world.tables).0 f s
  ]
]

-- `RunDigestNow`: whether there is no error, or a panic of the worker.
unfoldable pub run_digest_now : Deps → DigestArgs → World → WorkResult × World
run_digest_now d a w = elim d.calendar [ none ↦ (retry, w) | some client ↦ capture d a w ]
