-- ===== src/Jobs/Verify.antt =====
-- internal/jobs/verify.go: the daily check that every calendar can be read.
pub mod Preserves
pub mod Verdict
use calendar_digest.Prelude.{
  Bool, true, false, not, ◌||◌, ◌&&◌, if◌then◌else◌, List, [], ◌∷◌, any, Option, none, some, ◌≡◌,
  ◌⊎◌, inl, inr, refl, sym, ap, subst, ◌∙◌, arith,
}
use calendar_digest.Prelude.Chars.{Text, text_eq}
use calendar_digest.Store.Models.{Recipients}
use calendar_digest.Store.Tables.{Tables}
use calendar_digest.Store.Tx.{Outcome, ok, err, panic}
use calendar_digest.Store.Flags.{flag_of}
use calendar_digest.Store.Recipients.{list_enabled_recipients}
use calendar_digest.Calendar.Ids.{ids}
use calendar_digest.Calendar.Google.{Fetched, bad_date, access, other}
use calendar_digest.Jobs.Deps.{
  Deps, World, CalendarClient, WorkResult, done, retry, cancel, crashed, Worker, no_credential,
  not_readable, calendar_access, calendar_restored, recovered,
}
use calendar_digest.Jobs.Alert.{
  raise, record_calendar_access, raise_keeps, record_calendar_access_lem, flag_calendar_access,
  flag_ok, flag_failed,
}
use calendar_digest.Jobs.Scan.{enabled}

-- Where the loops are: every calendar was tried, and whether one was refused, or another error ended
-- the check.
pub data Verified : Type 0 where
  tried : Bool → World → Verified
  stopped : World → Verified

abbrev pub and_then : Verified → (Bool → World → Verified) → Verified
and_then (tried refused w) f = f refused w
and_then (stopped w) f = stopped w

-- The switch on the error of one calendar.
pub verify_one : Deps → Recipients → Text → Fetched (Unit {0}) → Bool → World → Verified
verify_one d r id (Fetched.ok u) refused w = tried refused w
verify_one d r id (Fetched.err access) refused w =
    tried true (raise d calendar_access (not_readable r.name id) w)
verify_one d r id (Fetched.err bad_date) refused w = stopped w
verify_one d r id (Fetched.err other) refused w = stopped w

pub verify_ids : Deps → CalendarClient → Recipients → List Text → Bool → World → Verified
verify_ids d client r [] refused w = tried refused w
verify_ids d client r (id ∷ rest) refused w =
    and_then (verify_one d r id (client.verify_access id) refused w)
      (λ b v. verify_ids d client r rest b v)

pub verify_all : Deps → CalendarClient → List Recipients → Bool → World → Verified
verify_all d client [] refused w = tried refused w
verify_all d client (r ∷ rs) refused w =
    and_then (verify_ids d client r (ids r.calendar_id) refused w)
      (λ b v. verify_all d client rs b v)

pub record_verified : Deps → Verified → WorkResult × World
record_verified d (tried refused w) = (done, record_calendar_access d (not refused) w)
record_verified d (stopped w) = (retry, w)

pub verify_for : Deps → CalendarClient → Outcome (List Recipients) → Worker
verify_for d client (ok rs) w = record_verified d (verify_all d client rs false w)
verify_for d client (err e) w = (retry, w)
verify_for d client panic w = (crashed, w)

pub verify_with : Deps → Option CalendarClient → Worker
verify_with d none w =
    (done, raise d calendar_access no_credential (record_calendar_access d false w))
verify_with d (some client) w = verify_for d client (list_enabled_recipients w.tables).0 w

-- `VerifyCalendarAccessWorker.Work`.
unfoldable pub verify : Deps → Worker
unfolding verify_with verify_for record_verified verify_all verify_ids verify_one
verify d w = verify_with d d.calendar w
