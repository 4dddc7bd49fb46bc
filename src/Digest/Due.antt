-- ===== src/Digest/Due.antt =====
-- internal/digest/due.go. `time.LoadLocation` reads the zone database, which is no code of the
-- repository: it is the parameter `load_location`, and `none` is its error.
pub mod Candidates
pub mod Owed
pub mod Skips
pub mod Floor
pub mod FloorDate
pub mod Schedule
pub mod NextRun
pub mod Gaps
pub mod Examples
use calendar_digest.Prelude.{
  ℕ, ◌+◌, ◌-◌, ◌*◌, ◌/◌, ◌≤◌, ◌<◌, Bool, true, false, not, ◌||◌, ◌&&◌, ltb, ◌==◌, if◌then◌else◌,
  ◌≡◌, refl, arith, List, [], ◌∷◌, ◌++◌, Option, none, some, any,
}
use calendar_digest.Prelude.Chars.{Text, codes, text_eq, text_lt}
use calendar_digest.Clock.Civil.{days_of, civil}
use calendar_digest.Clock.Layout.{format_date, parse_clock}
use calendar_digest.Clock.Zone.{Location, utc, Time, in_zone, date_of_time, clock_on}
use calendar_digest.Store.Models.{Recipients, SnapshotKey}

pub record DueDigest : Type 0 where
  pub recipient_id : ℕ
  pub digest_date : Text

-- The errors that `Due` wraps: of the zone, or of the notify time, with its text.
pub data ScheduleError : Type 0 where
  bad_tz : Text → ScheduleError
  bad_notify_time : Text → ScheduleError

pub record Skipped : Type 0 where
  pub recipient_id : ℕ
  pub err : ScheduleError

-- A result `(value, error)` of which one is there.
pub data Checked {ℓ} (A : Type ℓ) : Type ℓ where
  ok : A → Checked A
  err : ScheduleError → Checked A

-- The calendar day of a time in its own zone, as the day number of a UTC midnight.
unfoldable pub date_of : Time → ℕ
date_of t = days_of (date_of_time t)

-- The instant of `hh:mm` on a calendar day, in a zone.
pub at : ℕ → ℕ → ℕ → Location → Time
at day hh mm loc = clock_on loc (civil day) hh mm

pub parse_notify_time : Text → Checked (ℕ × ℕ)
parse_notify_time s = elim (parse_clock s) [ none ↦ err (bad_notify_time s) | some t ↦ ok t ]

-- The loop of `candidates`. `AddDate` on a UTC midnight moves by whole days.
pub candidates_from : Time → ℕ → ℕ → ℕ → List ℕ → List Text
candidates_from now hh mm today [] = []
candidates_from now hh mm today (back ∷ rest) =
    let day = today - back in
    let later = candidates_from now hh mm today rest in
    if ltb now.sec (at day hh mm now.loc).sec then later else format_date (civil (day + 1)) ∷ later

pub candidates : Time → ℕ → ℕ → List Text
candidates now hh mm = candidates_from now hh mm (date_of now) (1 ∷ 0 ∷ [])

-- Whether the set `done` has the key.
abbrev pub is_key : ℕ → Text → SnapshotKey → Bool
is_key id date k = (k.recipient_id == id) && text_eq k.digest_date date

unfoldable pub is_done : List SnapshotKey → ℕ → Text → Bool
is_done snapshots id date = any (is_key id date) snapshots

pub owed_dates : List SnapshotKey → ℕ → List Text → List DueDigest
owed_dates snapshots id [] = []
owed_dates snapshots id (date ∷ dates) =
    let later = owed_dates snapshots id dates in
    if is_done snapshots id date
    then later
    else record { recipient_id = id; digest_date = date } ∷ later

module _ (load_location : Text → Option Location) where
  -- The zone and the notify time of a recipient, in the order in which they are tested.
  pub schedule : Recipients → Checked (Location × (ℕ × ℕ))
  schedule r = elim (load_location r.tz) [
    | none ↦ err (bad_tz r.tz)
    | some loc ↦ elim (parse_notify_time r.notify_time) [ err e ↦ err e | ok t ↦ ok (loc, t) ]
  ]

  -- The body of the loop of `Due`: what a recipient adds to the two results.
  pub due_one : Time → List SnapshotKey → Recipients → List DueDigest × List Skipped
  due_one now snapshots r = if not r.enabled then ([], []) else elim (schedule r) [
    | err e ↦ ([], record { recipient_id = r.id; err = e } ∷ [])
    | ok (loc, (hh, mm)) ↦ (owed_dates snapshots r.id (candidates (in_zone loc now) hh mm), [])
  ]

  unfoldable pub due : Time → List Recipients → List SnapshotKey → List DueDigest × List Skipped
  due now [] snapshots = ([], [])
  due now (r ∷ rs) snapshots =
      let one = due_one now snapshots r in
      let rest = due now rs snapshots in (one.0 ++ rest.0, one.1 ++ rest.1)

  pub next_run : Time → Recipients → Checked Time
  next_run now r = elim (schedule r) [
    | err e ↦ err e
    | ok (loc, (hh, mm)) ↦
        let local = in_zone loc now in
        let day = date_of local in
        let next = at day hh mm loc in
        ok (if ltb local.sec next.sec then next else at (day + 1) hh mm loc)
  ]

  -- The body of the loop of `SnapshotFloor`, with the floor so far; the empty text is none yet.
  floor_step : Time → Text → Recipients → Text
  floor_step now floor r = if not r.enabled then floor else elim (load_location r.tz) [
    | none ↦ floor
    | some loc ↦
        let date = format_date (date_of_time (in_zone loc now)) in
        if text_eq floor [] || text_lt date floor then date else floor
  ]

  floor_from : Time → Text → List Recipients → Text
  floor_from now floor [] = floor
  floor_from now floor (r ∷ rs) = floor_from now (floor_step now floor r) rs

  pub snapshot_floor : Time → List Recipients → Text
  snapshot_floor now recipients =
      let floor = floor_from now [] recipients in
      if text_eq floor [] then format_date (date_of_time (in_zone utc now)) else floor
