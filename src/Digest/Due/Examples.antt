-- ===== src/Digest/Due/Examples.antt =====
-- Examples of the due check: two recipients at UTC on 2026-08-05, 21:30, and zones around a change
-- of the clocks.
use calendar_digest.Prelude.{
  ℕ, ◌+◌, ◌-◌, ◌*◌, ◌≤◌, ◌<◌, true, false, List, [], ◌∷◌, Option, some, In, ◌≡◌, refl, arith, ◌↔◌,
  ◌⊎◌, inl, inr, Bool-cases, subst, sym,
}
use calendar_digest.Prelude.Chars.{Text, codes, text_eq, text_lt, TextLe, text_eq_sound}
use calendar_digest.Clock.Civil.{civil, days_of, year_start}
use calendar_digest.Clock.Layout.{
  format_date, parse_clock, read_clock, check_clock, getnum, skip, at_end,
}
use calendar_digest.Clock.Zone.{
  day_seconds, west, Location, utc, Time, in_zone, wall, lookup, date_of_time, instant, clock_on,
}
use calendar_digest.Clock.Zone.Offsets.{IsWithin, date_of_time-wall}
use calendar_digest.Store.Models.{Recipients, SnapshotKey}
use calendar_digest.Digest.Due.{
  DueDigest, Skipped, bad_notify_time, ok, date_of, at, parse_notify_time, candidates, is_done,
  owed_dates, candidates_from, schedule, due_one, due, next_run, snapshot_floor, floor_from,
  floor_step,
}
use calendar_digest.Digest.Due.Owed.{Owes, due_iff}
use calendar_digest.Digest.Due.Skips.{IsSkipped, skipped_iff}
use calendar_digest.Digest.Due.Floor.{AgreeFrom}
use calendar_digest.Digest.Due.NextRun.{
  next_run_least, next_run-candidates, next_run_goes_back, midnight_jump,
}
use calendar_digest.Digest.Due.Gaps.{one_change, clock, at_gap_west}

abbrev evening : Time
evening = record { sec = 739832 * day_seconds + 77400; loc = utc }

abbrev zones : Text → Option Location
zones tz = some utc

abbrev ana : Recipients
ana = record {
  id = 1;
  name = codes "Ana";
  calendar_id = codes "a@x";
  notify_time = codes "21:00";
  tz = codes "UTC";
  enabled = true;
}

abbrev ben : Recipients
ben = record ana { id = 2; notify_time = codes "25:00" }

abbrev captured_today : List SnapshotKey
captured_today = record { recipient_id = 1; digest_date = codes "2026-08-05" } ∷ []

evening_date : date_of (in_zone utc evening) ≡ 739832
unfolding date_of wall lookup
evening_date = rw (date_of_time-wall (in_zone utc evening)) refl

evening_late :
    (tz : Text) (loc : Location) → zones tz ≡ some loc → 1 ≤ date_of (in_zone loc evening)
evening_late tz loc h = let same : utc ≡ loc = cc in rw (← same) (rw evening_date (omega arith))

ana-schedule : schedule zones ana ≡ ok (utc, (21, 0))
unfolding schedule parse_notify_time parse_clock read_clock check_clock getnum skip at_end
ana-schedule = refl

abbrev tomorrow : DueDigest
tomorrow = record { recipient_id = 1; digest_date = codes "2026-08-06" }

owed_tomorrow :
    due zones evening (ana ∷ ben ∷ []) captured_today
    ≡ (tomorrow ∷ [], record { recipient_id = 2; err = bad_notify_time (codes "25:00") } ∷ [])
unfolding due due_one schedule parse_notify_time parse_clock read_clock check_clock getnum skip
    at_end candidates candidates_from owed_dates is_done date_of at date_of_time clock_on instant
    wall lookup days_of civil format_date text_eq year_start
owed_tomorrow = refl

utc-IsWithin : IsWithin 86400 86400 utc
utc-IsWithin = record { first_fits = (omega arith, omega arith, omega arith); changes_fit = tt }

due_iff_example :
    In tomorrow (due zones evening (ana ∷ ben ∷ []) captured_today).0
    ↔ ((r : Recipients) × In r (ana ∷ ben ∷ []) × Owes zones evening captured_today r tomorrow)
due_iff_example = due_iff zones evening captured_today evening_late (ana ∷ ben ∷ []) tomorrow

abbrev unread : Skipped
unread = record { recipient_id = 2; err = bad_notify_time (codes "25:00") }

skipped_iff_example :
    In unread (due zones evening (ana ∷ ben ∷ []) captured_today).1
    ↔ ((r : Recipients) × In r (ana ∷ ben ∷ []) × IsSkipped zones r unread)
skipped_iff_example = skipped_iff zones evening captured_today (ana ∷ ben ∷ []) unread

evening_timely :
    (tz : Text) (loc : Location)
    → zones tz ≡ some loc
    → (1 ≤ date_of (in_zone loc evening)) × (date_of (in_zone loc evening) < 3652057)
evening_timely tz loc h =
    let same : utc ≡ loc = cc in rw (← same) (rw evening_date (omega arith, omega arith))

evening_floor : snapshot_floor zones evening (ana ∷ ben ∷ []) ≡ codes "2026-08-05"
unfolding snapshot_floor floor_from floor_step date_of_time wall lookup days_of civil format_date
    text_eq text_lt year_start
evening_floor = refl

-- With a key of January before the others.
abbrev longer : List SnapshotKey
longer = record { recipient_id = 1; digest_date = codes "2026-01-01" } ∷ captured_today

january_before :
    (date : Text) → TextLe (codes "2026-08-05") date → text_eq (codes "2026-01-01") date ≡ false
unfolding text_lt
january_before date le = elim (Bool-cases (text_eq (codes "2026-01-01") date)) [
  | inr e ↦ e
  | inl e ↦ absurd (
      let bad =
        subst (TextLe (codes "2026-08-05")) (sym (text_eq_sound (codes "2026-01-01") date e)) le in
      cc)
]

longer_agrees : AgreeFrom (snapshot_floor zones evening (ana ∷ ben ∷ [])) captured_today longer
unfolding is_done
longer_agrees id date le =
    let after = subst (λ f. TextLe f date) evening_floor le in
    ground (arith, january_before date after)

next_run_least_example :
    (t : Time) × (next_run zones evening ana ≡ ok t)
    × (evening.sec < t.sec)
    × ((n : ℕ) → ((at n 21 0 utc).sec ≤ evening.sec) ⊎ (t.sec ≤ (at n 21 0 utc).sec))
next_run_least_example =
    next_run_least zones evening ana utc 21 0 ana-schedule utc-IsWithin (omega arith) (omega arith)
      (rw evening_date (omega arith))

next_run-candidates_example :
    In
      (format_date (civil (date_of (in_zone utc evening) + 1)))
      (candidates (in_zone utc evening) 21 0)
    ↔ (next_run zones evening ana ≡ ok (at (date_of (in_zone utc evening) + 1) 21 0 utc))
next_run-candidates_example =
    next_run-candidates zones evening ana utc 21 0 ana-schedule utc-IsWithin (omega arith)
      (omega arith) (rw evening_date (omega arith)) (rw evening_date (omega arith))

-- Four hours west of UTC, with the clocks put forward by an hour at the midnight before day 100.
abbrev four_west : Location
four_west = midnight_jump (codes "America/Santiago") 100 14400 10800

abbrev midnight : Recipients
midnight = record ana { notify_time = codes "00:00"; tz = codes "America/Santiago" }

midnight-schedule : schedule (λ _. some four_west) midnight ≡ ok (four_west, (0, 0))
unfolding schedule parse_notify_time parse_clock read_clock check_clock getnum skip at_end
midnight-schedule = refl

next_run_goes_back_example :
    (t : Time) × (next_run
        (λ _. some four_west)
        (record { sec = 100 * day_seconds + 12000; loc = utc })
        midnight
      ≡ ok t)
    × (t.sec ≤ 100 * day_seconds + 12000)
next_run_goes_back_example =
    next_run_goes_back (λ _. some four_west) (record { sec = 100 * day_seconds + 12000; loc = utc })
      midnight (codes "America/Santiago") 100 14400 10800 midnight-schedule (omega arith)
      (omega arith) (omega arith) (omega arith) (omega arith)

-- Five hours and then four hours west of UTC, from 07:00 UTC on day 100.
abbrev america : Location
america =
    one_change (codes "America/New_York") (west 18000) (100 * day_seconds + 25200) (west 14400)

at_gap_west_example : wall america (at 100 2 30 america).sec + (18000 - 14400) ≡ clock 100 2 30
at_gap_west_example =
    at_gap_west (codes "America/New_York") 18000 14400 (100 * day_seconds + 25200) 100 2 30
      (omega arith) (omega arith) (omega arith) (omega arith) (omega arith)
