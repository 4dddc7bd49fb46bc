-- ===== src/Calendar/Event/Window.antt =====
-- `DayWindow`: the windows of consecutive dates meet, except where midnight is skipped.
use calendar_digest.Prelude.{ℕ, ◌+◌, ◌-◌, ◌*◌, ◌≤◌, ◌<◌, ◌≡◌, ap, ◌∙◌, arith, some, [], ◌∷◌}
use calendar_digest.Prelude.Chars.{Text}
use calendar_digest.Clock.Civil.{civil, civil-IsDayOf}
use calendar_digest.Clock.Layout.{format_date, parse_date-format_date}
use calendar_digest.Clock.Layout.Order.{year-civil}
use calendar_digest.Clock.Zone.{Location, west, Time, clock_on, instant, wall, lookup, day_seconds}
use calendar_digest.Calendar.Event.{parse_in_location, next_day, day_window}

parsed :
    (n : ℕ) (loc : Location)
    → n < 3652058
    → parse_in_location (format_date (civil n)) loc ≡ some (clock_on loc (civil n) 0 0)
unfolding parse_in_location
parsed n loc h =
    rw
      (parse_date-format_date (civil n) (civil-IsDayOf n).valid (year-civil n h), parse_in_location)

-- The window of day `n`.
window :
    (n : ℕ) (loc : Location)
    → n < 3652058
    → day_window (format_date (civil n)) loc
      ≡ some (clock_on loc (civil n) 0 0, next_day (clock_on loc (civil n) 0 0))
unfolding day_window
window n loc h = rw (parsed n loc h, day_window)

abbrev on_wall : Location → ℕ → Time
on_wall loc w = record { sec = instant loc w; loc = loc }

ends :
    (n : ℕ) (loc : Location)
    → wall loc (clock_on loc (civil n) 0 0).sec ≡ n * day_seconds
    → next_day (clock_on loc (civil n) 0 0) ≡ clock_on loc (civil (n + 1)) 0 0
unfolding next_day clock_on
ends n loc e =
    ap (on_wall loc) (omega (arith, e, (civil-IsDayOf n).number, (civil-IsDayOf (n + 1)).number))

-- Where the clocks show the midnight that a day begins with, the window of the day ends at the
-- instant at which the window of the next day starts.
pub day_window_meets :
    (n : ℕ) (loc : Location)
    → n < 3652057
    → wall loc (clock_on loc (civil n) 0 0).sec ≡ n * day_seconds
    → (start meet end : Time) × (day_window (format_date (civil n)) loc ≡ some (start, meet))
      × (day_window (format_date (civil (n + 1))) loc ≡ some (meet, end))
day_window_meets n loc h e = (
  clock_on loc (civil n) 0 0,
  clock_on loc (civil (n + 1)) 0 0,
  next_day (clock_on loc (civil (n + 1)) 0 0),
  window n loc (omega arith) ∙ ap (λ t. some (clock_on loc (civil n) 0 0, t)) (ends n loc e),
  window (n + 1) loc (omega arith),
)

-- A zone whose clocks jump forward from the midnight before day `k`: the offset is `a` seconds west
-- of UTC before, and `b` after.
abbrev pub skips_midnight : Text → ℕ → ℕ → ℕ → Location
skips_midnight name k a b = record {
  name = name;
  first = west a;
  changes = record { when = k * day_seconds + a; offset = west b } ∷ [];
}

module _ (name : Text) (k a b : ℕ) (late : 2 ≤ k) (jump : b < a) (small : a ≤ 43200) where
  starts_early : (clock_on (skips_midnight name k a b) (civil k) 0 0).sec ≡ k * day_seconds + b
  unfolding clock_on instant lookup
  starts_early = ground (arith, (civil-IsDayOf k).number)

  ends_early :
      (next_day (clock_on (skips_midnight name k a b) (civil k) 0 0)).sec + (a - b)
      ≡ (clock_on (skips_midnight name k a b) (civil (k + 1)) 0 0).sec
  unfolding next_day clock_on instant wall lookup
  ends_early = ground (arith, (civil-IsDayOf k).number, (civil-IsDayOf (k + 1)).number)

-- Where the midnight that day `k` begins with is skipped, as the clocks west of UTC jump forward by
-- `a - b` seconds: the window of the day starts and ends `a - b` seconds early, so the last
-- `a - b` seconds of the day are in no window of this date.
pub day_window_skips :
    (name : Text) (k a b : ℕ)
    → 2 ≤ k
    → k < 3652057
    → b < a
    → a ≤ 43200
    → (start end : Time) × (day_window (format_date (civil k)) (skips_midnight name k a b)
        ≡ some (start, end))
      × (start.sec + (a - b) ≡ k * day_seconds + a)
      × (end.sec + (a - b) ≡ (clock_on (skips_midnight name k a b) (civil (k + 1)) 0 0).sec)
day_window_skips name k a b late early jump small =
    let loc = skips_midnight name k a b in
    (
      clock_on loc (civil k) 0 0,
      next_day (clock_on loc (civil k) 0 0),
      window k loc (omega arith),
      omega (arith, starts_early name k a b late jump small),
      ends_early name k a b late jump small,
    )
