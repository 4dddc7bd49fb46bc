-- ===== src/Clock/Zone/Offsets.antt =====
-- What the offsets of a zone say of wall clocks and of `time.Date`.
use calendar_digest.Prelude.{
  ℕ, ◌+◌, ◌-◌, ◌*◌, ◌/◌, ◌≤◌, ◌<◌, ◌≡◌, ap, arith, List, [], ◌∷◌, Bool-cases, ◌||◌, inl, inr, ltb,
  ◌==◌, All,
}
use calendar_digest.Clock.Civil.{days_of, civil, civil-IsDayOf}
use calendar_digest.Clock.Zone.{
  day_seconds, Offset, east, west, Change, Location, lookup_from, lookup, to_wall, from_wall, size,
  in_span, wall, instant, Time, date_of_time, clock_on,
}

-- An offset plus one day, which is positive.
abbrev pub bias : Offset → ℕ
bias (east k) = 86400 + k
bias (west k) = 86400 - k

-- The offset lies in a range, given with one day added, and is at most a day.
abbrev pub Fits : ℕ → ℕ → Offset → Type 0
Fits lo hi o = (lo ≤ bias o) × (bias o ≤ hi) × (size o ≤ 86400)

-- All offsets of a zone lie in the range.
pub record IsWithin (lo hi : ℕ) (l : Location) : Type 0 where
  pub first_fits : Fits lo hi l.first
  pub changes_fit : All (λ c. Fits lo hi c.offset) l.changes

lookup_from-Fits :
    (lo hi : ℕ) (o : Offset) (start : ℕ) (cs : List Change) (t : ℕ)
    → Fits lo hi o
    → All (λ c. Fits lo hi c.offset) cs
    → Fits lo hi (lookup_from o start cs t).offset
unfolding lookup_from
lookup_from-Fits lo hi o start [] t h hs = h
lookup_from-Fits lo hi o start (c ∷ cs) t h (hc, hs) = elim (Bool-cases (ltb t c.when)) [
  | inl e ↦ rw e h
  | inr e ↦ rw e (lookup_from-Fits lo hi c.offset c.when cs t hc hs)
]

module _ {lo hi : ℕ} {l : Location} (w : IsWithin lo hi l) where
  lookup-Fits : (t : ℕ) → Fits lo hi (lookup l t).offset
  unfolding lookup
  lookup-Fits t = lookup_from-Fits lo hi l.first 0 l.changes t w.first_fits w.changes_fit

  -- `time.Date` reads the wall clock with one of the zone's offsets.
  instant_offset : (c : ℕ) → (o : Offset) × Fits lo hi o × (instant l c ≡ from_wall o c)
  unfolding instant
  instant_offset c =
      let guess = lookup l c in
      let t = from_wall guess.offset c in
      elim (Bool-cases ((size guess.offset == 0) || in_span guess t)) [
        | inl e ↦ (guess.offset, lookup-Fits c, rw e)
        | inr e ↦ ((lookup l t).offset, lookup-Fits t, rw e)
      ]

pub date_of_time-wall : (t : Time) → days_of (date_of_time t) ≡ wall t.loc t.sec / day_seconds
unfolding date_of_time
date_of_time-wall t = (civil-IsDayOf (wall t.loc t.sec / day_seconds)).number

-- The date of a time is that of its day number.
pub civil-date_of_time : (t : Time) → civil (days_of (date_of_time t)) ≡ date_of_time t
unfolding date_of_time
civil-date_of_time t = ap civil (date_of_time-wall t)

pub sec-clock_on :
    (l : Location) (day hh mm : ℕ)
    → (clock_on l (civil day) hh mm).sec ≡ instant l (day * day_seconds + hh * 3600 + mm * 60)
unfolding clock_on
sec-clock_on l day hh mm = rw (civil-IsDayOf day).number

from_to_wall :
    (lo hi c s t : ℕ) (o p : Offset)
    → Fits lo hi o
    → Fits lo hi p
    → hi ≤ lo + s
    → 172800 ≤ to_wall p t
    → to_wall p t + s < c
    → t < from_wall o c
from_to_wall lo hi c s t (east a) (east b) h k d late lt = omega arith
from_to_wall lo hi c s t (east a) (west b) h k d late lt = omega arith
from_to_wall lo hi c s t (west a) (east b) h k d late lt = omega arith
from_to_wall lo hi c s t (west a) (west b) h k d late lt = omega arith

-- On a later calendar day, a clock at least as large as the spread of the zone's offsets shows
-- only after `t`.
pub lt-clock_on :
    {lo hi : ℕ} (t : Time) (day hh mm : ℕ)
    → IsWithin lo hi t.loc
    → hi ≤ lo + (hh * 3600 + mm * 60)
    → 2 ≤ days_of (date_of_time t)
    → days_of (date_of_time t) < day
    → t.sec < (clock_on t.loc (civil day) hh mm).sec
unfolding wall
lt-clock_on {lo} {hi} t day hh mm within spread late lt =
    let c = day * day_seconds + hh * 3600 + mm * 60 in
    let (o, fits, reads) = instant_offset within c in
    rw (sec-clock_on t.loc day hh mm, reads)
      (from_to_wall lo hi c (hh * 3600 + mm * 60) t.sec o (lookup t.loc t.sec).offset fits
        (lookup-Fits within t.sec) spread (omega (arith, date_of_time-wall t))
        (omega (arith, date_of_time-wall t)))

from_wall_mono :
    (lo hi c d : ℕ) (o p : Offset)
    → Fits lo hi o
    → Fits lo hi p
    → hi < lo + 86400
    → 86400 ≤ c
    → c + 86400 ≤ d
    → from_wall o c < from_wall p d
from_wall_mono lo hi c d (east a) (east b) h k spread pos le = omega arith
from_wall_mono lo hi c d (east a) (west b) h k spread pos le = omega arith
from_wall_mono lo hi c d (west a) (east b) h k spread pos le = omega arith
from_wall_mono lo hi c d (west a) (west b) h k spread pos le = omega arith

-- One clock, on two days, in a zone whose offsets differ by less than a day.
pub clock_on_mono :
    {lo hi : ℕ} (l : Location) (m n hh mm : ℕ)
    → IsWithin lo hi l
    → hi < lo + 86400
    → 1 ≤ m
    → m < n
    → (clock_on l (civil m) hh mm).sec < (clock_on l (civil n) hh mm).sec
clock_on_mono {lo} {hi} l m n hh mm within spread pos lt =
    let c = m * day_seconds + hh * 3600 + mm * 60 in
    let d = n * day_seconds + hh * 3600 + mm * 60 in
    let (o, fo, eo) = instant_offset within c in
    let (p, fp, ep) = instant_offset within d in
    rw (sec-clock_on l m hh mm, eo)
      (rw (sec-clock_on l n hh mm, ep)
        (from_wall_mono lo hi c d o p fo fp spread (omega arith) (omega arith)))

to_from_wall :
    (lo hi c s t : ℕ) (o p : Offset)
    → Fits lo hi o
    → Fits lo hi p
    → hi + s ≤ lo + 86400
    → 172800 ≤ to_wall p t
    → c + 86400 ≤ to_wall p t + s
    → from_wall o c ≤ t
to_from_wall lo hi c s t (east a) (east b) h k d late le = omega arith
to_from_wall lo hi c s t (east a) (west b) h k d late le = omega arith
to_from_wall lo hi c s t (west a) (east b) h k d late le = omega arith
to_from_wall lo hi c s t (west a) (west b) h k d late le = omega arith

-- On an earlier calendar day, a clock that leaves the spread of the zone's offsets to midnight
-- showed before `t`, or at it.
pub clock_on-le :
    {lo hi : ℕ} (t : Time) (day hh mm : ℕ)
    → IsWithin lo hi t.loc
    → hi + (hh * 3600 + mm * 60) ≤ lo + 86400
    → 2 ≤ days_of (date_of_time t)
    → day < days_of (date_of_time t)
    → (clock_on t.loc (civil day) hh mm).sec ≤ t.sec
unfolding wall
clock_on-le {lo} {hi} t day hh mm within spread late lt =
    let c = day * day_seconds + hh * 3600 + mm * 60 in
    let (o, fits, reads) = instant_offset within c in
    rw (sec-clock_on t.loc day hh mm, reads)
      (to_from_wall lo hi c (hh * 3600 + mm * 60) t.sec o (lookup t.loc t.sec).offset fits
        (lookup-Fits within t.sec) spread (omega (arith, date_of_time-wall t))
        (omega (arith, date_of_time-wall t)))
