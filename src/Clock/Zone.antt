-- ===== src/Clock/Zone.antt =====
-- Zones and instants. An instant is the number of whole seconds since 0001-01-01 00:00 UTC, the
-- zero of `time.Time`; a fraction of a second changes no comparison that the program makes, since
-- every other side of one is a whole second. A `Location` holds the rows of the zone database:
-- the offset before the first change of the clocks, and each change. Offsets are shorter than a
-- day, so wall clocks are not negative from 0001-01-02 on.
pub mod Offsets
use calendar_digest.Prelude.{
  ℕ, ◌+◌, ◌-◌, ◌*◌, ◌/◌, ◌%◌, ◌≤◌, ◌<◌, Bool, true, false, not, ◌&&◌, ◌||◌, ltb, leb, ◌==◌,
  if◌then◌else◌, ◌≡◌, refl, arith, List, [], ◌∷◌, Option, none, some,
}
use calendar_digest.Prelude.Chars.{Text, codes}
use calendar_digest.Clock.Civil.{Date, date, civil, days_of, civil-IsDayOf}

abbrev pub day_seconds : ℕ
day_seconds = 86400

-- Seconds east or west of UTC.
pub data Offset : Type 0 where
  east : ℕ → Offset
  west : ℕ → Offset

pub record Change : Type 0 where
  pub when : ℕ
  pub offset : Offset

pub record Location : Type 0 where
  pub name : Text
  pub first : Offset
  pub changes : List Change

abbrev pub utc : Location
utc = record { name = codes "UTC"; first = east 0; changes = [] }

-- What `Location.lookup` answers: an offset, and the instants from `start` to before `until` at
-- which it is in force; `none` is no end.
pub record Span : Type 0 where
  pub offset : Offset
  pub start : ℕ
  pub until : Option ℕ

lookup_from : Offset → ℕ → List Change → ℕ → Span
lookup_from o start [] t = record { offset = o; start = start; until = none }
lookup_from o start (c ∷ cs) t =
    if ltb t c.when
    then record { offset = o; start = start; until = some c.when }
    else lookup_from c.offset c.when cs t

unfoldable pub lookup : Location → ℕ → Span
unfolding lookup_from
lookup l t = lookup_from l.first 0 l.changes t

abbrev pub to_wall : Offset → ℕ → ℕ
to_wall (east k) t = t + k
to_wall (west k) t = t - k

abbrev pub from_wall : Offset → ℕ → ℕ
from_wall (east k) w = w - k
from_wall (west k) w = w + k

abbrev pub size : Offset → ℕ
size (east k) = k
size (west k) = k

abbrev before_until : ℕ → Option ℕ → Bool
before_until t none = true
before_until t (some e) = ltb t e

abbrev pub in_span : Span → ℕ → Bool
in_span s t = leb s.start t && before_until t s.until

-- The wall clock of an instant, as seconds.
unfoldable pub wall : Location → ℕ → ℕ
wall l t = to_wall (lookup l t).offset t

-- `time.Date` with a wall clock in seconds: the offset at the instant that the wall clock would be
-- in UTC, and, if that offset is not in force at the instant it gives, the one that is.
unfoldable pub instant : Location → ℕ → ℕ
instant l w =
    let guess = lookup l w in
    let t = from_wall guess.offset w in
    if (size guess.offset == 0) || in_span guess t then t else from_wall (lookup l t).offset w

-- A `time.Time`: an instant and the zone in which it is read.
pub record Time : Type 0 where
  pub sec : ℕ
  pub loc : Location

-- `t.In(loc)`.
abbrev pub in_zone : Location → Time → Time
in_zone l t = record { sec = t.sec; loc = l }

-- `t.Date()`.
unfoldable pub date_of_time : Time → Date
date_of_time t = civil (wall t.loc t.sec / day_seconds)

-- `time.Date(y, m, d, 0, 0, 0, 0, time.UTC)`, as a day number.
abbrev pub utc_midnight : Date → ℕ
utc_midnight t = days_of t

-- `time.Date(y, m, d, hh, mm, 0, 0, loc)`.
unfoldable pub clock_on : Location → Date → ℕ → ℕ → Time
clock_on l t hh mm = record {
  sec = instant l (days_of t * day_seconds + hh * 3600 + mm * 60);
  loc = l;
}
