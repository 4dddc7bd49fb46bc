-- ===== src/Digest/Due/Gaps.antt =====
-- `at` around a change of the clocks: where it reads back, and what a clock in the gap means.
use calendar_digest.Prelude.{ℕ, ◌+◌, ◌-◌, ◌*◌, ◌≤◌, ◌<◌, ◌≡◌, arith, [], ◌∷◌}
use calendar_digest.Prelude.Chars.{Text}
use calendar_digest.Clock.Zone.{
  day_seconds, Offset, east, west, Location, lookup, size, wall, instant,
}
use calendar_digest.Clock.Zone.Offsets.{sec-clock_on}
use calendar_digest.Digest.Due.{at}

-- A zone with one change of its clocks.
abbrev pub one_change : Text → Offset → ℕ → Offset → Location
one_change name o when p = record {
  name = name;
  first = o;
  changes = record { when = when; offset = p } ∷ [];
}

-- `hh:mm` on a day, as seconds.
abbrev pub clock : ℕ → ℕ → ℕ → ℕ
clock day hh mm = day * day_seconds + hh * 3600 + mm * 60

instant_reads :
    (name : Text) (o p : Offset) (when c u : ℕ)
    → size o ≤ 86400
    → size p ≤ 86400
    → 172800 ≤ when
    → 345600 ≤ c
    → wall (one_change name o when p) u ≡ c
    → wall (one_change name o when p) (instant (one_change name o when p) c) ≡ c
unfolding wall instant lookup
instant_reads name (east a) (east b) when c u ha hb hw hc e = ground arith
instant_reads name (east a) (west b) when c u ha hb hw hc e = ground arith
instant_reads name (west a) (east b) when c u ha hb hw hc e = ground arith
instant_reads name (west a) (west b) when c u ha hb hw hc e = ground arith

-- In a zone with one change of its clocks, `at` gives an instant at which the clocks show `hh:mm`
-- on the day, provided that they ever show it.
pub at_reads :
    (name : Text) (o p : Offset) (when day hh mm u : ℕ)
    → size o ≤ 86400
    → size p ≤ 86400
    → 172800 ≤ when
    → 4 ≤ day
    → wall (one_change name o when p) u ≡ clock day hh mm
    → wall (one_change name o when p) (at day hh mm (one_change name o when p)).sec
      ≡ clock day hh mm
unfolding at
at_reads name o p when day hh mm u ho hp hw late e =
    rw (sec-clock_on (one_change name o when p) day hh mm)
      (instant_reads name o p when (clock day hh mm) u ho hp hw (omega arith) e)

-- East of UTC a clock that is skipped, as the offset grows from `a` to `b`, is read as the time
-- that is later by what was skipped.
at_gap_east :
    (name : Text) (a b when day hh mm : ℕ)
    → b ≤ 86400
    → a < b
    → 172800 ≤ when
    → when + a ≤ clock day hh mm
    → clock day hh mm < when + b
    → wall
        (one_change name (east a) when (east b))
        (at day hh mm (one_change name (east a) when (east b))).sec
      ≡ clock day hh mm + (b - a)
unfolding at wall instant lookup
at_gap_east name a b when day hh mm hb jump hw lo hi =
    rw (sec-clock_on (one_change name (east a) when (east b)) day hh mm) (ground arith)

-- West of UTC a clock that is skipped, as the offset shrinks from `a` to `b`, is read as the time
-- that is earlier by what was skipped.
pub at_gap_west :
    (name : Text) (a b when day hh mm : ℕ)
    → a ≤ 86400
    → b < a
    → 172800 ≤ when
    → when ≤ clock day hh mm + a
    → clock day hh mm + b < when
    → wall
          (one_change name (west a) when (west b))
          (at day hh mm (one_change name (west a) when (west b))).sec
        + (a - b)
      ≡ clock day hh mm
unfolding at wall instant lookup
at_gap_west name a b when day hh mm ha jump hw lo hi =
    rw (sec-clock_on (one_change name (west a) when (west b)) day hh mm) (ground arith)
