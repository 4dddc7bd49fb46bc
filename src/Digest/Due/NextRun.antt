-- ===== src/Digest/Due/NextRun.antt =====
-- `NextRun`: the next notify instant, its agreement with the due check, and where it goes back.
use native.Mathlib.Nat.{le_refl, add-sub_cancel}
use calendar_digest.Prelude.{
  ℕ, ◌+◌, ◌-◌, ◌*◌, ◌≤◌, ◌<◌, ◌≡◌, ◌↔◌, sym, ap, ◌∙◌, subst, ◌⊎◌, inl, inr, arith, [], ◌∷◌, false,
  ltb, ltb→lt, Option, In, Bool-cases, if◌then◌else◌,
}
use calendar_digest.Prelude.Chars.{Text}
use calendar_digest.Clock.Civil.{civil}
use calendar_digest.Clock.Layout.{format_date}
use calendar_digest.Clock.Zone.{day_seconds, west, Location, Time, in_zone, lookup, wall, instant}
use calendar_digest.Clock.Zone.Offsets.{
  IsWithin, lt-clock_on, clock_on_mono, clock_on-le, date_of_time-wall, sec-clock_on,
}
use calendar_digest.Store.Models.{Recipients}
use calendar_digest.Digest.Due.{ok, date_of, at, candidates, schedule, next_run}
use calendar_digest.Digest.Due.Candidates.{candidates_iff}

-- The day whose notify instant `next_run` returns: today's if it is still to come.
abbrev run_day : Time → ℕ → ℕ → Location → ℕ
run_day now hh mm loc =
    let day = date_of (in_zone loc now) in
    if ltb now.sec (at day hh mm loc).sec then day else day + 1

module _ (load_location : Text → Option Location) (now : Time) (r : Recipients) where
  next_run-run_day :
      (loc : Location) (hh mm : ℕ)
      → schedule load_location r ≡ ok (loc, (hh, mm))
      → next_run load_location now r ≡ ok (at (run_day now hh mm loc) hh mm loc)
  unfolding next_run
  next_run-run_day loc hh mm h = ground arith

module _ {lo hi : ℕ} (now : Time) (loc : Location) (hh mm : ℕ) (within : IsWithin lo hi loc)
    (spread : hi ≤ lo + (hh * 3600 + mm * 60)) (rest : hi + (hh * 3600 + mm * 60) ≤ lo + 86400)
    (late : 2 ≤ date_of (in_zone loc now)) where
  run_day_after : now.sec < (at (run_day now hh mm loc) hh mm loc).sec
  unfolding at date_of
  run_day_after = elim (Bool-cases (ltb now.sec (at day hh mm loc).sec)) [
    | inl e ↦ rw e (ltb→lt _ _ e)
    | inr e ↦ rw e (lt-clock_on (in_zone loc now) (day + 1) hh mm within spread late (omega arith))
  ]
    where
      day : ℕ
      day = date_of (in_zone loc now)

  at_lt : (m n : ℕ) → 1 ≤ m → m < n → (at m hh mm loc).sec < (at n hh mm loc).sec
  unfolding at
  at_lt m n pos lt = clock_on_mono loc m n hh mm within (omega arith) pos lt

  at_mono : (m n : ℕ) → 1 ≤ m → m ≤ n → (at m hh mm loc).sec ≤ (at n hh mm loc).sec
  at_mono m n pos le = elim (Bool-cases (ltb m n)) [
    | inl lt ↦ omega (arith, at_lt m n pos (ltb→lt m n lt))
    | inr ge ↦ subst (λ k. (at m hh mm loc).sec ≤ (at k hh mm loc).sec) (ground arith) (le_refl _)
  ]

  run_day_pos : 1 ≤ run_day now hh mm loc
  run_day_pos = ground arith

  -- Two days with one notify instant are one day.
  run_day-eq :
      at (run_day now hh mm loc) hh mm loc ≡ at (date_of (in_zone loc now) + 1) hh mm loc
      → (at (date_of (in_zone loc now)) hh mm loc).sec ≤ now.sec
  run_day-eq e = elim (Bool-cases (ltb now.sec (at day hh mm loc).sec)) [
    | inl b ↦ absurd (
        omega (
          arith,
          at_lt day (day + 1) (omega arith) (omega arith),
          ap (λ (t : Time). t.sec) (rw b at e),
        ))
    | inr b ↦ ground arith
  ]
    where
      day : ℕ
      day = date_of (in_zone loc now)

  run_day_least :
      (n : ℕ)
      → now.sec < (at n hh mm loc).sec
      → (at (run_day now hh mm loc) hh mm loc).sec ≤ (at n hh mm loc).sec
  unfolding at date_of
  run_day_least n after =
      at_mono (run_day now hh mm loc) n run_day_pos (elim (Bool-cases (ltb n day)) [
        | inl lt ↦ absurd (
            omega (arith, clock_on-le (in_zone loc now) n hh mm within rest late (ltb→lt n day lt)))
        | inr ge ↦ elim (Bool-cases (ltb now.sec (at day hh mm loc).sec)) [
          | inl e ↦ rw e (ground arith)
          | inr e ↦ rw e (not_day ge e)
        ]
      ])
    where
      day : ℕ
      day = date_of (in_zone loc now)

      not_day : ltb n day ≡ false → ltb now.sec (at day hh mm loc).sec ≡ false → day + 1 ≤ n
      not_day ge e = elim (Bool-cases (ltb day n)) [
        | inl lt ↦ ground arith
        | inr le ↦
            let same : n ≡ day = ground arith in
            absurd (ground (arith, subst (λ k. now.sec < (at k hh mm loc).sec) same after))
      ]

-- For a time from 0001-01-03 on and a notify time of day that is no less than the spread of the
-- zone's offsets and leaves as much to midnight: `NextRun` returns an instant after `now`, and the
-- notify instant of each day is either not after `now` or not before that.
pub next_run_least :
    (load_location : Text → Option Location) (now : Time) (r : Recipients) {lo hi : ℕ}
    (loc : Location) (hh mm : ℕ)
    → schedule load_location r ≡ ok (loc, (hh, mm))
    → IsWithin lo hi loc
    → hi ≤ lo + (hh * 3600 + mm * 60)
    → hi + (hh * 3600 + mm * 60) ≤ lo + 86400
    → 2 ≤ date_of (in_zone loc now)
    → (t : Time) × (next_run load_location now r ≡ ok t)
      × (now.sec < t.sec)
      × ((n : ℕ) → ((at n hh mm loc).sec ≤ now.sec) ⊎ (t.sec ≤ (at n hh mm loc).sec))
next_run_least load_location now r loc hh mm h within spread rest late = (
  at (run_day now hh mm loc) hh mm loc,
  next_run-run_day load_location now r loc hh mm h,
  run_day_after now loc hh mm within spread rest late,
  λ n. elim (Bool-cases (ltb now.sec (at n hh mm loc).sec)) [
    | inl e ↦ inr (run_day_least now loc hh mm within spread rest late n (ltb→lt _ _ e))
    | inr e ↦ inl (ground arith)
  ],
)

passed_run_day :
    (now : Time) (loc : Location) (hh mm : ℕ)
    → (at (date_of (in_zone loc now) + 1 - 1) hh mm loc).sec ≤ now.sec
    → at (run_day now hh mm loc) hh mm loc ≡ at (date_of (in_zone loc now) + 1) hh mm loc
passed_run_day now loc hh mm p =
    let day = date_of (in_zone loc now) in
    let q = rw (add-sub_cancel day 1) at p in
    ap (λ k. at k hh mm loc) (let e : run_day now hh mm loc ≡ day + 1 = ground arith in e)

ok-inj : {s t : Time} → ok s ≡ ok t → s ≡ t
ok-inj e = cc

-- Under the same conditions `NextRun` and the due check have one boundary: tomorrow's digest is a
-- candidate exactly if the next run is tomorrow's.
pub next_run-candidates :
    (load_location : Text → Option Location) (now : Time) (r : Recipients) {lo hi : ℕ}
    (loc : Location) (hh mm : ℕ)
    → schedule load_location r ≡ ok (loc, (hh, mm))
    → IsWithin lo hi loc
    → hi ≤ lo + (hh * 3600 + mm * 60)
    → hi + (hh * 3600 + mm * 60) ≤ lo + 86400
    → 2 ≤ date_of (in_zone loc now)
    → date_of (in_zone loc now) < 3652056
    → In (format_date (civil (date_of (in_zone loc now) + 1))) (candidates (in_zone loc now) hh mm)
      ↔ (next_run load_location now r ≡ ok (at (date_of (in_zone loc now) + 1) hh mm loc))
next_run-candidates load_location now r loc hh mm h within spread rest late early =
    let day = date_of (in_zone loc now) in
    let runs = next_run-run_day load_location now r loc hh mm h in
    let c =
      candidates_iff (in_zone loc now) hh mm (day + 1) within spread late early (omega arith) in
    (
      λ m. rw runs (ap ok (passed_run_day now loc hh mm (c.0 m).1)),
      λ e. c.1 (
        omega arith,
        rw (add-sub_cancel day 1)
            (run_day-eq now loc hh mm within spread rest late (ok-inj (sym runs ∙ e))),
      ),
    )

-- A zone whose clocks jump forward at the midnight before day `k`: the offset is `a` seconds west
-- of UTC before, and `b` after.
abbrev pub midnight_jump : Text → ℕ → ℕ → ℕ → Location
midnight_jump name k a b = record {
  name = name;
  first = west a;
  changes = record { when = k * day_seconds + a; offset = west b } ∷ [];
}

module _ (now : Time) (name : Text) (k a b : ℕ) (late : 2 ≤ k) (jump : b < a) (small : a ≤ 43200)
    (lo : k * day_seconds + b ≤ now.sec) (hi : now.sec < k * day_seconds + a) where
  day_before_jump : date_of (in_zone (midnight_jump name k a b) now) ≡ k - 1
  unfolding date_of wall lookup
  day_before_jump = date_of_time-wall (in_zone (midnight_jump name k a b) now) ∙ ground arith

  at_day_before : (at (k - 1) 0 0 (midnight_jump name k a b)).sec ≤ now.sec
  unfolding at instant lookup
  at_day_before = rw (sec-clock_on (midnight_jump name k a b) (k - 1) 0 0) (ground arith)

  at_jump : (at k 0 0 (midnight_jump name k a b)).sec ≤ now.sec
  unfolding at instant lookup
  at_jump = rw (sec-clock_on (midnight_jump name k a b) k 0 0) (ground arith)

  jump_early :
      (at (run_day now 0 0 (midnight_jump name k a b)) 0 0 (midnight_jump name k a b)).sec ≤ now.sec
  jump_early =
      subst (λ d. (at d 0 0 (midnight_jump name k a b)).sec ≤ now.sec)
        (sym (
          let e : run_day now 0 0 (midnight_jump name k a b) ≡ k =
            ground (arith, day_before_jump, at_day_before) in
          e))
        at_jump

-- With a notify time of 00:00 and the clocks about to jump forward at midnight by `a - b` seconds,
-- `NextRun` returns an instant that is not after `now` for every `now` in the last `a - b` seconds
-- before the jump.
pub next_run_goes_back :
    (load_location : Text → Option Location) (now : Time) (r : Recipients) (name : Text) (k a b : ℕ)
    → schedule load_location r ≡ ok (midnight_jump name k a b, (0, 0))
    → 2 ≤ k
    → b < a
    → a ≤ 43200
    → k * day_seconds + b ≤ now.sec
    → now.sec < k * day_seconds + a
    → (t : Time) × (next_run load_location now r ≡ ok t) × (t.sec ≤ now.sec)
next_run_goes_back load_location now r name k a b h late jump small lo hi = (
  at (run_day now 0 0 (midnight_jump name k a b)) 0 0 (midnight_jump name k a b),
  next_run-run_day load_location now r (midnight_jump name k a b) 0 0 h,
  jump_early now name k a b late jump small lo hi,
)
