-- ===== src/Digest/Due/Candidates.antt =====
-- Which dates `candidates` returns, and in which order.
use calendar_digest.Prelude.{
  ℕ, ◌+◌, ◌-◌, ◌*◌, ◌≤◌, ◌<◌, ◌≡◌, sym, subst, ◌↔◌, ◌⊎◌, inl, inr, arith, [], ◌∷◌, true, length, In,
  ltb, ltb→lt, Bool-cases,
}
use calendar_digest.Prelude.Chars.{Text, text_lt, text_lt_irrefl}
use calendar_digest.Clock.Civil.{civil}
use calendar_digest.Clock.Layout.{format_date}
use calendar_digest.Clock.Layout.Order.{format-civil_lt}
use calendar_digest.Clock.Zone.{Time}
use calendar_digest.Clock.Zone.Offsets.{IsWithin, lt-clock_on}
use calendar_digest.Digest.Due.{date_of, at, candidates_from, candidates}

-- The digest of day `n` is owed to a schedule: its notify instant, on the day before, has passed.
abbrev pub HasPassed : Time → ℕ → ℕ → ℕ → Type 0
HasPassed now hh mm n = (at (n - 1) hh mm now.loc).sec ≤ now.sec

-- Day numbers of four-digit years have one text each.
format-civil_inj :
    (m n : ℕ) → m < 3652058 → n < 3652058 → format_date (civil m) ≡ format_date (civil n) → m ≡ n
format-civil_inj m n hm hn e = elim (Bool-cases (ltb m n)) [
  | inl lt ↦
      cc (rw e at (format-civil_lt m n (ltb→lt m n lt) hn), text_lt_irrefl (format_date (civil n)))
  | inr ge ↦ elim (Bool-cases (ltb n m)) [
    | inl lt ↦ cc (
      rw (sym e) at (format-civil_lt n m (ltb→lt n m lt) hm),
      text_lt_irrefl (format_date (civil m)),
    )
    | inr le ↦ ground arith
  ]
]

module _ (now : Time) (hh mm : ℕ) (late : 1 ≤ date_of now) where
  sound_cases :
      (d : Text)
      → In d (candidates now hh mm)
      → ((d ≡ format_date (civil (date_of now))) × HasPassed now hh mm (date_of now))
        ⊎ ((d ≡ format_date (civil (date_of now + 1))) × HasPassed now hh mm (date_of now + 1))
  unfolding candidates candidates_from
  sound_cases d m = ground arith

  pub candidates_complete :
      (n : ℕ)
      → date_of now ≤ n
      → n ≤ date_of now + 1
      → HasPassed now hh mm n
      → In (format_date (civil n)) (candidates now hh mm)
  unfolding candidates candidates_from
  candidates_complete n lo hi passed = ground arith

  pub candidates_sound :
      (d : Text)
      → In d (candidates now hh mm)
      → (n : ℕ) × (d ≡ format_date (civil n))
        × (date_of now ≤ n)
        × (n ≤ date_of now + 1)
        × HasPassed now hh mm n
  candidates_sound d m = elim (sound_cases d m) [
    | inl (e, p) ↦ (date_of now, e, omega arith, omega arith, p)
    | inr (e, p) ↦ (date_of now + 1, e, omega arith, omega arith, p)
  ]

  -- There are at most two, the earlier first.
  pub candidates_ascend :
      date_of now < 3652057
      → (length (candidates now hh mm) ≤ 2)
        × ((d e : Text) → candidates now hh mm ≡ d ∷ e ∷ [] → text_lt d e ≡ true)
  unfolding candidates candidates_from
  candidates_ascend h = (
    ground arith,
    λ d e p.
        ground (arith, format-civil_lt (date_of now) (date_of now + 1) (omega arith) (omega arith)),
  )

-- In a zone whose offsets differ by no more than the notify time, no notify instant of a later day
-- has passed.
later-HasPassed :
    {lo hi : ℕ} (now : Time) (hh mm n : ℕ)
    → IsWithin lo hi now.loc
    → hi ≤ lo + (hh * 3600 + mm * 60)
    → 2 ≤ date_of now
    → HasPassed now hh mm n
    → n ≤ date_of now + 1
unfolding date_of at
later-HasPassed now hh mm n within spread late p = elim (Bool-cases (ltb (date_of now + 1) n)) [
  | inl lt ↦
      let after = lt-clock_on now (n - 1) hh mm within spread late (ground arith) in
      absurd (omega arith)
  | inr le ↦ ground arith
]

-- For a time after 0001-01-02 and before 9999-12-30, in a zone whose offsets differ by no more than
-- the notify time of day: the date of day `n` is a candidate exactly if it is not before today and
-- the notify instant on the day before it has passed.
pub candidates_iff :
    {lo hi : ℕ} (now : Time) (hh mm n : ℕ)
    → IsWithin lo hi now.loc
    → hi ≤ lo + (hh * 3600 + mm * 60)
    → 2 ≤ date_of now
    → date_of now < 3652056
    → n < 3652058
    → In (format_date (civil n)) (candidates now hh mm)
      ↔ ((date_of now ≤ n) × ((at (n - 1) hh mm now.loc).sec ≤ now.sec))
candidates_iff now hh mm n within spread late early small = (
  λ m.
      let (k, e, lo', hi', p) = candidates_sound now hh mm (omega arith) _ m in
      let same = format-civil_inj n k small (omega arith) e in
      (omega arith, subst (HasPassed now hh mm) (sym same) p),
  λ h.
      candidates_complete now hh mm (omega arith) n h.0
        (later-HasPassed now hh mm n within spread late h.1) h.1,
)
