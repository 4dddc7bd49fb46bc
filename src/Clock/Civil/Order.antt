-- ===== src/Clock/Civil/Order.antt =====
-- Day numbers order the dates: by year, then month, then day.
use native.Mathlib.Nat.{le_refl, le_trans}
use native.Mathlib.Decide.{le_ind}
use calendar_digest.Prelude.{ℕ, suc, ◌+◌, ◌-◌, ◌≤◌, ◌<◌, ◌≡◌, ap, ◌⊎◌, inl, inr, arith}
use calendar_digest.Clock.Civil.{
  Date, days_of, civil, IsDate, days_in_year, year_start, month_start, year_start-suc,
  month_start-suc, year_start_months, civil-IsDayOf,
}

years_mono : (i j : ℕ) → 1 ≤ i → i ≤ j → year_start i ≤ year_start j
years_mono i j h =
    le_ind (λ m. year_start i ≤ year_start m) (le_refl _)
      (λ m le ih. omega (arith, year_start-suc m (le_trans h le), ih)) j

months_mono : (y i j : ℕ) → 1 ≤ i → i ≤ j → month_start y i ≤ month_start y j
months_mono y i j h =
    le_ind (λ m. month_start y i ≤ month_start y m) (le_refl _)
      (λ m le ih. omega (arith, month_start-suc y m (le_trans h le), ih)) j

-- Dates by their fields, the year first.
pub data Before (d e : Date) : Type 0 where
  by_day : d.year ≡ e.year → d.month ≡ e.month → d.day < e.day → Before d e
  by_month : d.year ≡ e.year → d.month < e.month → Before d e
  by_year : d.year < e.year → Before d e

-- The day of the year, from 0, is below the length of the year.
day_of_year-lt :
    (t : Date) → IsDate t → month_start t.year t.month + (t.day - 1) < days_in_year t.year
day_of_year-lt t v = omega (
  arith,
  year_start_months t.year,
  month_start-suc t.year t.month v.month_in.0,
  months_mono t.year (suc t.month) 13 (omega arith) (omega arith),
  v.day_in,
)

Before-days_of : (a b : Date) → IsDate a → IsDate b → Before a b → days_of a < days_of b
unfolding days_of
Before-days_of a b va vb (by_year lt) = omega (
  arith,
  day_of_year-lt a va,
  year_start-suc a.year va.year_in,
  years_mono (suc a.year) b.year (omega arith) lt,
)
Before-days_of a b va vb (by_month y lt) = rw y (
    omega (
      arith,
      rw y at va.day_in,
      month_start-suc b.year a.month va.month_in.0,
      months_mono b.year (suc a.month) b.month (omega arith) lt,
    ))
Before-days_of a b va vb (by_day y m lt) = rw (y, m) (omega (arith, va.day_in))

date_cases : (a b : Date) → (a ≡ b) ⊎ (Before a b ⊎ Before b a)
date_cases a b = grind (arith, by_year, by_month, by_day)

-- Two valid dates with one day number are equal.
days_of_inj : (a b : Date) → IsDate a → IsDate b → days_of a ≡ days_of b → a ≡ b
days_of_inj a b va vb e = elim (date_cases a b) [
  | inl same ↦ same
  | inr (inl lt) ↦ absurd (omega (arith, Before-days_of a b va vb lt))
  | inr (inr lt) ↦ absurd (omega (arith, Before-days_of b a vb va lt))
]

civil-days_of : (t : Date) → IsDate t → civil (days_of t) ≡ t
civil-days_of t v =
    let r = civil-IsDayOf (days_of t) in days_of_inj (civil (days_of t)) t r.valid v r.number

-- An earlier day number is that of an earlier date.
pub civil-Before : (m n : ℕ) → m < n → Before (civil m) (civil n)
civil-Before m n lt =
    let r = civil-IsDayOf m in
    let s = civil-IsDayOf n in
    elim (date_cases (civil m) (civil n)) [
      | inl same ↦ absurd (omega (arith, ap days_of same, r.number, s.number))
      | inr (inl b) ↦ b
      | inr (inr b) ↦
          absurd (omega (arith, Before-days_of _ _ s.valid r.valid b, r.number, s.number))
    ]
