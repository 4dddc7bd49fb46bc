-- ===== src/Clock/Layout/Order.antt =====
-- The layout "2006-01-02" of Go's package `time` as an order: dates and day numbers are in the
-- order of their texts.
use calendar_digest.Prelude.{
  ℕ, ◌≤◌, ◌<◌, true, false, ltb, ◌≡◌, refl, subst, arith, [], ◌∷◌, ◌++◌, Bool-cases, inl, inr,
}
use calendar_digest.Prelude.Chars.{
  Text, text_eq, text_lt, text_lt-append, pad2, pad2_lt, pad4_lt, decimal,
}
use calendar_digest.Clock.Civil.{Date, date, IsDate, civil, civil-IsDayOf}
use calendar_digest.Clock.Civil.Order.{Before, by_year, by_month, by_day, civil-Before}
use calendar_digest.Clock.Layout.{format_year, format_date, format_year_short, month_len}

append_ne : (s : Text) (c : ℕ) (t : Text) → text_eq (s ++ c ∷ t) [] ≡ false
unfolding text_eq
append_ne [] c t = refl
append_ne (a ∷ s) c t = refl

-- The layout "2006-01-02" puts dates in order as texts.
format_date-Before :
    (a b : Date)
    → IsDate a
    → IsDate b
    → b.year ≤ 9999
    → Before a b
    → text_lt (format_date a) (format_date b) ≡ true
unfolding format_date
format_date-Before a b va vb h (by_year lt) =
    rw (format_year_short a.year (omega arith), format_year_short b.year h)
      (pad4_lt _ _ a.year b.year lt (omega arith))
format_date-Before a b va vb h (by_month y lt) = rw y (
    rw (text_lt-append (format_year b.year))
      (rw (text_lt-append (b'-' ∷ [])) (pad2_lt _ _ a.month b.month lt (omega arith))))
format_date-Before a b va vb h (by_day y m lt) =
    rw (y, m)
      (rw (text_lt-append (format_year b.year)) (
        rw (text_lt-append (b'-' ∷ (pad2 b.month ++ b'-' ∷ [])))
          (pad2_lt [] [] a.day b.day lt (omega (arith, month_len b.year b.month)))))

civil_last : civil 3652058 ≡ date 9999 12 31
unfolding civil
civil_last = refl

Before-year : (a b : Date) → Before a b → a.year ≤ b.year
Before-year a b (by_year lt) = omega arith
Before-year a b (by_month y lt) = omega arith
Before-year a b (by_day y m lt) = omega arith

-- The days up to 9999-12-31 have years of four digits.
pub year-civil : (n : ℕ) → n < 3652058 → (civil n).year ≤ 9999
year-civil n h =
    omega (arith, Before-year _ _ (subst (Before (civil n)) civil_last (civil-Before n 3652058 h)))

-- So day numbers are in the order of their texts.
pub format-civil_lt :
    (m n : ℕ) → m < n → n < 3652058 → text_lt (format_date (civil m)) (format_date (civil n)) ≡ true
format-civil_lt m n h k =
    format_date-Before (civil m) (civil n) (civil-IsDayOf m).valid (civil-IsDayOf n).valid
      (year-civil n k) (civil-Before m n h)

pub format_date-ne : (t : Date) → text_eq (format_date t) [] ≡ false
unfolding format_date format_year text_eq
format_date-ne t = elim (Bool-cases (ltb t.year 10000)) [
  | inl e ↦ rw e
  | inr e ↦ rw e (append_ne (decimal t.year) _ _)
]
