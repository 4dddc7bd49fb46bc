-- ===== src/Clock/Layout.antt =====
-- The layouts "2006-01-02" (`time.DateOnly`) and "15:04" of Go's package `time`: formatting and
-- `time.Parse`, with the tests that `time.Parse` makes for these layouts. `none` is its error.
pub mod Order
use calendar_digest.Prelude.{
  ℕ, ◌+◌, ◌-◌, ◌*◌, ◌≤◌, ◌<◌, Bool, true, false, not, ◌&&◌, ltb, leb, ◌==◌, if◌then◌else◌, ◌≡◌,
  refl, subst, arith, [], ◌∷◌, ◌++◌, append-nil, length, Option, none, some, Bool-cases, inl, inr,
}
use calendar_digest.Prelude.Chars.{
  Text, codes, text_eq, text_lt, text_lt-append, pad2, pad4, pad2_lt, pad4_lt, decimal,
}
use calendar_digest.Clock.Civil.{
  Date, date, is_leap, days_in_month, IsDate, civil, civil-IsDayOf, days_in_month_range,
}

infixl 5 ◌>>=◌
abbrev pub ◌>>=◌ {ℓ κ} : {A : Type ℓ} {B : Type κ} → Option A → (A → Option B) → Option B
none >>= f = none
some a >>= f = f a

-- A year of more than four digits is printed whole.
pub format_year : ℕ → Text
format_year y = if ltb y 10000 then pad4 y else decimal y

unfoldable pub format_date : Date → Text
unfolding format_year
format_date t = format_year t.year ++ b'-' ∷ (pad2 t.month ++ b'-' ∷ pad2 t.day)

unfoldable pub format_clock : ℕ → ℕ → Text
format_clock hour minute = pad2 hour ++ b':' ∷ pad2 minute

abbrev is_digit : ℕ → Bool
is_digit c = leb b'0' c && leb c b'9'

abbrev value : ℕ → ℕ
value c = c - b'0'

-- Two digits, or one where the layout's number is not `fixed`, and what follows.
unfoldable pub getnum : Bool → Text → Option (ℕ × Text)
getnum fixed [] = none
getnum fixed (a ∷ []) = if is_digit a && not fixed then some (value a, []) else none
getnum fixed (a ∷ b ∷ s) =
    if is_digit a
    then (if is_digit b
        then some (value a * 10 + value b, s)
        else if fixed
        then none
        else some (value a, b ∷ s))
    else none

-- The text behind a character of the layout.
unfoldable pub skip : ℕ → Text → Option Text
skip c [] = none
skip c (a ∷ s) = if a == c then some s else none

-- A year is four digits.
unfoldable pub getyear : Text → Option (ℕ × Text)
getyear (a ∷ b ∷ c ∷ d ∷ s) =
    if is_digit a && is_digit b && is_digit c && is_digit d
    then some (value a * 1000 + value b * 100 + value c * 10 + value d, s)
    else none
getyear _ = none

unfoldable pub at_end : {A : Type 0} → A → Text → Option A
at_end a [] = some a
at_end a (c ∷ s) = none

unfoldable pub check_date : Date → Option Date
check_date t =
    if leb 1 t.month && leb t.month 12 && leb 1 t.day && leb t.day (days_in_month t.year t.month)
    then some t
    else none

-- The fields of a date, and what follows them.
unfoldable pub read_date : Text → Option (Date × Text)
read_date s = do
  (y, s) ← getyear s
  s ← skip b'-' s
  (m, s) ← getnum true s
  s ← skip b'-' s
  (d, s) ← getnum true s
  some (date y m d, s)

unfoldable pub parse_date : Text → Option Date
parse_date s = do (t, s) ← read_date s; t ← at_end t s; check_date t

unfoldable pub check_clock : ℕ × ℕ → Option (ℕ × ℕ)
check_clock (hour, minute) = if ltb hour 24 && ltb minute 60 then some (hour, minute) else none

unfoldable pub read_clock : Text → Option (ℕ × ℕ)
read_clock s = do
  (hour, s) ← getnum false s
  s ← skip b':' s
  (minute, s) ← getnum true s
  at_end (hour, minute) s

unfoldable pub parse_clock : Text → Option (ℕ × ℕ)
parse_clock s = do t ← read_clock s; check_clock t

one_digit_hour : parse_clock (codes "9:05") ≡ some (9, 5)
unfolding parse_clock read_clock getnum skip at_end check_clock
one_digit_hour = refl

refused_clocks :
    (parse_clock (codes "24:00") ≡ none)
    × (parse_clock (codes "21:5") ≡ none)
    × (parse_clock (codes "21:60") ≡ none)
    × (parse_clock (codes "21:00:00") ≡ none)
    × (parse_clock (codes "") ≡ none)
unfolding parse_clock read_clock getnum skip at_end check_clock
refused_clocks = (refl, refl, refl, refl, refl)

parsed_date : parse_date (codes "2026-02-28") ≡ some (date 2026 2 28)
unfolding parse_date read_date getyear getnum skip at_end check_date days_in_month is_leap
parsed_date = refl

no_such_date : parse_date (codes "2026-02-29") ≡ none
unfolding parse_date read_date getyear getnum skip at_end check_date days_in_month is_leap
no_such_date = refl

-- Reading back what was printed, with any rest.
pub getnum-pad2 : (n : ℕ) (s : Text) → n < 100 → getnum true (pad2 n ++ s) ≡ some (n, s)
unfolding getnum
getnum-pad2 n s h = ground arith

pub getnum_hour : (n : ℕ) (s : Text) → n < 100 → getnum false (pad2 n ++ s) ≡ some (n, s)
unfolding getnum
getnum_hour n s h = ground arith

getyear-pad4 : (y : ℕ) (s : Text) → y < 10000 → getyear (pad4 y ++ s) ≡ some (y, s)
unfolding getyear
getyear-pad4 y s h = ground arith

pub skip-cons : (c : ℕ) (s : Text) → skip c (c ∷ s) ≡ some s
unfolding skip
skip-cons c s = ground arith

pub format_year_short : (y : ℕ) → y ≤ 9999 → format_year y ≡ pad4 y
unfolding format_year
format_year_short y h = ground arith

pub check_date-IsDate : (t : Date) → IsDate t → check_date t ≡ some t
unfolding check_date
check_date-IsDate t v = ground arith

parse_clock-format_clock :
    (hh mm : ℕ) → hh < 24 → mm < 60 → parse_clock (format_clock hh mm) ≡ some (hh, mm)
unfolding parse_clock read_clock format_clock at_end check_clock
parse_clock-format_clock hh mm h m =
    rw (getnum_hour hh (b':' ∷ pad2 mm) (omega arith), ◌>>=◌)
      (rw (skip-cons b':' (pad2 mm), ◌>>=◌)
        (rw (getnum-pad2 mm [] (omega arith), ◌>>=◌) (ground arith)))

pub month_len : (y m : ℕ) → days_in_month y m ≤ 31
month_len y m = (days_in_month_range y m).1

pub read_date-format_date :
    (t : Date) (s : Text) → IsDate t → t.year ≤ 9999 → read_date (format_date t ++ s) ≡ some (t, s)
unfolding read_date format_date
read_date-format_date t s v h = rw (format_year_short t.year h) (
    rw (getyear-pad4 t.year _ (omega arith), ◌>>=◌)
      (rw (skip-cons b'-' _, ◌>>=◌)
        (rw (getnum-pad2 t.month _ (omega arith), ◌>>=◌)
          (rw (skip-cons b'-' _, ◌>>=◌)
            (rw (getnum-pad2 t.day s (omega (arith, month_len t.year t.month)), ◌>>=◌))))))

pub parse_date-format_date :
    (t : Date) → IsDate t → t.year ≤ 9999 → parse_date (format_date t) ≡ some t
unfolding parse_date at_end
parse_date-format_date t v h =
    let e =
      subst (λ s. read_date s ≡ some (t, [])) (append-nil (format_date t))
        (read_date-format_date t [] v h) in
    rw (e, ◌>>=◌) (check_date-IsDate t v)

pub length-format_date : (t : Date) → t.year ≤ 9999 → length (format_date t) ≡ 10
unfolding format_date
length-format_date t h = rw (format_year_short t.year h)
