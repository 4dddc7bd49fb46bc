-- ===== src/Clock/Civil.antt =====
-- Civil dates of the proleptic Gregorian calendar, by day numbers: day 0 is 0001-01-01. `civil` is
-- `Time.Date()` of a UTC midnight and `days_of` the day that `time.Date(y, m, d, 0, …)` names.
pub mod Order
use calendar_digest.Prelude.{
  ℕ, zero, suc, ◌+◌, ◌-◌, ◌*◌, ◌/◌, ◌%◌, ◌≤◌, ◌<◌, Bool, true, false, not, ◌||◌, ◌&&◌, ltb, ◌==◌,
  if◌then◌else◌, ◌≡◌, refl, arith,
}

pub record Date : Type 0 where
  pub year : ℕ
  pub month : ℕ
  pub day : ℕ

abbrev pub date : (year month day : ℕ) → Date
date y m d = record { day = d; month = m; year = y }

unfoldable pub is_leap : ℕ → Bool
is_leap y = (y % 4 == 0) && (not (y % 100 == 0) || (y % 400 == 0))

abbrev leap_days : ℕ → ℕ
leap_days y = if is_leap y then 1 else 0

-- As `daysIn` of Go's `time` counts them.
unfoldable pub days_in_month : ℕ → ℕ → ℕ
days_in_month y m = if m == 2 then 28 + leap_days y else 30 + (m + m / 8) % 2

days_in_year : ℕ → ℕ
days_in_year y = 365 + leap_days y

unfoldable pub year_start : ℕ → ℕ
year_start year = let past = year - 1 in 365 * past + (past / 4 + past / 400 - past / 100)

abbrev month_start : ℕ → ℕ → ℕ
month_start year zero = 0
month_start year (suc zero) = 0
month_start year (suc (suc i)) = days_in_month year (suc i) + month_start year (suc i)

-- The day number of a date whose month is from 1 to 12.
unfoldable pub days_of : Date → ℕ
days_of t = year_start t.year + month_start t.year t.month + (t.day - 1)

-- The month and the day, from the day of the year, counted from 0.
find_month : ℕ → ℕ → ℕ → ℕ → Date
find_month y zero m n = date y m (n + 1)
find_month y (suc left) m n =
    let later = find_month y left (m + 1) (n - days_in_month y m) in
    if ltb n (days_in_month y m) then date y m (n + 1) else later

-- The year, from a year to start at and the days since its first.
find_year : ℕ → ℕ → ℕ → Date
find_year zero y n = find_month y 11 1 n
find_year (suc left) y n =
    let later = find_year left (y + 1) (n - days_in_year y) in
    if ltb n (days_in_year y) then find_month y 11 1 n else later

-- 400 years are 146097 days, whichever year they begin with.
unfoldable pub civil : ℕ → Date
unfolding find_year find_month days_in_year days_in_month is_leap
civil n = find_year 399 (n / 146097 * 400 + 1) (n % 146097)

civil_test : civil 739832 ≡ date 2026 8 5
unfolding civil
civil_test = refl

days_of_test : days_of (date 2026 8 5) ≡ 739832
unfolding days_of year_start days_in_month is_leap
days_of_test = refl

-- Laws of the calendar.

year_start-suc : (year : ℕ) → 1 ≤ year → year_start (suc year) ≡ days_in_year year + year_start year
unfolding year_start days_in_year is_leap
year_start-suc year h = ground arith

pub record IsDate (t : Date) : Type 0 where
  pub year_in : 1 ≤ t.year
  pub month_in : (1 ≤ t.month) × (t.month ≤ 12)
  pub day_in : (1 ≤ t.day) × (t.day ≤ days_in_month t.year t.month)

month_start-suc :
    (year month : ℕ)
    → 1 ≤ month
    → month_start year (suc month) ≡ days_in_month year month + month_start year month
month_start-suc year zero h = absurd (omega arith)
month_start-suc year (suc i) h = refl

year_start_months : (year : ℕ) → month_start year 13 ≡ days_in_year year
unfolding days_in_month days_in_year
year_start_months year = ground arith

pub days_in_month_range : (y m : ℕ) → (28 ≤ days_in_month y m) × (days_in_month y m ≤ 31)
unfolding days_in_month
days_in_month_range y m = ground arith

year_cycle : (k : ℕ) → year_start (k * 400 + 1) ≡ k * 146097
unfolding year_start
year_cycle k = omega arith

later_cycle : (k : ℕ) → year_start (k * 400 + 1 + 399 + 1) ≡ (k + 1) * 146097
unfolding year_start
later_cycle k = omega arith

-- `r` is the date of the day number `n`.
pub record IsDayOf (n : ℕ) (r : Date) : Type 0 where
  pub valid : IsDate r
  pub number : days_of r ≡ n

december : (y m n : ℕ) → m ≡ 12 → month_start y m + n < days_in_year y → n < days_in_month y m
december y m n e h = rw e (omega (arith, year_start_months y, rw e at h))

find_month-IsDayOf :
    (y more m k : ℕ)
    → m + more ≡ 12
    → 1 ≤ y
    → 1 ≤ m
    → month_start y m + k < days_in_year y
    → IsDayOf (k + month_start y m + year_start y) (find_month y more m k)
unfolding find_month days_of
find_month-IsDayOf y zero m k full hy hm inside =
    let small = december y m k (omega arith) inside in
    record {
      valid = record { year_in = hy; month_in = omega arith; day_in = omega arith };
      number = omega arith;
    }
find_month-IsDayOf y (suc more) m k full hy hm inside =
    ground
      (arith, month_start-suc y m hm, find_month-IsDayOf y more (m + 1) (k - days_in_month y m))

find_year-IsDayOf :
    (left y n : ℕ)
    → 1 ≤ y
    → year_start y + n < year_start (y + left + 1)
    → IsDayOf (year_start y + n) (find_year left y n)
unfolding find_year
find_year-IsDayOf zero y n hy fits =
    ground (arith, year_start-suc y hy, find_month-IsDayOf y 11 1 n refl hy)
find_year-IsDayOf (suc left) y n hy fits = ground (
  arith,
  year_start-suc y hy,
  find_month-IsDayOf y 11 1 n refl hy,
  find_year-IsDayOf left (y + 1) (n - days_in_year y),
)

-- Every day number is that of a valid date, which `civil` finds.
pub civil-IsDayOf : (n : ℕ) → IsDayOf n (civil n)
unfolding civil
civil-IsDayOf n =
    let k = n / 146097 in
    let r =
      find_year-IsDayOf 399 (k * 400 + 1) (n % 146097) (omega arith)
        (omega (arith, year_cycle k, later_cycle k)) in
    record { valid = r.valid; number = omega (arith, r.number, year_cycle k) }
