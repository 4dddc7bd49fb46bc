-- ===== src/Clock/Stamp.antt =====
-- RFC3339 timestamps of Go's package `time`: `Format` of a UTC time, and `time.Parse`, which reads
-- an hour of one or two digits, skips a fraction of a second, and takes "Z" or an offset.
use calendar_digest.Prelude.{
  ℕ, ◌+◌, ◌-◌, ◌*◌, ◌/◌, ◌%◌, ◌<◌, Bool, true, false, ◌&&◌, ◌||◌, ltb, ltb→lt, leb, ◌==◌,
  if◌then◌else◌, ◌≡◌, refl, sym, ap, ◌∙◌, arith, [], ◌∷◌, ◌++◌, Option, none, some, Bool-cases, inl,
  inr, length,
}
use calendar_digest.Prelude.Chars.{Text, codes, text_lt, text_lt-append, pad2, pad2_lt}
use calendar_digest.Clock.Civil.{
  Date, date, civil, days_of, IsDate, civil-IsDayOf, days_in_month, is_leap,
}
use calendar_digest.Clock.Layout.{
  ◌>>=◌, format_date, getnum, getyear, skip, at_end, check_date, check_date-IsDate,
  length-format_date, read_date, read_date-format_date, getnum-pad2, getnum_hour, skip-cons,
}
use calendar_digest.Clock.Layout.Order.{format-civil_lt, year-civil}
use calendar_digest.Clock.Zone.{day_seconds}

abbrev pub format_tod : ℕ → Text
format_tod r = pad2 (r / 3600) ++ b':' ∷ (pad2 (r / 60 % 60) ++ b':' ∷ (pad2 (r % 60) ++ b'Z' ∷ []))

-- `t.UTC().Format(time.RFC3339)`, of an instant.
unfoldable pub format_rfc3339 : ℕ → Text
format_rfc3339 t = format_date (civil (t / day_seconds)) ++ b'T' ∷ format_tod (t % day_seconds)

abbrev is_digit_char : ℕ → Bool
is_digit_char c = leb b'0' c && leb c b'9'

skip_digits : Text → Text
skip_digits [] = []
skip_digits (c ∷ s) = let rest = skip_digits s in if is_digit_char c then rest else c ∷ s

-- A point or comma and digits, if they are there.
skip_fraction : Text → Text
unfolding skip_digits
skip_fraction [] = []
skip_fraction (p ∷ []) = p ∷ []
skip_fraction (p ∷ d ∷ s) =
    if ((p == b'.') || (p == b',')) && is_digit_char d then skip_digits s else p ∷ d ∷ s

-- Hours up to 24 are taken. The sign is that of the offset, so the clock `c` is moved against it.
apply_offset : ℕ → ℕ → ℕ → ℕ → Option ℕ
apply_offset c sign hh mm =
    if ltb 24 hh || leb 60 mm
    then none
    else if sign == b'+'
    then some (c - (hh * 3600 + mm * 60))
    else if sign == b'-'
    then some (c + (hh * 3600 + mm * 60))
    else none

read_numeric : ℕ → ℕ → Text → Option ℕ
unfolding apply_offset
read_numeric c sign s = do
  (hh, s) ← getnum true s
  s ← skip b':' s
  (mm, s) ← getnum true s
  u ← apply_offset c sign hh mm
  at_end u s

read_offset : ℕ → Text → Option ℕ
unfolding read_numeric
read_offset c [] = none
read_offset c (z ∷ s) = if z == b'Z' then at_end c s else read_numeric c z s

unfoldable pub check_tod : Date → ℕ → ℕ → ℕ → Option ℕ
check_tod t hh mm ss =
    if ltb hh 24 && ltb mm 60 && ltb ss 60
    then some (days_of t * day_seconds + hh * 3600 + mm * 60 + ss)
    else none

unfoldable pub parse_rfc3339 : Text → Option ℕ
unfolding read_offset skip_fraction
parse_rfc3339 s = do
  (t, s) ← read_date s
  s ← skip b'T' s
  (hh, s) ← getnum false s
  s ← skip b':' s
  (mm, s) ← getnum true s
  s ← skip b':' s
  (ss, s) ← getnum true s
  t ← check_date t
  c ← check_tod t hh mm ss
  read_offset c (skip_fraction s)

offset_test :
    parse_rfc3339 (codes "2026-08-05T9:30:00.5+10:00")
    ≡ parse_rfc3339 (codes "2026-08-04T23:30:00Z")
unfolding parse_rfc3339 read_date getnum getyear skip at_end check_date check_tod days_of
    days_in_month is_leap calendar_digest.Clock.Civil.year_start
offset_test = refl

tod_bounds : (r : ℕ) → r < day_seconds → (r / 3600 < 24) × (r / 60 % 60 < 60) × (r % 60 < 60)
tod_bounds r h = omega arith

read_offset_utc : (c : ℕ) → read_offset c (skip_fraction (b'Z' ∷ [])) ≡ some c
unfolding read_offset skip_fraction at_end
read_offset_utc c = refl

check_tod_lem :
    (t : Date) (n r : ℕ)
    → days_of t ≡ n
    → r < day_seconds
    → check_tod t (r / 3600) (r / 60 % 60) (r % 60) ≡ some (n * day_seconds + r)
unfolding check_tod
check_tod_lem t n r e h = ground (arith, tod_bounds r h)

-- A timestamp of a four-digit year is read back as the instant that was printed.
pub parse_rfc3339-format_rfc3339 :
    (t : ℕ) → t / day_seconds < 3652058 → parse_rfc3339 (format_rfc3339 t) ≡ some t
unfolding parse_rfc3339 format_rfc3339
parse_rfc3339-format_rfc3339 t small =
    let n = t / day_seconds in
    let r = t % day_seconds in
    let d = civil-IsDayOf n in
    let (h, m, s) = tod_bounds r (omega arith) in
    rw (read_date-format_date (civil n) _ d.valid (year-civil n small), ◌>>=◌)
      (rw (skip-cons b'T' _, ◌>>=◌)
        (rw (getnum_hour (r / 3600) _ (omega arith), ◌>>=◌)
          (rw (skip-cons b':' _, ◌>>=◌)
            (rw (getnum-pad2 (r / 60 % 60) _ (omega arith), ◌>>=◌)
              (rw (skip-cons b':' _, ◌>>=◌)
                (rw (getnum-pad2 (r % 60) _ (omega arith), ◌>>=◌)
                  (rw (check_date-IsDate (civil n) d.valid, ◌>>=◌)
                    (rw (check_tod_lem (civil n) n r d.number (omega arith), ◌>>=◌)
                      (read_offset_utc (n * day_seconds + r) ∙ ap some (omega arith))))))))))

text_lt-extend :
    (s t x y : Text) → text_lt s t ≡ true → length s ≡ length t → text_lt (s ++ x) (t ++ y) ≡ true
unfolding text_lt
text_lt-extend [] [] x y h k = cc
text_lt-extend [] (b ∷ t) x y h k = absurd (omega arith)
text_lt-extend (a ∷ s) [] x y h k = absurd (omega arith)
text_lt-extend (a ∷ s) (b ∷ t) x y h k = ground (arith, text_lt-extend s t x y)

format_tod_lt : (q r : ℕ) → q < r → r < day_seconds → text_lt (format_tod q) (format_tod r) ≡ true
format_tod_lt q r h k = elim (Bool-cases (ltb (q / 3600) (r / 3600))) [
  | inl lt ↦ pad2_lt _ _ (q / 3600) (r / 3600) (ltb→lt _ _ lt) (omega arith)
  | inr ge ↦
      let hour : q / 3600 ≡ r / 3600 = ground arith in
      rw hour (
        rw (text_lt-append (pad2 (r / 3600) ++ b':' ∷ []))
          (elim (Bool-cases (ltb (q / 60 % 60) (r / 60 % 60))) [
            | inl lt ↦ pad2_lt _ _ (q / 60 % 60) (r / 60 % 60) (ltb→lt _ _ lt) (omega arith)
            | inr ge' ↦
                let minute : q / 60 % 60 ≡ r / 60 % 60 = ground arith in
                rw minute (
                  rw (text_lt-append (pad2 (r / 60 % 60) ++ b':' ∷ []))
                    (pad2_lt _ _ (q % 60) (r % 60) (ground arith) (omega arith)))
          ]))
]

-- The texts of timestamps are in the order of their instants.
pub format_rfc3339_lt :
    (t u : ℕ)
    → t < u
    → u / day_seconds < 3652058
    → text_lt (format_rfc3339 t) (format_rfc3339 u) ≡ true
unfolding format_rfc3339
format_rfc3339_lt t u h small =
    let m = t / day_seconds in
    let n = u / day_seconds in
    elim (Bool-cases (ltb m n)) [
      | inl lt ↦
          text_lt-extend (format_date (civil m)) (format_date (civil n)) _ _
            (format-civil_lt m n (ltb→lt m n lt) small)
            (length-format_date (civil m) (year-civil m (ground arith))
              ∙ sym (length-format_date (civil n) (year-civil n small)))
      | inr ge ↦
          let same : m ≡ n = ground arith in
          rw same (
            rw (text_lt-append (format_date (civil n))) (
              rw (text_lt-append (b'T' ∷ []))
                (format_tod_lt (t % day_seconds) (u % day_seconds) (ground arith) (omega arith))))
    ]
