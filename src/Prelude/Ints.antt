-- ===== src/Prelude/Ints.antt =====
-- Go's `int` and `strconv.ParseInt` in base 10 with 64 bits.
use calendar_digest.Prelude.Tests.{if◌then◌else◌, ◌==◌, ltb, leb, Bool-cases}
use mathlib.Core.Logic.{inl, inr}
use calendar_digest.Prelude.Chars.{Text, digit, decimal, decimal_from}
use Prim.Native.Nat.{ℕ, zero, suc, ◌+◌, ◌-◌, ◌*◌, ◌/◌, ◌%◌, ◌^◌, ◌<◌}
use mathlib.Core.Bool.{Bool, true, false, ◌&&◌}
use mathlib.Core.List.{[], ◌∷◌}
use mathlib.Core.Option.{Option, none, some}
use mathlib.Core.Path.{◌≡◌, refl, sym, ap, ◌∙◌, subst}
use native.Mathlib.Omega.{arith}

pub data ℤ : Type 0 where
  pos negsuc : ℕ → ℤ

abbrev is_digit : ℕ → Bool
is_digit c = leb b'0' c && leb c b'9'

-- The digits after the ones read, whose value is `n`.
unfoldable pub digits_from : ℕ → Text → Option ℕ
digits_from n [] = some n
digits_from n (c ∷ s) =
    let more = digits_from (n * 10 + (c - b'0')) s in if is_digit c then more else none

-- The digits of a number, of which there is at least one.
unfoldable pub digits : Text → Option ℕ
digits [] = none
digits (c ∷ s) = digits_from 0 (c ∷ s)

abbrev up_to : ℕ → Option ℕ → Option ℕ
up_to bound none = none
up_to bound (some n) = if leb n bound then some n else none

abbrev negated : Option ℕ → Option ℤ
negated none = none
negated (some zero) = some (pos 0)
negated (some (suc n)) = some (negsuc n)

abbrev positive : Option ℕ → Option ℤ
positive none = none
positive (some n) = some (pos n)

unfoldable pub parse_int : Text → Option ℤ
parse_int [] = none
parse_int (c ∷ s) =
    if c == b'-'
    then negated (up_to (2 ^ 63) (digits s))
    else if c == b'+'
    then positive (up_to (2 ^ 63 - 1) (digits s))
    else positive (up_to (2 ^ 63 - 1) (digits (c ∷ s)))

parse_int_test : parse_int (b'-' ∷ b'1' ∷ b'2' ∷ []) ≡ some (negsuc 11)
unfolding parse_int digits digits_from
parse_int_test = refl

digits_from-digit :
    (m n : ℕ) (out : Text) → digits_from m (digit n ∷ out) ≡ digits_from (m * 10 + n % 10) out
unfolding digits_from
digits_from-digit m n out =
    let is : is_digit (digit n) ≡ true = ground arith in
    let value : digit n - b'0' ≡ n % 10 = omega arith in rw (is, value) refl

-- Reading what was written.
digits_from-decimal :
    (fuel n : ℕ) (out : Text)
    → n < fuel
    → digits_from 0 (decimal_from fuel n out) ≡ digits_from n out
unfolding decimal_from
digits_from-decimal zero n out h = ground arith
digits_from-decimal (suc fuel) n out h = elim (Bool-cases (ltb n 10)) [
  | inl e ↦
      let same : 0 * 10 + n % 10 ≡ n = ground (arith, e) in
      rw e (digits_from-digit 0 n out ∙ ap (λ m. digits_from m out) same)
  | inr e ↦
      let same : n / 10 * 10 + n % 10 ≡ n = omega arith in
      let less : n / 10 < fuel = ground (arith, e, h) in
      rw e (
        digits_from-decimal fuel (n / 10) (digit n ∷ out) less
        ∙ digits_from-digit (n / 10) n out
        ∙ ap (λ m. digits_from m out) same)
]

decimal_from-head :
    (fuel n : ℕ) (out : Text)
    → n < fuel
    → (c : ℕ) × (s : Text) × (decimal_from fuel n out ≡ c ∷ s) × (is_digit c ≡ true)
unfolding decimal_from
decimal_from-head zero n out h = ground arith
decimal_from-head (suc fuel) n out h = elim (Bool-cases (ltb n 10)) [
  | inl e ↦ rw e (digit n, out, refl, ground arith)
  | inr e ↦
      let less : n / 10 < fuel = ground (arith, e, h) in
      rw e (decimal_from-head fuel (n / 10) (digit n ∷ out) less)
]

last : (m : ℕ) → digits_from m [] ≡ some m
unfolding digits_from
last m = refl

read :
    (c : ℕ) (s : Text) (m : ℕ)
    → m < 2 ^ 63
    → is_digit c ≡ true
    → digits_from 0 (c ∷ s) ≡ some m
    → parse_int (c ∷ s) ≡ some (pos m)
unfolding parse_int digits
read c s m k is v =
    let minus : (c == b'-') ≡ false = ground arith in
    let plus : (c == b'+') ≡ false = ground arith in
    let fits : leb m (2 ^ 63 - 1) ≡ true = ground arith in rw (minus, plus, v, fits) refl

-- An id of 64 bits is read as it was written.
pub parse_int-decimal : (n : ℕ) → n < 2 ^ 63 → parse_int (decimal n) ≡ some (pos n)
unfolding decimal
parse_int-decimal n h =
    let (c, s, e, is) = decimal_from-head (n + 1) n [] (omega arith) in
    let value : digits_from 0 (c ∷ s) ≡ some n =
      subst (λ t. digits_from 0 t ≡ some n) e
        (digits_from-decimal (n + 1) n [] (omega arith) ∙ last n) in
    subst (λ t. parse_int t ≡ some (pos n)) (sym e) (read c s n h is value)
