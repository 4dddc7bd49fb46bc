-- ===== src/Prelude/Chars.antt =====
-- Texts as lists of code points, with Go's comparison of strings, `strings.Split` by one byte,
-- `strings.TrimSpace`, `strings.Fields`, `strings.Join` and `%d`. The code compares and cuts texts
-- at ASCII characters only, where code points and bytes agree.

use Prim.Native.Char.{code}
use Prim.Native.String.{String}
use Prim.Native.Nat.{ℕ, zero, suc, ◌+◌, ◌/◌, ◌%◌, ◌<◌}
use mathlib.Core.Path.{◌≡◌, refl, subst}
use mathlib.Core.List.{List, [], ◌∷◌, ◌++◌}
use mathlib.Core.Bool.{Bool, true, false, ◌||◌, ◌&&◌}
use mathlib.Core.Logic.{◌≢◌, inl, inr}
use native.Mathlib.Omega.{arith}
use calendar_digest.Prelude.Tests.{◌==◌, ltb, Bool-cases, if◌then◌else◌}

abbrev pub Text : Type 0
Text = List ℕ

-- The code points of a literal.
abbrev pub codes : String → Text
codes String.[] = []
codes (String.◌∷◌ c s) = code c ∷ codes s

unfoldable pub text_eq : Text → Text → Bool
text_eq [] [] = true
text_eq [] (b ∷ t) = false
text_eq (a ∷ s) [] = false
text_eq (a ∷ s) (b ∷ t) = (a == b) && text_eq s t

-- Go's `<` on strings: lexicographic.
unfoldable pub text_lt : Text → Text → Bool
text_lt [] [] = false
text_lt [] (b ∷ t) = true
text_lt (a ∷ s) [] = false
text_lt (a ∷ s) (b ∷ t) = ltb a b || ((a == b) && text_lt s t)

pub text_eq_refl : (s : Text) → text_eq s s ≡ true
unfolding text_eq
text_eq_refl [] = refl
text_eq_refl (a ∷ s) = ground (arith, text_eq_refl s)

pub text_eq_sound : (s t : Text) → text_eq s t ≡ true → s ≡ t
unfolding text_eq
text_eq_sound [] [] h = refl
text_eq_sound [] (b ∷ t) h = cc
text_eq_sound (a ∷ s) [] h = cc
text_eq_sound (a ∷ s) (b ∷ t) h = ground (arith, text_eq_sound s t)

pub text_eq_complete : (s t : Text) → s ≡ t → text_eq s t ≡ true
text_eq_complete s t e = subst (λ u. text_eq s u ≡ true) e (text_eq_refl s)

pub text_eq-ne : (s t : Text) → s ≢ t → text_eq s t ≡ false
text_eq-ne s t h = elim (Bool-cases (text_eq s t)) [
  | inl e ↦ absurd (h (text_eq_sound s t e))
  | inr e ↦ e
]

pub text_lt_irrefl : (s : Text) → text_lt s s ≡ false
unfolding text_lt
text_lt_irrefl [] = refl
text_lt_irrefl (a ∷ s) = ground (arith, text_lt_irrefl s)

text_lt_trans : (s t u : Text) → text_lt s t ≡ true → text_lt t u ≡ true → text_lt s u ≡ true
unfolding text_lt
text_lt_trans [] [] u h k = cc
text_lt_trans [] (b ∷ t) [] h k = cc
text_lt_trans [] (b ∷ t) (c ∷ u) h k = refl
text_lt_trans (a ∷ s) [] u h k = cc
text_lt_trans (a ∷ s) (b ∷ t) [] h k = cc
text_lt_trans (a ∷ s) (b ∷ t) (c ∷ u) h k = ground (arith, text_lt_trans s t u)

-- The order of texts as a relation: `s` is not after `t`.
abbrev pub TextLe : Text → Text → Type 0
TextLe s t = text_lt t s ≡ false

pub TextLe-trans : (s t u : Text) → TextLe s t → TextLe t u → TextLe s u
unfolding text_lt
TextLe-trans [] t [] h k = refl
TextLe-trans [] t (c ∷ u) h k = refl
TextLe-trans (a ∷ s) [] u h k = cc
TextLe-trans (a ∷ s) (b ∷ t) [] h k = cc
TextLe-trans (a ∷ s) (b ∷ t) (c ∷ u) h k = ground (arith, TextLe-trans s t u)

pub TextLe-lt : (s t : Text) → text_lt s t ≡ true → TextLe s t
unfolding text_lt
TextLe-lt [] [] h = cc
TextLe-lt [] (b ∷ t) h = refl
TextLe-lt (a ∷ s) [] h = cc
TextLe-lt (a ∷ s) (b ∷ t) h = ground (arith, TextLe-lt s t)

pub text_lt-append : (p s t : Text) → text_lt (p ++ s) (p ++ t) ≡ text_lt s t
unfolding text_lt
text_lt-append [] s t = refl
text_lt-append (a ∷ p) s t = ground (arith, text_lt-append p s t)

-- The last decimal digit of a number, as a character.
abbrev pub digit : ℕ → ℕ
digit n = b'0' + n % 10

-- `%02d` and `%04d`, for numbers that fit.
abbrev pub pad2 : ℕ → Text
pad2 n = digit (n / 10) ∷ digit n ∷ []

abbrev pub pad4 : ℕ → Text
pad4 n = digit (n / 1000) ∷ digit (n / 100) ∷ digit (n / 10) ∷ digit n ∷ []

unfoldable pub decimal_from : ℕ → ℕ → Text → Text
decimal_from zero n out = out
decimal_from (suc fuel) n out =
    let more = decimal_from fuel (n / 10) (digit n ∷ out) in
    if ltb n 10 then digit n ∷ out else more

-- `%d`: `n + 1` rounds are enough, as each divides by ten.
unfoldable pub decimal : ℕ → Text
unfolding decimal_from
decimal n = decimal_from (n + 1) n []

decimal_test : decimal 120 ≡ codes "120"
unfolding decimal
decimal_test = refl

module _ (s t : Text) where
  pub pad2_lt : (m n : ℕ) → m < n → n < 100 → text_lt (pad2 m ++ s) (pad2 n ++ t) ≡ true
  unfolding text_lt
  pad2_lt m n h k = ground arith

  pub pad4_lt : (m n : ℕ) → m < n → n < 10000 → text_lt (pad4 m ++ s) (pad4 n ++ t) ≡ true
  unfolding text_lt
  pad4_lt m n h k = ground arith
