-- ===== src/Prelude/Affixes.antt =====
-- Go's `strings.HasPrefix` and `strings.HasSuffix`.
use calendar_digest.Prelude.Tests.{◌==◌, Bool-cases}
use calendar_digest.Prelude.Chars.{Text, text_eq, text_eq_refl, text_eq_sound}
use mathlib.Core.Bool.{Bool, true, false, ◌&&◌, ◌||◌}
use mathlib.Core.List.{[], ◌∷◌, ◌++◌}
use mathlib.Core.Logic.{inl, inr}
use mathlib.Core.Path.{◌≡◌, refl, ap}
use native.Mathlib.Omega.{arith}

unfoldable pub has_prefix : Text → Text → Bool
has_prefix s [] = true
has_prefix [] (b ∷ t) = false
has_prefix (a ∷ s) (b ∷ t) = (a == b) && has_prefix s t

unfoldable pub has_suffix : Text → Text → Bool
has_suffix [] t = text_eq [] t
has_suffix (a ∷ s) t = text_eq (a ∷ s) t || has_suffix s t

pub has_prefix_append : (t s : Text) → has_prefix (t ++ s) t ≡ true
unfolding has_prefix
has_prefix_append [] s = refl
has_prefix_append (b ∷ t) s = ground (arith, has_prefix_append t s)

pub has_prefix_sound : (s t : Text) → has_prefix s t ≡ true → (rest : Text) × (s ≡ t ++ rest)
unfolding has_prefix
has_prefix_sound s [] h = (s, refl)
has_prefix_sound [] (b ∷ t) h = cc
has_prefix_sound (a ∷ s) (b ∷ t) h =
    let same : a ≡ b = ground arith in
    let (rest, e) = has_prefix_sound s t (ground arith) in (rest, cc)

pub has_suffix_append : (s t : Text) → has_suffix (s ++ t) t ≡ true
unfolding has_suffix
has_suffix_append [] [] = text_eq_refl []
has_suffix_append [] (a ∷ t) = rw (text_eq_refl (a ∷ t)) refl
has_suffix_append (a ∷ s) t = rw (has_suffix_append s t) (ground arith)

pub has_suffix_sound : (s t : Text) → has_suffix s t ≡ true → (front : Text) × (s ≡ front ++ t)
unfolding has_suffix
has_suffix_sound [] t h = ([], text_eq_sound [] t h)
has_suffix_sound (a ∷ s) t h = elim (Bool-cases (text_eq (a ∷ s) t)) [
  | inl e ↦ ([], text_eq_sound (a ∷ s) t e)
  | inr e ↦ let (front, q) = has_suffix_sound s t (ground arith) in (a ∷ front, ap (λ x. a ∷ x) q)
]
