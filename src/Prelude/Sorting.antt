-- ===== src/Prelude/Sorting.antt =====
-- A stable sort by a test `before`, for `ORDER BY` and `sort.SliceStable`: from the back, each
-- value goes behind those that are before it, and so in front of those that it ties with.
use Prim.Native.Nat.{suc}
use mathlib.Core.Bool.{Bool, ◌||◌}
use mathlib.Core.List.{List, [], ◌∷◌}
use mathlib.Core.Logic.{◌⊎◌, inl, inr}
use mathlib.Core.Path.{◌≡◌, refl, ◌∙◌, ap}
use native.Mathlib.Omega.{arith}
use calendar_digest.Prelude.Lists.{In, any, length}
use calendar_digest.Prelude.Tests.{if◌then◌else◌}

module _ {A : Type 0} (before : A → A → Bool) where
  insert_sorted : A → List A → List A
  insert_sorted x [] = x ∷ []
  insert_sorted x (y ∷ ys) =
      let rest = insert_sorted x ys in if before y x then y ∷ rest else x ∷ y ∷ ys

  unfoldable pub sort_by : List A → List A
  unfolding insert_sorted
  sort_by [] = []
  sort_by (x ∷ xs) = insert_sorted x (sort_by xs)

  length-insert_sorted : (x : A) (xs : List A) → length (insert_sorted x xs) ≡ suc (length xs)
  unfolding insert_sorted
  length-insert_sorted x [] = refl
  length-insert_sorted x (y ∷ ys) = ground (arith, length-insert_sorted x ys)

  any-insert_sorted :
      (p : A → Bool) (x : A) (xs : List A) → any p (insert_sorted x xs) ≡ (p x || any p xs)
  unfolding insert_sorted
  any-insert_sorted p x [] = refl
  any-insert_sorted p x (y ∷ ys) = ground (arith, any-insert_sorted p x ys)

  In-insert_sorted : (a x : A) (xs : List A) → In a (insert_sorted x xs) → (a ≡ x) ⊎ In a xs
  unfolding insert_sorted
  In-insert_sorted a x [] m = m
  In-insert_sorted a x (y ∷ ys) m = ground (arith, In-insert_sorted a x ys)

  insert_sorted-In : (a x : A) (xs : List A) → (a ≡ x) ⊎ In a xs → In a (insert_sorted x xs)
  unfolding insert_sorted
  insert_sorted-In a x [] m = m
  insert_sorted-In a x (y ∷ ys) m = ground (arith, insert_sorted-In a x ys)

module _ {A : Type 0} (before : A → A → Bool) where
  pub length-sort_by : (xs : List A) → length (sort_by before xs) ≡ length xs
  unfolding sort_by
  length-sort_by [] = refl
  length-sort_by (x ∷ xs) =
      length-insert_sorted before x (sort_by before xs) ∙ ap suc (length-sort_by xs)

  -- Sorting changes no test of whether some value passes.
  pub any-sort_by : (p : A → Bool) (xs : List A) → any p (sort_by before xs) ≡ any p xs
  unfolding sort_by
  any-sort_by p [] = refl
  any-sort_by p (x ∷ xs) =
      any-insert_sorted before p x (sort_by before xs) ∙ ap (λ b. p x || b) (any-sort_by p xs)

  pub In-sort_by-elim : (a : A) (xs : List A) → In a (sort_by before xs) → In a xs
  unfolding sort_by
  In-sort_by-elim a [] m = m
  In-sort_by-elim a (x ∷ xs) m = elim (In-insert_sorted before a x (sort_by before xs) m) [
    | inl e ↦ inl e
    | inr r ↦ inr (In-sort_by-elim a xs r)
  ]

  pub In-sort_by-intro : (a : A) (xs : List A) → In a xs → In a (sort_by before xs)
  unfolding sort_by
  In-sort_by-intro a [] m = m
  In-sort_by-intro a (x ∷ xs) (inl e) = insert_sorted-In before a x (sort_by before xs) (inl e)
  In-sort_by-intro a (x ∷ xs) (inr m) =
      insert_sorted-In before a x (sort_by before xs) (inr (In-sort_by-intro a xs m))
