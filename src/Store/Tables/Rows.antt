-- ===== src/Store/Tables/Rows.antt =====
-- Laws of the row operations: finding, distinctness, updates and row counts.
use calendar_digest.Prelude.{
  ℕ, ◌≤◌, ◌<◌, ◌==◌, Bool, true, false, ◌||◌, if◌then◌else◌, List, [], ◌∷◌, ◌++◌, some, keep_if,
  any, any-In, All, In, ◌≡◌, refl, sym, subst, none, arith, Bool-cases, inl, inr,
}
use mathlib.Core.Option.{some-injective}
use calendar_digest.Store.Tables.{next_id, first_row, update_rows, count_rows}

module _ {A : Type 0} (p : A → Bool) where
  pub first_row-some :
      (xs : List A) (a : A) → first_row p xs ≡ some a → (any p xs ≡ true) × (p a ≡ true)
  first_row-some [] a h = cc
  first_row-some (x ∷ xs) a h = ground (arith, first_row-some xs a)

  pub first_row-any :
      (xs : List A) → any p xs ≡ true → (a : A) × (first_row p xs ≡ some a) × (p a ≡ true)
  first_row-any [] h = cc
  first_row-any (x ∷ xs) h = elim (Bool-cases (p x)) [
    | inl e ↦ (x, rw e, e)
    | inr e ↦ let (a, f, q) = first_row-any xs (rw e at h) in (a, rw e f, q)
  ]

  pub first_row-none : (xs : List A) → any p xs ≡ false → first_row p xs ≡ none
  first_row-none [] h = refl
  first_row-none (x ∷ xs) h = ground (arith, first_row-none xs)

  pub first_row-In : (xs : List A) (a : A) → first_row p xs ≡ some a → In a xs
  first_row-In [] a h = cc
  first_row-In (x ∷ xs) a h = elim (Bool-cases (p x)) [
    | inl e ↦ inl (sym (some-injective x a (rw e at h)))
    | inr e ↦ inr (first_row-In xs a (rw e at h))
  ]

  pub first_row-append :
      (xs : List A) (y : A) → any p xs ≡ false → p y ≡ true → first_row p (xs ++ y ∷ []) ≡ some y
  first_row-append [] y h k = ground arith
  first_row-append (x ∷ xs) y h k = ground (arith, first_row-append xs y)

  pub any-append : (xs : List A) (y : A) → any p (xs ++ y ∷ []) ≡ (any p xs || p y)
  any-append [] y = ground arith
  any-append (x ∷ xs) y = ground (arith, any-append xs y)

  pub any-keep_if : (q : A → Bool) (xs : List A) → any p xs ≡ false → any p (keep_if q xs) ≡ false
  any-keep_if q [] h = h
  any-keep_if q (x ∷ xs) h = ground (arith, any-keep_if q xs)

  pub any-update_rows :
      (q : A → Bool) (f : A → A) (xs : List A)
      → ((x : A) → p (f x) ≡ p x)
      → any p (update_rows q f xs) ≡ any p xs
  any-update_rows q f [] h = refl
  any-update_rows q f (x ∷ xs) h = ground (arith, h x, any-update_rows q f xs h)

  pub count_rows-zero : (xs : List A) → any p xs ≡ false → count_rows p xs ≡ 0
  count_rows-zero [] h = refl
  count_rows-zero (x ∷ xs) h = ground (arith, count_rows-zero xs)

  pub update_rows-none : (f : A → A) (xs : List A) → any p xs ≡ false → update_rows p f xs ≡ xs
  update_rows-none f [] h = refl
  update_rows-none f (x ∷ xs) h = ground (arith, update_rows-none f xs)

-- No two rows are the same by a test.
module _ {A : Type 0} (same : A → A → Bool) where
  abbrev pub Distinct : List A → Type 0
  Distinct [] = Unit
  Distinct (x ∷ xs) = (any (same x) xs ≡ false) × Distinct xs

module _ {A : Type 0} (same : A → A → Bool) where
  pub Distinct-append :
      (xs : List A) (y : A)
      → Distinct same xs
      → any (λ x. same x y) xs ≡ false
      → Distinct same (xs ++ y ∷ [])
  Distinct-append [] y h k = (refl, tt)
  Distinct-append (x ∷ xs) y (hx, h) k =
      (ground (arith, any-append (same x) xs y), Distinct-append xs y h (ground arith))

  -- Of distinct rows, a listed one is the first that is the same as it.
  pub Distinct-first_row :
      (x : A) (xs : List A)
      → same x x ≡ true
      → Distinct same xs
      → In x xs
      → first_row (λ y. same y x) xs ≡ some x
  Distinct-first_row x [] r h m = absurd m
  Distinct-first_row x (y ∷ ys) r (off, h) (inl e) =
      subst (λ z. first_row (λ w. same w x) (z ∷ ys) ≡ some x) e (rw r refl)
  Distinct-first_row x (y ∷ ys) r (off, h) (inr m) = elim (Bool-cases (same y x)) [
    | inl e ↦ let bad = any-In (same y) x ys m e in cc
    | inr e ↦ rw e (Distinct-first_row x ys r h m)
  ]

  pub Distinct-keep_if :
      (q : A → Bool) (xs : List A) → Distinct same xs → Distinct same (keep_if q xs)
  Distinct-keep_if q [] h = tt
  Distinct-keep_if q (x ∷ xs) (hx, h) = elim (Bool-cases (q x)) [
    | inl e ↦ rw e (any-keep_if (same x) q xs hx, Distinct-keep_if q xs h)
    | inr e ↦ rw e (Distinct-keep_if q xs h)
  ]

  pub Distinct-update_rows :
      (q : A → Bool) (f : A → A) (xs : List A)
      → ((x y : A) → same (f x) y ≡ same x y)
      → ((x y : A) → same x (f y) ≡ same x y)
      → Distinct same xs
      → Distinct same (update_rows q f xs)
  Distinct-update_rows q f [] l r h = tt
  Distinct-update_rows q f (x ∷ xs) l r (hx, h) = (head_distinct, Distinct-update_rows q f xs l r h)
    where
      tail_same : any (same x) (update_rows q f xs) ≡ false
      tail_same = rw (any-update_rows (same x) q f xs (r x)) hx

      moved : (zs : List A) → any (same (f x)) zs ≡ any (same x) zs
      moved [] = refl
      moved (z ∷ zs) = rw (l x z, moved zs)

      head_distinct : any (same (if q x then f x else x)) (update_rows q f xs) ≡ false
      head_distinct = elim (Bool-cases (q x)) [
        | inl e ↦ rw (e, moved (update_rows q f xs)) tail_same
        | inr e ↦ rw e tail_same
      ]

module _ {A : Type 0} (id : A → ℕ) where
  below_next : (xs : List A) → All (λ x. id x < next_id id xs) xs
  below_next [] = tt
  below_next (x ∷ xs) = (ground arith, raise xs (next_id id xs) _ (below_next xs) (ground arith))
    where
      raise : (ys : List A) (m n : ℕ) → All (λ y. id y < m) ys → m ≤ n → All (λ y. id y < n) ys
      raise [] m n h le = tt
      raise (y ∷ ys) m n (hy, h) le = (omega arith, raise ys m n h le)

  fresh_above : (xs : List A) (n : ℕ) → All (λ x. id x < n) xs → any (λ x. id x == n) xs ≡ false
  fresh_above [] n h = refl
  fresh_above (x ∷ xs) n (hx, h) = ground (arith, fresh_above xs n h)

  -- No row has the next id.
  pub next_id-fresh : (xs : List A) → any (λ x. id x == next_id id xs) xs ≡ false
  next_id-fresh xs = fresh_above xs (next_id id xs) (below_next xs)
