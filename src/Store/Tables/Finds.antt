-- ===== src/Store/Tables/Finds.antt =====
-- The row that a `:one` query finds after an update, a deletion or an insert.
use mathlib.Core.Option
use calendar_digest.Prelude.{
  Bool, true, false, if◌then◌else◌, List, [], ◌∷◌, ◌++◌, any, keep_if, none, some, ◌≡◌, refl, ◌∙◌,
  subst, inl, inr, arith, Bool-cases,
}
use calendar_digest.Store.Tables.{first_row, update_rows}

module _ {A : Type 0} (p : A → Bool) where
  pub first_row-update :
      (q : A → Bool) (f : A → A) (xs : List A)
      → ((x : A) → p (f x) ≡ p x)
      → first_row p (update_rows q f xs) ≡ Option.map (λ x. if q x then f x else x) (first_row p xs)
  first_row-update q f [] h = refl
  first_row-update q f (x ∷ xs) h = elim (Bool-cases (q x)) [
    | inl e ↦ elim (Bool-cases (p x)) [
      | inl k ↦ rw (e, h x, k) (rw e refl)
      | inr k ↦ rw (e, h x, k) (first_row-update q f xs h)
    ]
    | inr e ↦ elim (Bool-cases (p x)) [
      | inl k ↦ rw (e, k) (rw e refl)
      | inr k ↦ rw (e, k) (first_row-update q f xs h)
    ]
  ]

  -- A row that the test finds is kept or not as the test says of every such row.
  pub first_row-keep_if :
      (q : A → Bool) (b : Bool) (xs : List A)
      → ((x : A) → p x ≡ true → q x ≡ b)
      → first_row p (keep_if q xs) ≡ (if b then first_row p xs else none)
  first_row-keep_if q b [] h = ground arith
  first_row-keep_if q b (x ∷ xs) h = elim (Bool-cases (p x)) [
    | inr k ↦ elim (Bool-cases (q x)) [
      | inl e ↦ rw (e, k) (first_row-keep_if q b xs h)
      | inr e ↦ rw (e, k) (first_row-keep_if q b xs h)
    ]
    | inl k ↦
        let same = h x k in
        let rest = first_row-keep_if q b xs h in
        elim (Bool-cases b) [
          | inl e ↦ let yes_q : q x ≡ true = same ∙ e in rw (yes_q, k, e) refl
          | inr e ↦
              let no_q : q x ≡ false = same ∙ e in
              rw (no_q, k, e)
                (subst (λ c. first_row p (keep_if q xs) ≡ (if c then first_row p xs else none)) e
                  rest)
        ]
  ]

  pub first_row-snoc :
      (xs : List A) (y : A)
      → any p xs ≡ false
      → first_row p (xs ++ y ∷ []) ≡ (if p y then some y else first_row p xs)
  first_row-snoc [] y h = refl
  first_row-snoc (x ∷ xs) y h =
      let rest = first_row-snoc xs y (ground arith) in
      let off : p x ≡ false = ground arith in rw off rest

pub first_row-skip :
    {A : Type 0} (p : A → Bool) (xs : List A) (y : A)
    → p y ≡ false
    → first_row p (xs ++ y ∷ []) ≡ first_row p xs
first_row-skip p [] y h = ground arith
first_row-skip p (x ∷ xs) y h = rw (first_row-skip p xs y h) refl
