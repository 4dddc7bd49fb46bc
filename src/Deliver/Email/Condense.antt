-- ===== src/Deliver/Email/Condense.antt =====
-- `condense` returns one line of bounded length.
use calendar_digest.Prelude.{
  ℕ, zero, suc, ◌+◌, ◌≤◌, ltb, false, List, [], ◌∷◌, ◌&&◌, length, length-append, take, All,
  All-append, ◌≡◌, refl, ◌⊎◌, inl, inr, arith, Bool-cases,
}
use calendar_digest.Prelude.Chars.{Text, codes}
use calendar_digest.Prelude.Words.{
  is_space, is_empty, trim_left, trim_right, trim_space, fields, join,
}
use calendar_digest.Prelude.Fields.{one_space, IsWord, All-join, fields-IsWord}
use calendar_digest.Deliver.Email.{condense}

-- No character but the blank is white space.
abbrev pub HasOnlyBlanks : Text → Type 0
HasOnlyBlanks = All (λ c. (is_space c ≡ false) ⊎ (c ≡ b' '))

module _ (P : ℕ → Type 0) where
  All-take : (n : ℕ) (s : Text) → All P s → All P (take n s)
  All-take zero s h = tt
  All-take (suc n) [] h = tt
  All-take (suc n) (c ∷ s) (hc, h) = (hc, All-take n s h)

  All-trim_left : (s : Text) → All P s → All P (trim_left s)
  unfolding trim_left
  All-trim_left [] h = tt
  All-trim_left (c ∷ s) (hc, h) = elim (Bool-cases (is_space c)) [
    | inl e ↦ rw e (All-trim_left s h)
    | inr e ↦ rw e (hc, h)
  ]

  All-trim_right : (s : Text) → All P s → All P (trim_right s)
  unfolding trim_right
  All-trim_right [] h = tt
  All-trim_right (c ∷ s) (hc, h) = elim (Bool-cases (is_empty (trim_right s) && is_space c)) [
    | inl e ↦ rw e tt
    | inr e ↦ rw e (hc, All-trim_right s h)
  ]

length-take : (n : ℕ) (s : Text) → length (take n s) ≤ n
length-take zero s = omega arith
length-take (suc n) [] = omega arith
length-take (suc n) (c ∷ s) = omega (arith, length-take n s)

length-trim_left : (s : Text) → length (trim_left s) ≤ length s
unfolding trim_left
length-trim_left [] = omega arith
length-trim_left (c ∷ s) = ground (arith, length-trim_left s)

length-trim_right : (s : Text) → length (trim_right s) ≤ length s
unfolding trim_right
length-trim_right [] = omega arith
length-trim_right (c ∷ s) = ground (arith, length-trim_right s)

words-HasOnlyBlanks : (ws : List Text) → All IsWord ws → All HasOnlyBlanks ws
words-HasOnlyBlanks [] h = tt
words-HasOnlyBlanks (w ∷ ws) ((ne, h), k) = (word w h, words-HasOnlyBlanks ws k)
  where
    word : (v : Text) → All (λ c. is_space c ≡ false) v → HasOnlyBlanks v
    word [] q = tt
    word (c ∷ v) (qc, q) = (inl qc, word v q)

line-HasOnlyBlanks : (s : Text) → HasOnlyBlanks (join one_space (fields s))
line-HasOnlyBlanks s =
    All-join (λ c. (is_space c ≡ false) ⊎ (c ≡ b' ')) (fields s) (inr refl)
      (words-HasOnlyBlanks (fields s) (fields-IsWord s))

ellipsis : is_space 0x2026 ≡ false
unfolding is_space
ellipsis = refl

-- A condensed text has at most `limit` characters and an ellipsis, and is one line: its only white
-- space is the blank.
pub condense_lem :
    (s : Text) (limit : ℕ)
    → (length (condense s limit) ≤ limit + 1) × HasOnlyBlanks (condense s limit)
unfolding condense trim_space
condense_lem s limit =
    let line = join one_space (fields s) in
    let cut = trim_left (take limit line) in
    elim (Bool-cases (ltb limit (length line))) [
      | inr e ↦ rw e (ground arith, line-HasOnlyBlanks s)
      | inl e ↦ rw e (
        omega (
          arith,
          length-append (trim_right cut) (codes "…"),
          length-trim_right cut,
          length-trim_left (take limit line),
          length-take limit line,
        ),
        All-append (λ c. (is_space c ≡ false) ⊎ (c ≡ b' ')) (trim_right cut) (codes "…")
            (All-trim_right _ cut
              (All-trim_left _ (take limit line) (All-take _ limit line (line-HasOnlyBlanks s))))
            (inl ellipsis, tt),
      )
    ]
