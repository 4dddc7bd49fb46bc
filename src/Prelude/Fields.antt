-- ===== src/Prelude/Fields.antt =====
-- `strings.Fields` and `strings.Join` by one space: a text made one line.
use calendar_digest.Prelude.Lists.{All, All-append}
use calendar_digest.Prelude.Tests.{Bool-cases}
use calendar_digest.Prelude.Chars.{Text}
use calendar_digest.Prelude.Words.{is_space, is_empty, fields_from, fields, join}
use Prim.Native.Nat.{ℕ}
use mathlib.Core.Bool.{false}
use mathlib.Core.List.{List, [], ◌∷◌, ◌++◌, append-nil, append_assoc}
use mathlib.Core.Logic.{inl, inr}
use mathlib.Core.Path.{◌≡◌, refl, sym, ◌∙◌, ap}
use native.Mathlib.Omega.{arith}

abbrev pub one_space : Text
one_space = b' ' ∷ []

-- A word: not empty, and without white space.
abbrev pub IsWord : Text → Type 0
IsWord w = (is_empty w ≡ false) × All (λ c. is_space c ≡ false) w

module _ (P : ℕ → Type 0) where
  -- A word is read so far: every character of it has the property.
  All-fields_from : (word s : Text) → All P word → All P s → All (All P) (fields_from word s)
  unfolding fields_from
  All-fields_from word [] hw hs = ground arith
  All-fields_from word (c ∷ s) hw (hc, hs) =
      let next = All-fields_from [] s tt hs in
      let longer = All-fields_from (word ++ c ∷ []) s (All-append P word (c ∷ []) hw (hc, tt)) hs in
      elim (Bool-cases (is_space c)) [
        | inr e ↦ rw e longer
        | inl e ↦ elim (Bool-cases (is_empty word)) [
          | inl f ↦ rw (e, f) next
          | inr f ↦ rw (e, f) (hw, next)
        ]
      ]

  -- The characters of the words are those of the text.
  pub All-fields : (s : Text) → All P s → All (All P) (fields s)
  unfolding fields
  All-fields s h = All-fields_from [] s tt h

  pub All-join : (ws : List Text) → P b' ' → All (All P) ws → All P (join one_space ws)
  unfolding join
  All-join [] hs h = tt
  All-join (w ∷ []) hs (h, _) = h
  All-join (w ∷ v ∷ ws) hs (h, k) =
      All-append P w (b' ' ∷ join one_space (v ∷ ws)) h (hs, All-join (v ∷ ws) hs k)

nonempty_append : (s : Text) (c : ℕ) (t : Text) → is_empty (s ++ c ∷ t) ≡ false
nonempty_append [] c t = refl
nonempty_append (a ∷ s) c t = refl

fields_from-IsWord :
    (word s : Text) → All (λ c. is_space c ≡ false) word → All IsWord (fields_from word s)
unfolding fields_from
fields_from-IsWord word [] h = ground arith
fields_from-IsWord word (c ∷ s) h =
    let next = fields_from-IsWord [] s tt in
    elim (Bool-cases (is_space c)) [
      | inr e ↦ rw e (
          fields_from-IsWord (word ++ c ∷ []) s
            (All-append (λ a. is_space a ≡ false) word (c ∷ []) h (e, tt)))
      | inl e ↦ elim (Bool-cases (is_empty word)) [
        | inl f ↦ rw (e, f) next
        | inr f ↦ rw (e, f) ((f, h), next)
      ]
    ]

pub fields-IsWord : (s : Text) → All IsWord (fields s)
unfolding fields
fields-IsWord s = fields_from-IsWord [] s tt

-- A word is read to its end.
read_word :
    (word w rest : Text)
    → All (λ c. is_space c ≡ false) w
    → fields_from word (w ++ rest) ≡ fields_from (word ++ w) rest
unfolding fields_from
read_word word [] rest h = ap (λ x. fields_from x rest) (sym (append-nil word))
read_word word (c ∷ w) rest (hc, h) = rw hc (
    read_word (word ++ c ∷ []) w rest h
    ∙ ap (λ x. fields_from x rest) (append_assoc word (c ∷ []) w))

-- Words that are joined by spaces are read back.
pub fields-join : (ws : List Text) → All IsWord ws → fields (join one_space ws) ≡ ws
unfolding fields join fields_from is_space
fields-join [] h = refl
fields-join (w ∷ []) ((ne, hw), _) =
    ap (fields_from []) (sym (append-nil w)) ∙ read_word [] w [] hw ∙ rw ne refl
fields-join (w ∷ v ∷ ws) ((ne, hw), h) =
    read_word [] w (b' ' ∷ join one_space (v ∷ ws)) hw
    ∙ rw ne (ap (λ x. w ∷ x) (fields-join (v ∷ ws) h))

pub join-is_empty : (ws : List Text) → All IsWord ws → is_empty (join one_space ws) ≡ is_empty ws
unfolding join
join-is_empty [] h = refl
join-is_empty ([] ∷ ws) ((ne, hw), h) = cc
join-is_empty ((c ∷ w) ∷ []) h = refl
join-is_empty ((c ∷ w) ∷ v ∷ ws) h = refl
