-- ===== src/Prelude/Words.antt =====
-- Go's package `strings`, as far as the program uses it: `Split` by one character, `TrimSpace`,
-- `Fields`, `Join`, `TrimSuffix` by one character; texts are lists of code points.
use calendar_digest.Prelude.Lists.{All, any}
use calendar_digest.Prelude.Tests.{if◌then◌else◌, ◌==◌, leb, Bool-cases}
use calendar_digest.Prelude.Chars.{Text}
use Prim.Native.Nat.{ℕ}
use mathlib.Core.Bool.{Bool, true, false, ◌||◌, ◌&&◌}
use mathlib.Core.List.{List, [], ◌∷◌, ◌++◌}
use mathlib.Core.Logic.{inl, inr}
use mathlib.Core.Path.{◌≡◌, refl, ◌∙◌, ap}
use native.Mathlib.Omega.{arith}

-- `unicode.IsSpace`.
unfoldable pub is_space : ℕ → Bool
is_space c =
    (leb 9 c && leb c 13)
    || (c == 32)
    || (c == 0x85)
    || (c == 0xa0)
    || (c == 0x1680)
    || (leb 0x2000 c && leb c 0x200a)
    || (c == 0x2028)
    || (c == 0x2029)
    || (c == 0x202f)
    || (c == 0x205f)
    || (c == 0x3000)

abbrev pub is_empty : {A : Type 0} → List A → Bool
is_empty [] = true
is_empty (x ∷ xs) = false

pub both-empty :
    {A : Type 0} (xs ys : List A)
    → is_empty (xs ++ ys) ≡ true
    → (is_empty xs ≡ true) × (is_empty ys ≡ true)
both-empty [] ys h = (refl, h)
both-empty (x ∷ xs) ys h = cc

pub append-empty :
    {A : Type 0} (xs ys : List A)
    → is_empty xs ≡ true
    → is_empty ys ≡ true
    → is_empty (xs ++ ys) ≡ true
append-empty [] ys h k = k
append-empty (x ∷ xs) ys h k = cc

abbrev prepend : ℕ → List Text → List Text
prepend c [] = (c ∷ []) ∷ []
prepend c (p ∷ ps) = (c ∷ p) ∷ ps

unfoldable pub split_on : ℕ → Text → List Text
split_on sep [] = [] ∷ []
split_on sep (c ∷ s) = let rest = split_on sep s in if c == sep then [] ∷ rest else prepend c rest

unfoldable pub trim_left : Text → Text
trim_left [] = []
trim_left (c ∷ s) = let rest = trim_left s in if is_space c then rest else c ∷ s

unfoldable pub trim_right : Text → Text
trim_right [] = []
trim_right (c ∷ s) = let rest = trim_right s in if is_empty rest && is_space c then [] else c ∷ rest

unfoldable pub trim_space : Text → Text
trim_space s = trim_right (trim_left s)

-- The words so far, and the characters of the one that is being read.
unfoldable pub fields_from : Text → Text → List Text
fields_from word [] = if is_empty word then [] else word ∷ []
fields_from word (c ∷ s) =
    let next = fields_from [] s in
    let longer = fields_from (word ++ c ∷ []) s in
    if is_space c then (if is_empty word then next else word ∷ next) else longer

unfoldable pub fields : Text → List Text
fields s = fields_from [] s

unfoldable pub join : Text → List Text → Text
join sep [] = []
join sep (p ∷ []) = p
join sep (p ∷ q ∷ ps) = p ++ (sep ++ join sep (q ∷ ps))

unfoldable pub trim_suffix : ℕ → Text → Text
trim_suffix c [] = []
trim_suffix c (a ∷ []) = if a == c then [] else a ∷ []
trim_suffix c (a ∷ b ∷ s) = a ∷ trim_suffix c (b ∷ s)

-- A text is trimmed if trimming leaves it alone.
abbrev pub IsTrimmed : Text → Type 0
IsTrimmed s = trim_space s ≡ s

trim_left_head : (s : Text) → trim_left (trim_right (trim_left s)) ≡ trim_right (trim_left s)
unfolding trim_left trim_right
trim_left_head [] = refl
trim_left_head (c ∷ s) = ground (arith, trim_left_head s)

trim_right_idem : (s : Text) → trim_right (trim_right s) ≡ trim_right s
unfolding trim_right
trim_right_idem [] = refl
trim_right_idem (c ∷ s) = ground (arith, trim_right_idem s)

pub trim_space_idem : (s : Text) → IsTrimmed (trim_space s)
unfolding trim_space
trim_space_idem s = ap trim_right (trim_left_head s) ∙ trim_right_idem (trim_left s)

-- No character is the separator.
abbrev pub Lacks : ℕ → Text → Type 0
Lacks c s = any (λ a. a == c) s ≡ false

Lacks-trim_left : (c : ℕ) (s : Text) → Lacks c s → Lacks c (trim_left s)
unfolding trim_left
Lacks-trim_left c [] h = h
Lacks-trim_left c (a ∷ s) h = ground (arith, Lacks-trim_left c s)

Lacks-trim_right : (c : ℕ) (s : Text) → Lacks c s → Lacks c (trim_right s)
unfolding trim_right
Lacks-trim_right c [] h = h
Lacks-trim_right c (a ∷ s) h = ground (arith, Lacks-trim_right c s)

pub Lacks-trim_space : (c : ℕ) (s : Text) → Lacks c s → Lacks c (trim_space s)
unfolding trim_space
Lacks-trim_space c s h = Lacks-trim_right c (trim_left s) (Lacks-trim_left c s h)

All-prepend :
    (sep c : ℕ) (ps : List Text)
    → (c == sep) ≡ false
    → All (Lacks sep) ps
    → All (Lacks sep) (prepend c ps)
All-prepend sep c [] h k = (ground arith, tt)
All-prepend sep c (p ∷ ps) h (kp, k) = (ground arith, k)

-- The parts of a text hold no separator.
pub split_on-Lacks : (sep : ℕ) (s : Text) → All (Lacks sep) (split_on sep s)
unfolding split_on
split_on-Lacks sep [] = (refl, tt)
split_on-Lacks sep (c ∷ s) = elim (Bool-cases (c == sep)) [
  | inl e ↦ rw e (refl, split_on-Lacks sep s)
  | inr e ↦ rw e (All-prepend sep c (split_on sep s) e (split_on-Lacks sep s))
]

split_one : (sep : ℕ) (p : Text) → Lacks sep p → split_on sep p ≡ p ∷ []
unfolding split_on
split_one sep [] h = refl
split_one sep (c ∷ p) h = ground (arith, split_one sep p)

split_first :
    (sep : ℕ) (p s : Text) → Lacks sep p → split_on sep (p ++ sep ∷ s) ≡ p ∷ split_on sep s
unfolding split_on
split_first sep [] s h = ground arith
split_first sep (c ∷ p) s h = ground (arith, split_first sep p s)

-- Splitting undoes joining, for parts without the separator.
pub split_on-join :
    (sep : ℕ) (p : Text) (ps : List Text)
    → All (Lacks sep) (p ∷ ps)
    → split_on sep (join (sep ∷ []) (p ∷ ps)) ≡ p ∷ ps
unfolding join
split_on-join sep p [] (h, _) = split_one sep p h
split_on-join sep p (q ∷ ps) (h, k) =
    split_first sep p (join (sep ∷ []) (q ∷ ps)) h ∙ ap (λ r. p ∷ r) (split_on-join sep q ps k)
