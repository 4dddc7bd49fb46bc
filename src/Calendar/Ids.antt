-- ===== src/Calendar/Ids.antt =====
-- internal/calendar/calendar.go, `IDs`: the calendars of a recipient.
use calendar_digest.Prelude.{
  false, if◌then◌else◌, List, [], ◌∷◌, ◌≡◌, refl, ap, ◌∙◌, All, Bool-cases, inl, inr,
}
use calendar_digest.Prelude.Chars.{Text, codes}
use calendar_digest.Prelude.Words.{
  split_on, trim_space, join, is_empty, is_space, trim_left, trim_right, IsTrimmed, trim_space_idem,
  Lacks, Lacks-trim_space, split_on-Lacks, split_on-join,
}

keep_ids : List Text → List Text
keep_ids [] = []
keep_ids (part ∷ parts) =
    let rest = keep_ids parts in if is_empty (trim_space part) then rest else trim_space part ∷ rest

unfoldable pub ids : Text → List Text
unfolding keep_ids
ids value = keep_ids (split_on b',' value)

-- A calendar ID: a text that is not empty, has no space at its ends and no comma.
abbrev pub IsId : Text → Type 0
IsId s = (is_empty s ≡ false) × IsTrimmed s × Lacks b',' s

keep_ids-IsId : (parts : List Text) → All (Lacks b',') parts → All IsId (keep_ids parts)
unfolding keep_ids
keep_ids-IsId [] h = tt
keep_ids-IsId (p ∷ ps) (hp, h) = elim (Bool-cases (is_empty (trim_space p))) [
  | inl e ↦ rw e (keep_ids-IsId ps h)
  | inr e ↦ rw e ((e, trim_space_idem p, Lacks-trim_space b',' p hp), keep_ids-IsId ps h)
]

keep_ids-All : (xs : List Text) → All IsId xs → keep_ids xs ≡ xs
unfolding keep_ids
keep_ids-All [] h = refl
keep_ids-All (x ∷ xs) ((ne, trimmed, lacks), h) = rw (trimmed, ne, keep_ids-All xs h)

-- Whatever is stored, `IDs` returns only calendar IDs.
ids-IsId : (value : Text) → All IsId (ids value)
unfolding ids
ids-IsId value = keep_ids-IsId (split_on b',' value) (split_on-Lacks b',' value)

IsId-Lacks : (xs : List Text) → All IsId xs → All (Lacks b',') xs
IsId-Lacks [] h = tt
IsId-Lacks (x ∷ xs) ((ne, trimmed, lacks), h) = (lacks, IsId-Lacks xs h)

-- One or more calendar IDs joined by commas are read back, in their order.
pub ids-join :
    (x : Text) (xs : List Text) → All IsId (x ∷ xs) → ids (join (b',' ∷ []) (x ∷ xs)) ≡ x ∷ xs
unfolding ids
ids-join x xs h =
    ap keep_ids (split_on-join b',' x xs (IsId-Lacks (x ∷ xs) h)) ∙ keep_ids-All (x ∷ xs) h

ids_test : ids (codes " a@x ,b@y,") ≡ codes "a@x" ∷ codes "b@y" ∷ []
unfolding ids split_on trim_space trim_left trim_right is_space
ids_test = refl
