-- ===== src/Version.antt =====
-- internal/version/version.go. The injected values and the build information are parameters; a
-- revision is hexadecimal, so its bytes are its code points.
use calendar_digest.Prelude.{
  ℕ, zero, suc, ◌≤◌, ltb, Bool, true, false, if◌then◌else◌, List, [], ◌∷◌, ◌++◌, length, take,
  Option, none, some, ◌≡◌, refl, arith, length-append, Bool-cases, inl, inr,
}
use calendar_digest.Prelude.Chars.{Text, codes, text_eq}
use calendar_digest.Prelude.Words.{is_empty}

abbrev pub unavailable : Text
unavailable = codes "unavailable"

abbrev pub revision_length : ℕ
revision_length = 12

-- One setting of the build, over what was found before.
unfoldable pub read_setting : Text × Text → Text × Bool → Text × Bool
read_setting (key, value) found =
    if text_eq key (codes "vcs.revision")
    then (value, found.1)
    else if text_eq key (codes "vcs.modified")
    then (found.0, text_eq value (codes "true"))
    else found

unfoldable pub read_settings : List (Text × Text) → Text × Bool → Text × Bool
read_settings [] found = found
read_settings (s ∷ settings) found = read_settings settings (read_setting s found)

unfoldable pub from_build_info : Option (List (Text × Text)) → Text × Bool
from_build_info none = ([], false)
from_build_info (some settings) = read_settings settings ([], false)

-- What `Get` makes of a revision.
unfoldable pub named : Text × Bool → Text
named r =
    if is_empty r.0
    then unavailable
    else let short = if ltb revision_length (length r.0) then take revision_length r.0 else r.0 in
      if r.1 then short ++ codes "-dirty" else short

-- `Get`, with the injected version and revision.
unfoldable pub get : Text → Text → Option (List (Text × Text)) → Text
get version revision info =
    if is_empty version
    then named (if is_empty revision then from_build_info info else (revision, false))
    else version

length-take : (n : ℕ) (s : Text) → length (take n s) ≤ n
length-take zero s = omega arith
length-take (suc n) [] = omega arith
length-take (suc n) (x ∷ s) = omega (arith, length-take n s)

-- A revision as it is shown, at most 12 characters of it.
abbrev short : Text → Text
short s = if ltb revision_length (length s) then take revision_length s else s

short_bounds :
    (x : ℕ) (s : Text) → (is_empty (short (x ∷ s)) ≡ false) × (length (short (x ∷ s)) ≤ 12)
short_bounds x s = elim (Bool-cases (ltb revision_length (length (x ∷ s)))) [
  | inl long ↦ rw long (refl, length-take 12 (x ∷ s))
  | inr fits ↦ rw fits (refl, ground (arith, fits))
]

named_bounds :
    (s : Text) (modified : Bool)
    → (is_empty (named (s, modified)) ≡ false) × (length (named (s, modified)) ≤ 18)
unfolding named
named_bounds [] modified = (refl, omega arith)
named_bounds (x ∷ s) false = let (full, fits) = short_bounds x s in (full, omega arith)
named_bounds (x ∷ s) true =
    let (full, fits) = short_bounds x s in
    (
      not_empty (short (x ∷ s)) (codes "-dirty") full,
      omega (arith, length-append (short (x ∷ s)) (codes "-dirty")),
    )
  where
    not_empty : (s t : Text) → is_empty s ≡ false → is_empty (s ++ t) ≡ false
    not_empty [] t h = cc
    not_empty (y ∷ s) t h = refl

-- Where no version was injected, what is shown is not empty and has 18 characters at most.
pub get_bounds :
    (revision : Text) (info : Option (List (Text × Text)))
    → (is_empty (get [] revision info) ≡ false) × (length (get [] revision info) ≤ 18)
unfolding get
get_bounds revision info = elim (Bool-cases (is_empty revision)) [
  | inl e ↦ rw e (named_bounds (from_build_info info).0 (from_build_info info).1)
  | inr e ↦ rw e (named_bounds revision false)
]
