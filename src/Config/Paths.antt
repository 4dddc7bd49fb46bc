-- ===== src/Config/Paths.antt =====
-- The path of the dashboard: which paths `riverUIPathProblem` accepts.
use calendar_digest.Prelude.{
  true, false, List, [], ◌∷◌, ◌++◌, All, none, some, ◌≡◌, ◌≢◌, refl, sym, subst, ◌↔◌, inl, inr,
  arith, Bool-cases,
}
use calendar_digest.Prelude.Chars.{Text, codes, text_eq, text_eq_complete, text_eq-ne}
use calendar_digest.Prelude.Affixes.{
  has_prefix, has_suffix, has_prefix_append, has_prefix_sound, has_suffix_append, has_suffix_sound,
}
use calendar_digest.Config.{
  no_slash, root, trailing_slash, mounted, mounted_prefixes, is_under, under_mounted,
  river_ui_path_problem,
}

abbrev slash : Text
slash = codes "/"

-- The path is neither the mounted path nor one under it.
abbrev pub IsClear : Text → Text → Type 0
IsClear path prefix = (path ≢ prefix) × ((rest : Text) → path ≢ (prefix ++ slash) ++ rest)

-- A path the router can mount the dashboard at: it starts with a slash, has more than that, does
-- not end with one, and is clear of every mounted path.
pub record IsUsable (path : Text) : Type 0 where
  pub starts : (rest : Text) × (path ≡ slash ++ rest)
  pub below_root : path ≢ slash
  pub open_end : (front : Text) → path ≢ front ++ slash
  pub clear : All (IsClear path) mounted_prefixes

is_under-false : (path prefix : Text) → is_under path prefix ≡ false → IsClear path prefix
unfolding is_under
is_under-false path prefix h = (
  (λ e. let t = text_eq_complete path prefix e in ground arith),
  (λ rest. λ e.
      let t : has_prefix path (prefix ++ slash) ≡ true =
        subst (λ p. has_prefix p (prefix ++ slash) ≡ true) (sym e)
          (has_prefix_append (prefix ++ slash) rest) in
      ground arith),
)

is_under-IsClear : (path prefix : Text) → IsClear path prefix → is_under path prefix ≡ false
unfolding is_under
is_under-IsClear path prefix (ne, off) = elim (Bool-cases (has_prefix path (prefix ++ slash))) [
  | inl e ↦ let (rest, q) = has_prefix_sound path (prefix ++ slash) e in absurd (off rest q)
  | inr e ↦ rw (e, text_eq-ne path prefix ne) refl
]

under_mounted-IsClear :
    (path : Text) (prefixes : List Text)
    → under_mounted path prefixes ≡ none
    → All (IsClear path) prefixes
unfolding under_mounted
under_mounted-IsClear path [] h = tt
under_mounted-IsClear path (p ∷ ps) h = elim (Bool-cases (is_under path p)) [
  | inl e ↦ let bad : some (mounted p) ≡ none = ground (arith, e) in cc
  | inr e ↦ (is_under-false path p e, under_mounted-IsClear path ps (ground (arith, e)))
]

under_mounted-none :
    (path : Text) (prefixes : List Text)
    → All (IsClear path) prefixes
    → under_mounted path prefixes ≡ none
unfolding under_mounted
under_mounted-none path [] h = refl
under_mounted-none path (p ∷ ps) (hp, h) =
    rw (is_under-IsClear path p hp, under_mounted-none path ps h) refl

accepted-IsUsable : (path : Text) → river_ui_path_problem path ≡ none → IsUsable path
unfolding river_ui_path_problem
accepted-IsUsable path h = elim (Bool-cases (has_prefix path slash)) [
  | inr e ↦ let bad : some no_slash ≡ none = ground (arith, e) in cc
  | inl p ↦ elim (Bool-cases (text_eq path slash)) [
    | inl e ↦ let bad : some root ≡ none = ground (arith, e, p) in cc
    | inr r ↦ elim (Bool-cases (has_suffix path slash)) [
      | inl e ↦ let bad : some trailing_slash ≡ none = ground (arith, e, p, r) in cc
      | inr s ↦ record {
        starts = has_prefix_sound path slash p;
        below_root = λ e. let t = text_eq_complete path slash e in cc;
        open_end = λ front. λ e.
            let t : has_suffix path slash ≡ true =
              subst (λ x. has_suffix x slash ≡ true) (sym e) (has_suffix_append front slash) in
            cc;
        clear = under_mounted-IsClear path mounted_prefixes (ground (arith, s, p, r));
      }
    ]
  ]
]

-- `riverUIPathProblem` accepts exactly the paths that start with a slash, are not the root, do not
-- end with a slash, and are neither one of the six listed paths nor under one of them.
pub river_ui_path_problem-IsUsable :
    (path : Text) → (river_ui_path_problem path ≡ none) ↔ IsUsable path
unfolding river_ui_path_problem
river_ui_path_problem-IsUsable path = (
  accepted-IsUsable path,
  λ u.
      let (rest, e) = u.starts in
      let p : has_prefix path slash ≡ true =
        subst (λ x. has_prefix x slash ≡ true) (sym e) (has_prefix_append slash rest) in
      let s : has_suffix path slash ≡ false = elim (Bool-cases (has_suffix path slash)) [
        | inr f ↦ f
        | inl t ↦ let (front, q) = has_suffix_sound path slash t in absurd (u.open_end front q)
      ] in
      rw (p, text_eq-ne path slash u.below_root, s)
        (under_mounted-none path mounted_prefixes u.clear),
)
