-- ===== src/Server/Guards.antt =====
-- What the check of the origin keeps out.
use calendar_digest.Prelude.{
  Bool, true, false, any, List, [], ◌∷◌, In, some, ◌≡◌, ◌≢◌, refl, ap, ◌∙◌, ◌↔◌, ◌⊎◌, inl, inr,
  arith, Bool-cases, Option-cases,
}
use calendar_digest.Prelude.Chars.{Text, codes, text_eq, text_eq_sound, text_eq_complete}
use calendar_digest.Prelude.Words.{is_empty}
use calendar_digest.Server.Origins.{ParseUrl, Envelope, is_safe, is_trusted, same_host, may_pass}

-- The origin is not set, or is none of the trusted ones.
abbrev pub IsStranger : List Text → Text → Type 0
IsStranger trusted origin = (origin ≡ []) ⊎ (In origin trusted → ⊥)

-- A request, of a method other than GET, HEAD and OPTIONS and not from a trusted origin, that the
-- browser marks as from another site, or, where it marks nothing, that has an origin whose host is
-- not the one that is asked.
pub record IsForeign (parse : ParseUrl) (trusted : List Text) (e : Envelope) : Type 0 where
  pub not_get : e.method ≢ codes "GET"
  pub not_head : e.method ≢ codes "HEAD"
  pub not_options : e.method ≢ codes "OPTIONS"
  pub stranger : IsStranger trusted e.origin
  pub marked :
      ((e.sec_fetch_site ≢ [])
        × (e.sec_fetch_site ≢ codes "same-origin")
        × (e.sec_fetch_site ≢ codes "none"))
      ⊎ ((e.sec_fetch_site ≡ [])
          × (e.origin ≢ [])
          × ((u : Text × Text × Text) → parse e.origin ≡ some u → u.1 ≢ e.host))

empty_iff : (s : Text) → (is_empty s ≡ true) ↔ (s ≡ [])
empty_iff [] = ((λ h. refl), (λ h. refl))
empty_iff (x ∷ s) = ((λ h. cc), (λ h. cc))

text_eq_iff : (s t : Text) → (text_eq s t ≡ true) ↔ (s ≡ t)
text_eq_iff s t = (text_eq_sound s t, text_eq_complete s t)

any-text_eq_iff : (s : Text) (ts : List Text) → (any (text_eq s) ts ≡ true) ↔ In s ts
any-text_eq_iff s [] = ((λ h. cc), (λ h. absurd h))
any-text_eq_iff s (t ∷ ts) = (
  (λ h. elim (Bool-cases (text_eq s t)) [
    | inl e ↦ inl (text_eq_sound s t e)
    | inr e ↦ inr ((any-text_eq_iff s ts).0 (ground (arith, e, h)))
  ]),
  (λ m. elim m [
    | inl e ↦ rw (text_eq_complete s t e) refl
    | inr m' ↦ ground (arith, (any-text_eq_iff s ts).1 m')
  ]),
)

-- A Boolean test and what it stands for, negated.
not_iff : {P : Type 0} (b : Bool) → (b ≡ true) ↔ P → (b ≡ false) ↔ (P → ⊥)
not_iff b (to, from) = (
  (λ h p. let t = from p in cc),
  (λ n. elim (Bool-cases b) [ inl e ↦ absurd (n (to e)) | inr e ↦ e ]),
)

is_trusted_iff :
    (trusted : List Text) (origin : Text)
    → (is_trusted trusted origin ≡ false) ↔ IsStranger trusted origin
unfolding is_trusted
is_trusted_iff trusted origin =
    let listed = not_iff (any (text_eq origin) trusted) (any-text_eq_iff origin trusted) in
    elim (Bool-cases (is_empty origin)) [
      | inl e ↦ ((λ h. inl ((empty_iff origin).0 e)), (λ n. rw e refl))
      | inr e ↦ (
        (λ h. inr (listed.0 (ground (arith, e, h)))),
        (λ n. elim n [
          | inl z ↦ let there = (empty_iff origin).1 z in cc
          | inr other ↦ rw (e, listed.1 other) refl
        ]),
      )
    ]

same_host_iff :
    (parse : ParseUrl) (origin host : Text)
    → (same_host parse origin host ≡ false)
      ↔ ((u : Text × Text × Text) → parse origin ≡ some u → u.1 ≢ host)
unfolding same_host
same_host_iff parse origin host = elim (Option-cases (parse origin)) [
  | inl n ↦ ((λ h u q same. cc), (λ h. rw (n, same_host) refl))
  | inr (u, q) ↦
      let other = not_iff (text_eq u.1 host) (text_eq_iff u.1 host) in
      (
        (λ h v r same.
            let found : u ≡ v = cc in
            other.0 (rw (q, same_host) at h) (ap (λ (x : Text × Text × Text). x.1) found ∙ same)),
        (λ h. rw (q, same_host) (other.1 (h u q))),
      )
]

is_safe_iff :
    (method : Text)
    → (is_safe method ≡ false)
      ↔ ((method ≢ codes "GET") × (method ≢ codes "HEAD") × (method ≢ codes "OPTIONS"))
unfolding is_safe
is_safe_iff m =
    let get = not_iff (text_eq m (codes "GET")) (text_eq_iff m (codes "GET")) in
    let head = not_iff (text_eq m (codes "HEAD")) (text_eq_iff m (codes "HEAD")) in
    let options = not_iff (text_eq m (codes "OPTIONS")) (text_eq_iff m (codes "OPTIONS")) in
    (
      (λ h. (get.0 (ground (arith, h)), head.0 (ground (arith, h)), options.0 (ground (arith, h)))),
      (λ n. rw (get.1 n.0, head.1 n.1, options.1 n.2) refl),
    )

-- The check refuses exactly the foreign requests.
pub may_pass_iff :
    (parse : ParseUrl) (trusted : List Text) (e : Envelope)
    → (may_pass parse trusted e ≡ false) ↔ IsForeign parse trusted e
unfolding may_pass
may_pass_iff parse trusted e =
    let safe = is_safe_iff e.method in
    let known = is_trusted_iff trusted e.origin in
    let here = same_host_iff parse e.origin e.host in
    let no_origin = not_iff (is_empty e.origin) (empty_iff e.origin) in
    let site = e.sec_fetch_site in
    let set = not_iff (is_empty site) (empty_iff site) in
    let same =
      not_iff (text_eq site (codes "same-origin")) (text_eq_iff site (codes "same-origin")) in
    let user = not_iff (text_eq site (codes "none")) (text_eq_iff site (codes "none")) in
    (
      (λ h.
          let methods = safe.0 (ground (arith, h)) in
          let stranger = known.0 (ground (arith, h)) in
          elim (Bool-cases (is_empty site)) [
            | inl z ↦ record {
              not_get = methods.0;
              not_head = methods.1;
              not_options = methods.2;
              stranger = stranger;
              marked = inr (
                (empty_iff site).0 z,
                no_origin.0 (ground (arith, h, z)),
                here.0 (ground (arith, h, z)),
              );
            }
            | inr z ↦ record {
              not_get = methods.0;
              not_head = methods.1;
              not_options = methods.2;
              stranger = stranger;
              marked = inl (set.0 z, same.0 (ground (arith, h, z)), user.0 (ground (arith, h, z)));
            }
          ]),
      (λ f.
          let unsafe = safe.1 (f.not_get, f.not_head, f.not_options) in
          let untrusted = known.1 f.stranger in
          elim f.marked [
            | inl (n, s, u) ↦ rw (unsafe, set.1 n, same.1 s, user.1 u) untrusted
            | inr (z, n, o) ↦
                let empty = (empty_iff site).1 z in
                rw (unsafe, empty, no_origin.1 n, here.1 o) untrusted
          ]),
    )
