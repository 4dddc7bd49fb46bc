-- ===== src/Config/Loads.antt =====
-- What a configuration satisfies once `Load` returned it.
use calendar_digest.Prelude.{
  ℕ, ◌≤◌, Bool, true, false, not, ◌&&◌, if◌then◌else◌, List, [], ◌∷◌, ◌++◌, Option, none, some, ◌≡◌,
  ◌≢◌, refl, sym, subst, ◌↔◌, ◌⊎◌, inl, inr, arith, Bool-cases, Option-cases,
}
use calendar_digest.Prelude.Chars.{
  Text, codes, text_eq, text_eq_sound, text_eq_complete, text_eq_refl,
}
use calendar_digest.Prelude.Words.{is_empty, both-empty, append-empty}
use calendar_digest.Prelude.Ints.{ℤ, pos, negsuc}
use calendar_digest.Config.{
  Conf, Problem, bad_port, bad_retention, no_origins, insecure_cookie, bad_path, bad_base_url,
  UrlProblem, not_url, no_scheme, no_host, reported, when, is_production, river_ui_path_problem,
  base_url_problem, port_outside, below_one, trimmed, problems, load,
}
use calendar_digest.Config.Paths.{IsUsable, river_ui_path_problem-IsUsable}

-- A root for links: none, or a URL with a host and the scheme of the web.
abbrev pub IsLinkRoot : (Text → Option (Text × Text)) → Text → Type 0
IsLinkRoot parse_url value =
    (value ≡ [])
    ⊎ ((scheme : Text) × (host : Text) × (parse_url value ≡ some (scheme, host))
        × ((scheme ≡ codes "http") ⊎ (scheme ≡ codes "https"))
        × (host ≢ []))

pub record IsValid (parse_url : Text → Option (Text × Text)) (c : Conf) : Type 0 where
  pub port : (n : ℕ) × (c.server_port ≡ pos n) × (1 ≤ n) × (n ≤ 65535)
  pub retention : (n : ℕ) × (c.app_conf.snapshot_retention_days ≡ pos n) × (1 ≤ n)
  pub dashboard : (c.app_conf.river_ui_enabled ≡ false) ⊎ IsUsable c.app_conf.river_ui_path
  pub link_root : IsLinkRoot parse_url (trimmed c).app_conf.base_url
  pub deployment :
      (is_production c ≡ false) ⊎ ((c.app_conf.trusted_origins ≢ []) × (c.session_secure ≡ true))

nonempty : {A : Type 0} (xs : List A) → is_empty xs ≡ false → xs ≢ []
nonempty [] h = λ e. cc
nonempty (x ∷ xs) h = λ e. cc

nonempty-false : {A : Type 0} (xs : List A) → xs ≢ [] → is_empty xs ≡ false
nonempty-false [] h = absurd (h refl)
nonempty-false (x ∷ xs) h = refl

empty-nil : {A : Type 0} (xs : List A) → is_empty xs ≡ true → xs ≡ []
empty-nil [] h = refl
empty-nil (x ∷ xs) h = cc

when-empty : (b : Bool) (p : Problem) → (is_empty (when b p) ≡ true) ↔ (b ≡ false)
when-empty true p = (λ h. cc, λ h. cc)
when-empty false p = (λ h. refl, λ h. refl)

-- What a deployment needs.
deployment-empty :
    (live secure : Bool) (origins : List Text)
    → (is_empty (
          if live
          then when (is_empty origins) no_origins ++ when (not secure) insecure_cookie
          else [])
        ≡ true)
      ↔ ((live ≡ false) ⊎ ((origins ≢ []) × (secure ≡ true)))
deployment-empty false secure origins = (λ h. inl refl, λ h. refl)
deployment-empty true secure [] =
    (λ h. cc, λ h. elim h [ inl e ↦ cc | inr (e, f) ↦ absurd (e refl) ])
deployment-empty true false (o ∷ os) = (λ h. cc, λ h. elim h [ inl e ↦ cc | inr (e, f) ↦ cc ])
deployment-empty true true (o ∷ os) = (λ h. inr (λ e. cc, refl), λ h. refl)

reported-none :
    {A : Type 0} (f : A → Problem) (o : Option A) → (is_empty (reported f o) ≡ true) ↔ (o ≡ none)
reported-none f none = (λ h. refl, λ h. refl)
reported-none f (some a) = (λ h. cc, λ h. cc)

-- The dashboard's path, where it is on.
dashboard-empty :
    (on : Bool) (at : Text)
    → (is_empty (if on then reported bad_path (river_ui_path_problem at) else []) ≡ true)
      ↔ ((on ≡ false) ⊎ IsUsable at)
dashboard-empty false at = (λ h. inl refl, λ h. refl)
dashboard-empty true at =
    let accepts = river_ui_path_problem-IsUsable at in
    let silent = reported-none bad_path (river_ui_path_problem at) in
    (λ h. inr (accepts.0 (silent.0 h)), λ h. elim h [ inl e ↦ cc | inr u ↦ silent.1 (accepts.1 u) ])

port-outside : (z : ℤ) → (port_outside z ≡ false) ↔ ((n : ℕ) × (z ≡ pos n) × (1 ≤ n) × (n ≤ 65535))
unfolding port_outside
port-outside (pos n) = (
  λ h. (n, refl, ground arith, ground arith),
  λ (m, e, low, high). subst (λ z. port_outside z ≡ false) (sym e) (ground arith),
)
port-outside (negsuc n) =
    (λ h. cc, λ (m, e, low, high). subst (λ z. port_outside z ≡ false) (sym e) (ground arith))

below-one : (z : ℤ) → (below_one z ≡ false) ↔ ((n : ℕ) × (z ≡ pos n) × (1 ≤ n))
unfolding below_one
below-one (pos n) = (
  λ h. (n, refl, ground arith),
  λ (m, e, low). subst (λ z. below_one z ≡ false) (sym e) (ground arith),
)
below-one (negsuc n) =
    (λ h. cc, λ (m, e, low). subst (λ z. below_one z ≡ false) (sym e) (ground arith))

module _ (parse_url : Text → Option (Text × Text)) where
  link-root : (value : Text) → base_url_problem parse_url value ≡ none → IsLinkRoot parse_url value
  unfolding base_url_problem
  link-root value h = elim (Bool-cases (is_empty value)) [
    | inl e ↦ inl (empty-nil value e)
    | inr e ↦ elim (Option-cases (parse_url value)) [
      | inl n ↦
          let bad : ◌≡◌ {A = Option UrlProblem} (some not_url) none = rw (sym h, e, n) refl in cc
      | inr ((scheme, host), p) ↦ elim (Bool-cases (text_eq scheme (codes "http"))) [
        | inl web ↦ elim (Bool-cases (is_empty host)) [
          | inl none_given ↦
              let bad : ◌≡◌ {A = Option UrlProblem} (some no_host) none =
                rw (sym h, e, p, web, none_given) refl in
              cc
          | inr given ↦
              inr (
                scheme,
                host,
                p,
                inl (text_eq_sound scheme (codes "http") web),
                nonempty host given,
              )
        ]
        | inr other ↦ elim (Bool-cases (text_eq scheme (codes "https"))) [
          | inl web ↦ elim (Bool-cases (is_empty host)) [
            | inl none_given ↦
                let bad : ◌≡◌ {A = Option UrlProblem} (some no_host) none =
                  rw (sym h, e, p, other, web, none_given) refl in
                cc
            | inr given ↦ inr (
              scheme,
              host,
              p,
              inr (text_eq_sound scheme (codes "https") web),
              nonempty host given,
            )
          ]
          | inr neither ↦
              let bad : ◌≡◌ {A = Option UrlProblem} (some no_scheme) none =
                rw (sym h, e, p, other, neither) refl in
              cc
        ]
      ]
    ]
  ]

  link-root-none :
      (value : Text) → IsLinkRoot parse_url value → base_url_problem parse_url value ≡ none
  unfolding base_url_problem
  link-root-none value (inl e) = rw e refl
  link-root-none value (inr (scheme, host, p, web, given)) = elim (Bool-cases (is_empty value)) [
    | inl e ↦ rw e refl
    | inr e ↦ rw (e, p, nonempty-false host given) (accepted web)
  ]
    where
      accepted :
          ((scheme ≡ codes "http") ⊎ (scheme ≡ codes "https"))
          → (if not (text_eq scheme (codes "http")) && not (text_eq scheme (codes "https"))
              then some no_scheme
              else if false
              then some no_host
              else none)
            ≡ none
      accepted (inl q) = rw q (rw (text_eq_refl (codes "http")) refl)
      accepted (inr q) = let same = text_eq_complete scheme (codes "https") q in ground arith

  -- The root for links.
  IsLinkRoot-empty :
      (value : Text)
      → (is_empty (reported bad_base_url (base_url_problem parse_url value)) ≡ true)
        ↔ IsLinkRoot parse_url value
  IsLinkRoot-empty value =
      let silent = reported-none bad_base_url (base_url_problem parse_url value) in
      (λ h. link-root value (silent.0 h), λ h. silent.1 (link-root-none value h))

  problems-IsValid : (c : Conf) → (is_empty (problems parse_url c) ≡ true) ↔ IsValid parse_url c
  unfolding problems
  problems-IsValid c =
      let p = when-empty (port_outside c.server_port) bad_port in
      let q = port-outside c.server_port in
      let r = when-empty (below_one c.app_conf.snapshot_retention_days) bad_retention in
      let s = below-one c.app_conf.snapshot_retention_days in
      let t = dashboard-empty c.app_conf.river_ui_enabled c.app_conf.river_ui_path in
      let u = IsLinkRoot-empty (trimmed c).app_conf.base_url in
      let w = deployment-empty (is_production c) c.session_secure c.app_conf.trusted_origins in
      (
        λ h.
            let (h1, k1) = both-empty _ _ h in
            let (h2, k2) = both-empty _ _ k1 in
            let (h3, k3) = both-empty _ _ k2 in
            let (h4, k4) = both-empty _ _ k3 in
            record {
              port = q.0 (p.0 h1);
              retention = s.0 (r.0 h2);
              dashboard = t.0 h3;
              link_root = u.0 h4;
              deployment = w.0 k4;
            },
        λ v. append-empty _ _ (p.1 (q.1 v.port)) (
            append-empty _ _ (r.1 (s.1 v.retention)) (
              append-empty _ _ (t.1 v.dashboard)
                (append-empty _ _ (u.1 v.link_root) (w.1 v.deployment)))),
      )

  -- `Load` returns a configuration exactly where the environment decodes to one, its port is one of
  -- TCP, it keeps snapshots for a day at least, the dashboard is off or its path usable, the trimmed
  -- base URL is empty or a URL of the web with a host, and, in production, there is a trusted origin
  -- and cookies are secure. It is the decoded one with one slash at the end of the base URL removed.
  pub load-IsValid :
      (decoded : Option Conf) (c' : Conf)
      → (load parse_url decoded ≡ inr c')
        ↔ ((c : Conf) × (decoded ≡ some c) × IsValid parse_url c × (c' ≡ trimmed c))
  unfolding load
  load-IsValid none c' = (λ h. cc, λ (c, e, v, t). cc)
  load-IsValid (some c) c' =
      let clean = problems-IsValid c in
      elim (Bool-cases (is_empty (problems parse_url c))) [
        | inl e ↦ rw e (λ h. (c, refl, clean.0 e, cc), λ (b, same, v, t). cc)
        | inr e ↦ rw e (
          λ h. cc,
          λ (b, same, v, t). let found = clean.1 (subst (λ x. IsValid parse_url x) (cc) v) in cc,
        )
      ]
