-- ===== src/Server/Denied.antt =====
-- Which requests the check of internal/server/routes.go refuses.
use calendar_digest.Prelude.{true, false, ◌≡◌, ◌≢◌, refl, ◌↔◌, inl, inr, Bool-cases}
use calendar_digest.Prelude.Chars.{codes, text_eq}
use calendar_digest.Ui.Pages.{Site}
use calendar_digest.Ui.Serve.{Request, serve}
use calendar_digest.Server.Origins.{Envelope, may_pass, is_safe}
use calendar_digest.Server.Guards.{IsForeign, may_pass_iff}
use calendar_digest.Server.Routes.{
  Route, static_file, healthz, version_info, api_docs, root, dashboard, unknown, page, HttpRequest,
  Reply, shown, version_is, healthy, documented, to_app, not_routed, denied, not_allowed, App,
  method_of, is_grouped, grouped, get_only, says, at_dashboard, routed, dispatch, handle,
}

module _ (a : App) where
  abbrev pub Foreign : Envelope → Type 0
  Foreign e = IsForeign a.parse a.trusted e

  -- The routes behind the check: the pages under /app, and the dashboard where it is mounted.
  abbrev pub IsGuarded : Route → Type 0
  IsGuarded (page r) = is_grouped r ≡ true
  IsGuarded (dashboard path) = a.has_dashboard ≡ true
  IsGuarded _ = ⊥

  abbrev IsRefused : Route → Envelope → Site → Type 0
  IsRefused r e s = (dispatch a r e s).0 ≡ denied

  may_pass-Foreign : (e : Envelope) → may_pass a.parse a.trusted e ≡ false → Foreign e
  may_pass-Foreign e h = (may_pass_iff a.parse a.trusted e).0 h

  pub barred : (e : Envelope) → Foreign e → may_pass a.parse a.trusted e ≡ false
  barred e f = (may_pass_iff a.parse a.trusted e).1 f

  get_passes :
      (e : Envelope) → text_eq e.method (codes "GET") ≡ true → may_pass a.parse a.trusted e ≡ true
  unfolding may_pass is_safe
  get_passes e h = rw h refl

  open-ne-denied :
      (e : Envelope) (s : Site) (y : Reply) → y ≢ denied → (get_only a e (says y) s).0 ≢ denied
  open-ne-denied e s y n h = elim (Bool-cases (text_eq e.method (codes "GET"))) [
    | inl get ↦ n (rw get at h)
    | inr other ↦ let bad : not_allowed ≡ denied = rw other at h in cc
  ]

  root-ne-denied : (e : Envelope) (s : Site) → (dispatch a root e s).0 ≢ denied
  unfolding dispatch
  root-ne-denied e s h = elim (Bool-cases (text_eq e.method (codes "GET"))) [
    | inl get ↦ let bad : to_app ≡ denied = rw (get, get_passes e get) at h in cc
    | inr other ↦ let bad : not_allowed ≡ denied = rw other at h in cc
  ]

  routed-ne-denied : (r : Request) (e : Envelope) (s : Site) → (routed a r e s).0 ≢ denied
  routed-ne-denied r e s h = elim (Bool-cases (text_eq e.method (method_of r))) [
    | inl same ↦ let bad : shown (serve a.pages r s).0 ≡ denied = rw same at h in cc
    | inr other ↦ let bad : not_allowed ≡ denied = rw other at h in cc
  ]

  -- A handler of the group that does not refuse on its own.
  grouped-denied_iff :
      (e : Envelope) (f : Site → Reply × Site) (s : Site)
      → (f s).0 ≢ denied
      → ((grouped a e f s).0 ≡ denied) ↔ Foreign e
  grouped-denied_iff e f s n = elim (Bool-cases (may_pass a.parse a.trusted e)) [
    | inl passes ↦
        ((λ h. absurd (n (rw passes at h))), (λ foreign. let b = barred e foreign in absurd (cc b)))
    | inr stopped ↦ ((λ h. may_pass-Foreign e stopped), (λ foreign. rw stopped refl))
  ]

  dispatch-denied_iff :
      (r : Route) (e : Envelope) (s : Site) → IsRefused r e s ↔ (IsGuarded r × Foreign e)
  unfolding dispatch
  dispatch-denied_iff (static_file name) e s = ((λ h. cc), (λ p. absurd p.0))
  dispatch-denied_iff healthz e s =
      ((λ h. absurd (open-ne-denied e s healthy (λ q. cc) h)), (λ p. absurd p.0))
  dispatch-denied_iff version_info e s =
      ((λ h. absurd (open-ne-denied e s (version_is a.version) (λ q. cc) h)), (λ p. absurd p.0))
  dispatch-denied_iff api_docs e s =
      ((λ h. absurd (open-ne-denied e s documented (λ q. cc) h)), (λ p. absurd p.0))
  dispatch-denied_iff root e s = ((λ h. absurd (root-ne-denied e s h)), (λ p. absurd p.0))
  dispatch-denied_iff unknown e s = ((λ h. cc), (λ p. absurd p.0))
  dispatch-denied_iff (dashboard path) e s =
      let check = grouped-denied_iff e (at_dashboard a e path) s (λ q. cc) in
      elim (Bool-cases a.has_dashboard) [
        | inl there ↦ ((λ h. (there, check.0 (rw there at h))), (λ p. rw there (check.1 p.1)))
        | inr missing ↦ ((λ h. let bad : not_routed ≡ denied = rw missing at h in cc), (λ p. cc))
      ]
  dispatch-denied_iff (page r) e s =
      let check = grouped-denied_iff e (routed a r e) s (routed-ne-denied r e s) in
      elim (Bool-cases (is_grouped r)) [
        | inl inside ↦ ((λ h. (inside, check.0 (rw inside at h))), (λ p. rw inside (check.1 p.1)))
        | inr outside ↦ ((λ h. absurd (routed-ne-denied r e s (rw outside at h))), (λ p. cc))
      ]

  -- The server refuses a request exactly if it is foreign and its route is a page under /app or the
  -- dashboard.
  pub handle-denied_iff :
      (q : HttpRequest) (s : Site)
      → ((handle a q s).0.reply ≡ denied) ↔ (IsGuarded q.route × Foreign q.envelope)
  unfolding handle
  handle-denied_iff q s = dispatch-denied_iff q.route q.envelope s
