-- ===== src/Server/Writes.antt =====
-- Which requests internal/server/routes.go lets change the database.
use calendar_digest.Prelude.{true, false, ◌≡◌, ◌≢◌, refl, sym, ◌∙◌, ◌⊎◌, inl, inr, Bool-cases}
use calendar_digest.Prelude.Chars.{Text, codes, text_eq, text_eq_sound}
use calendar_digest.Ui.Pages.{Site}
use calendar_digest.Ui.Serve.{
  Request, open_home, open_new, post_recipient, open_recipient, drop_recipient, post_digest_now,
  post_update, post_target, post_toggle, post_test, drop_target, open_digest, serve,
}
use calendar_digest.Ui.Reads.{is_read, serve_keeps}
use calendar_digest.Server.Origins.{Envelope, may_pass}
use calendar_digest.Server.Denied.{Foreign, barred}
use calendar_digest.Server.Routes.{
  Route, static_file, healthz, version_info, api_docs, root, dashboard, unknown, page, HttpRequest,
  Reply, version_is, healthy, documented, to_app, App, method_of, is_grouped, grouped, get_only,
  says, routed, dispatch, handle,
}

module _ (a : App) where
  -- A page that writes was asked for by the method of its table, which is not GET, and the request is
  -- not foreign.
  pub record IsWrite (q : HttpRequest) (s : Site) (r : Request) : Type 0 where
    pub route : q.route ≡ page r
    pub writes : is_read r ≡ false
    pub method : q.envelope.method ≡ method_of r
    pub not_get : q.envelope.method ≢ codes "GET"
    pub own : Foreign a q.envelope → ⊥
    pub by_handler : (handle a q s).1 ≡ (serve a.pages r s).1

  -- The dashboard is mounted and was asked for by a request that is not foreign, and what it does with
  -- the queue is all that changes.
  pub record IsDashboard (q : HttpRequest) (s : Site) (path : Text) : Type 0 where
    pub route : q.route ≡ dashboard path
    pub there : a.has_dashboard ≡ true
    pub own : Foreign a q.envelope → ⊥
    pub acts :
        (handle a q s).1.world ≡ record s.world { queue = a.riverui q.envelope path s.world.queue }

  write-is_grouped : (r : Request) → is_read r ≡ false → is_grouped r ≡ true
  write-is_grouped open_home h = refl
  write-is_grouped open_new h = refl
  write-is_grouped (post_recipient f) h = refl
  write-is_grouped (open_recipient id) h = refl
  write-is_grouped (drop_recipient id) h = refl
  write-is_grouped (post_digest_now id) h = refl
  write-is_grouped (post_update id f) h = refl
  write-is_grouped (post_target id f) h = refl
  write-is_grouped (post_toggle id) h = refl
  write-is_grouped (post_test id) h = refl
  write-is_grouped (drop_target id) h = refl
  write-is_grouped (open_digest token) h = cc

  write-ne-get : (r : Request) → is_read r ≡ false → method_of r ≢ codes "GET"
  unfolding method_of
  write-ne-get (post_recipient f) h e = cc
  write-ne-get (drop_recipient id) h e = cc
  write-ne-get (post_digest_now id) h e = cc
  write-ne-get (post_update id f) h e = cc
  write-ne-get (post_target id f) h e = cc
  write-ne-get (post_toggle id) h e = cc
  write-ne-get (drop_target id) h e = cc
  write-ne-get _ h e = cc

  get_only-world :
      (e : Envelope) (f : Site → Reply × Site) (s : Site)
      → (f s).1.world ≡ s.world
      → (get_only a e f s).1.world ≡ s.world
  get_only-world e f s h = elim (Bool-cases (text_eq e.method (codes "GET"))) [
    | inl get ↦ rw get h
    | inr other ↦ rw other refl
  ]

  grouped-world :
      (e : Envelope) (f : Site → Reply × Site) (s : Site)
      → (f s).1.world ≡ s.world
      → (grouped a e f s).1.world ≡ s.world
  grouped-world e f s h = elim (Bool-cases (may_pass a.parse a.trusted e)) [
    | inl passes ↦ rw passes h
    | inr stopped ↦ rw stopped refl
  ]

  abbrev Answered : HttpRequest → Site → Type 0
  Answered q s =
      ((handle a q s).1.world ≡ s.world)
      ⊎ (((path : Text) × IsDashboard q s path) ⊎ ((r : Request) × IsWrite q s r))

  routed-read :
      (r : Request) (e : Envelope) (s : Site)
      → is_read r ≡ true
      → (routed a r e s).1.world ≡ s.world
  routed-read r e s h = elim (Bool-cases (text_eq e.method (method_of r))) [
    | inl same ↦ rw same (serve_keeps a.pages r s h)
    | inr other ↦ rw other refl
  ]

  page-read :
      (r : Request) (e : Envelope) (s : Site)
      → is_read r ≡ true
      → (dispatch a (page r) e s).1.world ≡ s.world
  unfolding dispatch
  page-read r e s h = elim (Bool-cases (is_grouped r)) [
    | inr outside ↦ rw outside (routed-read r e s h)
    | inl inside ↦ elim (Bool-cases (may_pass a.parse a.trusted e)) [
      | inl passes ↦ rw (inside, passes) (routed-read r e s h)
      | inr stopped ↦ rw (inside, stopped) refl
    ]
  ]

  page-write :
      (r : Request) (e : Envelope) (s : Site)
      → is_read r ≡ false
      → Answered (record { route = page r; envelope = e }) s
  unfolding handle dispatch
  page-write r e s w =
      let inside = write-is_grouped r w in
      elim (Bool-cases (may_pass a.parse a.trusted e)) [
        | inr stopped ↦ inl (rw (inside, stopped) refl)
        | inl passes ↦ elim (Bool-cases (text_eq e.method (method_of r))) [
          | inr other ↦ inl (rw (inside, passes, other) refl)
          | inl same ↦
              let method = text_eq_sound e.method (method_of r) same in
              inr (
                inr (
                  r,
                  record {
                    route = refl;
                    writes = w;
                    method = method;
                    not_get = λ get. write-ne-get r w (sym method ∙ get);
                    own = λ foreign. let b = barred a e foreign in cc;
                    by_handler = rw (inside, passes, same) refl;
                  },
                ))
        ]
      ]

  handled : (r : Route) (e : Envelope) (s : Site) → Answered (record { route = r; envelope = e }) s
  unfolding handle dispatch
  handled (static_file name) e s = inl refl
  handled healthz e s = inl (get_only-world e (says healthy) s refl)
  handled version_info e s = inl (get_only-world e (says (version_is a.version)) s refl)
  handled api_docs e s = inl (get_only-world e (says documented) s refl)
  handled root e s =
      inl (get_only-world e (grouped a e (says to_app)) s (grouped-world e (says to_app) s refl))
  handled unknown e s = inl refl
  handled (dashboard path) e s = elim (Bool-cases a.has_dashboard) [
    | inr missing ↦ inl (rw missing refl)
    | inl there ↦ elim (Bool-cases (may_pass a.parse a.trusted e)) [
      | inr stopped ↦ inl (rw (there, stopped) refl)
      | inl passes ↦ inr (
          inl (
            path,
            record {
              route = refl;
              there = there;
              own = λ foreign. let b = barred a e foreign in cc;
              acts = rw (there, passes) refl;
            },
          ))
    ]
  ]
  handled (page r) e s = elim (Bool-cases (is_read r)) [
    | inl reads ↦ inl (page-read r e s reads)
    | inr writes ↦ page-write r e s writes
  ]

  -- A request leaves the tables and the queue as they are; or it is one to the dashboard, which is
  -- mounted, is not foreign, and changes nothing but the queue, as the dashboard does; or it is to a
  -- page that writes, by the method of its table, which is not GET, is not foreign, and the state is
  -- the one that the handler of the page leaves.
  pub handle-IsWrite :
      (q : HttpRequest) (s : Site)
      → ((handle a q s).1.world ≡ s.world)
        ⊎ (((path : Text) × IsDashboard q s path) ⊎ ((r : Request) × IsWrite q s r))
  handle-IsWrite q s = handled q.route q.envelope s
