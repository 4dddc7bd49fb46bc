-- ===== src/Boot/Released.antt =====
-- The whole start and stop of the process: it keeps to the order of what it holds, and gives
-- everything back however it ends.
use calendar_digest.Prelude.{
  true, [], ◌∷◌, Option, none, some, ◌≡◌, refl, inl, inr, Bool-cases, Option-cases,
}
use calendar_digest.Prelude.Chars.{Text}
use calendar_digest.Prelude.Words.{is_empty}
use calendar_digest.Config.{Conf}
use calendar_digest.Jobs.Deps.{Deps, Enqueuer}
use calendar_digest.Server.Origins.{new_cross_origin_protection}
use calendar_digest.Boot.Effects.{◌>>=◌, ◌>>◌, deferring}
use calendar_digest.Boot.Database.{pool_handle}
use calendar_digest.Boot.Client.{
  River, Client, new_client, with_river, build_dashboard, river_config, start_ui, start_client,
  stop_client, works_jobs,
}
use calendar_digest.Boot.Run.{
  Machine, calendar_for, job_deps, boot_client, new_server, app_serve, run_server, serve_run,
}
use calendar_digest.Boot.Orderly.{
  Held, follow, follow_one, Ends, Lands, Any, Leaves, bind-Ends, deferring-Ends, then-Ends, at-Ends,
}
use calendar_digest.Boot.Handles.{held}
use calendar_digest.Boot.Started.{idle, IsReleased, up, AtPool, with_app-Ends}

calendar_for-Ends : (m : Machine) (c : Conf) → Ends (calendar_for m c) up (Lands Any up up)
unfolding calendar_for follow
calendar_for-Ends m c = elim (Bool-cases (is_empty c.app_conf.google_service_account_json)) [
  | inl e ↦ rw e (up, refl, (tt, refl))
  | inr e ↦ elim (Option-cases (m.google c.app_conf.google_service_account_json)) [
    | inl n ↦ rw (e, n) (up, refl, refl)
    | inr (client, s) ↦ rw (e, s) (up, refl, (tt, refl))
  ]
]

-- The client works jobs, as the registry is not empty.
abbrev Works : Client → Type 0
Works c = c.works ≡ true

build_dashboard-Ends : (r : River) (c : Conf) → Ends (build_dashboard r c) up (Lands Any up up)
unfolding build_dashboard follow
build_dashboard-Ends r c = elim (Bool-cases c.app_conf.river_ui_enabled) [
  | inr e ↦ rw e (up, refl, (tt, refl))
  | inl e ↦ elim (Bool-cases (r.builds_dashboard c.app_conf.river_ui_path)) [
    | inl b ↦ rw (e, b) (up, refl, (tt, refl))
    | inr b ↦ rw (e, b) (up, refl, refl)
  ]
]

with_river-Ends :
    (r : River) (c : Conf) (deps : Deps) (q : Option Enqueuer)
    → Ends (with_river r c deps q) up (Lands Works up up)
unfolding with_river follow works_jobs
with_river-Ends r c deps none = (up, refl, refl)
with_river-Ends r c deps (some q) =
    then-Ends (build_dashboard r c) _ up Any up up (Lands Works up up) (build_dashboard-Ends r c)
      (λ ui v. (up, refl, (refl, refl))) (λ e. refl)

new_client-Ends :
    (r : River) (c : Conf) (deps : Deps)
    → Ends (new_client r pool_handle c deps) up (Lands Works up up)
unfolding new_client follow follow_one
new_client-Ends r c deps = elim (Bool-cases r.migrator) [
  | inr e ↦ rw e (up, refl, refl)
  | inl e ↦ elim (Bool-cases r.migrates_up) [
    | inr n ↦ rw (e, n) (up, refl, refl)
    | inl n ↦ simp (e, n) (with_river-Ends r c deps (r.client (river_config c)))
  ]
]

abbrev running : Held
running = held (pool_handle ∷ []) true true

start_ui-Ends : (r : River) (ui : Option Text) → Ends (start_ui r ui) up (Lands Any up up)
unfolding start_ui follow follow_one
start_ui-Ends r none = (up, refl, (tt, refl))
start_ui-Ends r (some path) = elim (Bool-cases r.starts_dashboard) [
  | inl e ↦ rw e (up, refl, (tt, refl))
  | inr e ↦ rw e (up, refl, refl)
]

start_client-Ends :
    (r : River) (c : Client)
    → Works c
    → Ends (start_client r pool_handle c) up (Lands Any running up)
unfolding start_client follow follow_one
start_client-Ends r c w =
    then-Ends (start_ui r c.ui) _ up Any up up (Lands Any running up) (start_ui-Ends r c.ui)
      (λ u v. elim (Bool-cases r.starts) [
        | inl e ↦ rw (w, e) (running, refl, (tt, refl))
        | inr e ↦ rw (w, e) (up, refl, refl)
      ])
      (λ e. refl)

module _ (m : Machine) where
  app_serve-Ends : (c : Client) → Ends (app_serve m c) running (Leaves running)
  unfolding app_serve follow follow_one
  app_serve-Ends c = elim (Bool-cases (m.builds_router c.ui)) [
    | inl e ↦ rw e (running, refl, refl)
    | inr e ↦ rw e (running, refl, refl)
  ]

  -- The deferred stop of the workers.
  serve_and_stop-Ends :
      (c : Client)
      → Works c
      → Ends (deferring (stop_client m.river pool_handle c).1 (app_serve m c)) running AtPool
  unfolding stop_client follow follow_one
  serve_and_stop-Ends c w =
      deferring-Ends (stop_client m.river pool_handle c).1 (app_serve m c) running (Leaves running)
        AtPool (app_serve-Ends c) (λ r h p. (up, rw (p, w) refl, refl))

  new_server-Ends : (c : Conf) → Ends (new_server m c) up AtPool
  unfolding new_server follow
  new_server-Ends c =
      elim (Option-cases (new_cross_origin_protection m.parse_url c.app_conf.trusted_origins)) [
        | inl e ↦ rw (new_server, e) (up, refl, refl)
        | inr (trusted, e) ↦ rw (new_server, e) (up, refl, refl)
      ]

  started-Ends :
      (client : Client)
      → Works client
      → Ends
          (start_client m.river pool_handle client
            >> deferring (stop_client m.river pool_handle client).1 (app_serve m client))
          up
          AtPool
  started-Ends client w =
      then-Ends (start_client m.river pool_handle client) _ up Any running up AtPool
        (start_client-Ends m.river client w) (λ u v. serve_and_stop-Ends client w) (λ x. refl)

  run_server-Ends :
      (c : Conf) (client : Client) → Works client → Ends (run_server m c client) up AtPool
  unfolding run_server
  run_server-Ends c client w =
      bind-Ends (new_server m c) _ up AtPool AtPool (new_server-Ends c)
        (λ trusted h p.
          at-Ends
            (start_client m.river pool_handle client
              >> deferring (stop_client m.river pool_handle client).1 (app_serve m client))
            h up AtPool p (started-Ends client w))
        (λ e h p. p) (λ h p. p)

  boot_client-Ends : (c : Conf) → Ends (boot_client m c) up (Lands Works up up)
  unfolding boot_client
  boot_client-Ends c =
      then-Ends (calendar_for m c) _ up Any up up (Lands Works up up) (calendar_for-Ends m c)
        (λ calendar v. new_client-Ends m.river c (job_deps m c calendar)) (λ e. refl)

  booted-Ends : (c : Conf) → Ends (boot_client m c >>= run_server m c) up AtPool
  booted-Ends c =
      then-Ends (boot_client m c) _ up Works up up AtPool (boot_client-Ends c) (run_server-Ends c)
        (λ e. refl)

  -- However `Run` ends, with nil, an error or a panic: what it did follows the order of `follow_one`,
  -- and in the end no handle is open, River does not run, and no context is live.
  pub serve_run-IsReleased : (h : Held) × (follow (serve_run m).1 idle ≡ some h) × IsReleased h
  unfolding serve_run
  serve_run-IsReleased =
      with_app-Ends m.disk m.parse_base_url m.decoded
        (λ a. boot_client m a.config >>= run_server m a.config) (λ a. booted-Ends a.config)
