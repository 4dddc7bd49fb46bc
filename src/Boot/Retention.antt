-- ===== src/Boot/Retention.antt =====
-- The retention of snapshots in the process that `ServeCmd.Run` of internal/cmd/serve_cmd.go starts,
-- with the periodic jobs of internal/jobs/client.go.
use calendar_digest.Prelude.{
  ℕ, ◌==◌, Bool, true, not, ◌||◌, any, List, [], ◌∷◌, Option, none, some, All, ◌≡◌, ◌≢◌, refl, sym,
  subst, ◌∙◌, inl, inr, arith, Bool-cases,
}
use calendar_digest.Prelude.Chars.{Text}
use calendar_digest.Store.Models.{DigestSnapshots}
use calendar_digest.Store.Tables.{Tables, update_rows}
use calendar_digest.Store.Tables.Rows.{any-append}
use calendar_digest.Store.Snapshots.{
  has_key, has_token, told, is_untold, insert_snapshot_if_absent, replace_snapshot_events,
  set_notified_at,
}
use calendar_digest.Store.Preserves.{IsKept}
use calendar_digest.Config.{Conf}
use calendar_digest.Jobs.Deps.{Deps, World, Enqueuer, retry}
use calendar_digest.Jobs.Alert.{alert_work}
use calendar_digest.Jobs.Purge.{purge}
use calendar_digest.Jobs.Preserves.{capture-Preserves, send_work-Preserves, scan-Preserves}
use calendar_digest.Jobs.Verify.Preserves.{verify-Preserves}
use calendar_digest.Jobs.Capture.Stored.{HasSnapshot, refreshed-keys}
use calendar_digest.System.Runs.{
  Task, scan_due, purge_old, verify_access, capture_day, send_digest, tell, work,
}
use calendar_digest.Boot.Effects.{Result, ok, err, crash, Act, ◌>>=◌}
use calendar_digest.Boot.Client.{
  River, Client, purge_snapshots, PeriodicJob, river_config, build_dashboard, with_river,
  new_client, works_jobs,
}
use calendar_digest.Boot.Run.{Machine, calendar_for, job_deps, boot_client}

abbrev HasKey : ℕ → Text → Tables → Type 0
HasKey id date t = any (has_key id date) t.snapshots ≡ true

told-keys :
    (p : DigestSnapshots → Bool) (at : Text) (id : ℕ) (date : Text) (xs : List DigestSnapshots)
    → any (has_key id date) (update_rows p (told at) xs) ≡ any (has_key id date) xs
told-keys p at id date [] = refl
told-keys p at id date (x ∷ xs) = ground (arith, told-keys p at id date xs)

-- The writes of the jobs, other than the purge, keep every key.
HasKey-IsKept : (id : ℕ) (date : Text) → IsKept (HasKey id date)
unfolding insert_snapshot_if_absent replace_snapshot_events set_notified_at
HasKey-IsKept id date = record {
  on_state = λ t rows h. h;
  on_insert = λ id' date' token events at t h.
      elim (Bool-cases (any (has_key id' date') t.snapshots)) [
        | inl old ↦ rw old h
        | inr new ↦
            elim (Bool-cases
              (any (has_token token) t.snapshots || not (any (λ r. r.id == id') t.recipients))) [
                | inl bad ↦ rw (new, bad) h
                | inr good ↦
                    rw (new, good) (any-append (has_key id date) t.snapshots _ ∙ ground (arith, h))
              ]
      ];
  on_replace = λ events at id' date' t h.
      refreshed-keys (has_key id' date') events at id date t.snapshots ∙ h;
  on_told = λ at id' t h. told-keys (is_untold id') at id date t.snapshots ∙ h;
}

-- What `Run` and `NewClient` give every client: no retention, and the jobs of `river_config`.
abbrev IsBooted : Conf → Result Client → Type 0
IsBooted c (ok client) =
    (client.deps.snapshot_retention_days ≡ 0) × (client.config ≡ river_config c)
IsBooted c (err e) = Unit
IsBooted c crash = Unit

bind-IsBooted :
    {A : Type 0} (c : Conf) (m : Act A) (f : A → Act Client)
    → ((a : A) → IsBooted c (f a).0)
    → IsBooted c (m >>= f).0
bind-IsBooted c (ok a, es) f h = h a
bind-IsBooted c (err e, es) f h = tt
bind-IsBooted c (crash, es) f h = tt

with_river-IsBooted :
    (r : River) (c : Conf) (deps : Deps) (q : Option Enqueuer)
    → deps.snapshot_retention_days ≡ 0
    → IsBooted c (with_river r c deps q).0
unfolding with_river
with_river-IsBooted r c deps none h = tt
with_river-IsBooted r c deps (some q) h = bind-IsBooted c (build_dashboard r c) _ (λ ui. (h, refl))

new_client-IsBooted :
    (r : River) (db : ℕ) (c : Conf) (deps : Deps)
    → deps.snapshot_retention_days ≡ 0
    → IsBooted c (new_client r db c deps).0
unfolding new_client
new_client-IsBooted r db c deps h = elim (Bool-cases r.migrator) [
  | inr e ↦ simp e (tt)
  | inl e ↦ elim (Bool-cases r.migrates_up) [
    | inr n ↦ simp (e, n) (tt)
    | inl n ↦ simp (e, n) (with_river-IsBooted r c deps (r.client (river_config c)) h)
  ]
]

boot_client-IsBooted : (m : Machine) (c : Conf) → IsBooted c (boot_client m c).0
unfolding boot_client job_deps
boot_client-IsBooted m c =
    bind-IsBooted c (calendar_for m c) _ (λ calendar. new_client-IsBooted m.river _ c _ refl)

purge_idle : (d : Deps) (w : World) → d.snapshot_retention_days ≡ 0 → purge d w ≡ (retry, w)
unfolding purge
purge_idle d w h = ground (arith, h)

work-HasSnapshot :
    (d : Deps) (t : Task) (id : ℕ) (date : Text) (w : World)
    → d.snapshot_retention_days ≡ 0
    → HasSnapshot id date w
    → HasSnapshot id date (work d t w).1
unfolding work alert_work
work-HasSnapshot d scan_due id date w z h = scan-Preserves _ (HasKey-IsKept id date) d w h
work-HasSnapshot d purge_old id date w z h =
    subst (λ r. HasSnapshot id date r.1) (sym (purge_idle d w z)) h
work-HasSnapshot d verify_access id date w z h = verify-Preserves _ (HasKey-IsKept id date) d w h
work-HasSnapshot d (capture_day a) id date w z h =
    capture-Preserves _ (HasKey-IsKept id date) d a w h
work-HasSnapshot d (send_digest a) id date w z h =
    send_work-Preserves _ (HasKey-IsKept id date) d a w h
work-HasSnapshot d (tell none a) id date w z h = h
work-HasSnapshot d (tell (some deliver) a) id date w z h = elim (Bool-cases (deliver a)) [
  | inl e ↦ rw e h
  | inr e ↦ rw e h
]

unpurged_config :
    (c : Conf) → All (λ (p : PeriodicJob). p.kind ≢ purge_snapshots) (river_config c).periodic_jobs
unfolding river_config works_jobs
unpurged_config c = ((λ e. cc), ((λ e. cc), tt))

-- In the process that `Run` starts, whatever its configuration, the purge is no periodic job, and
-- where it is run all the same it ends in an error and changes nothing; and no job of any kind
-- removes the snapshot of a recipient's date.
pub boot_client-keeps :
    (m : Machine) (c : Conf) (client : Client) (t : Task) (id : ℕ) (date : Text) (w : World)
    → (boot_client m c).0 ≡ ok client
    → HasSnapshot id date w
    → All (λ (p : PeriodicJob). p.kind ≢ purge_snapshots) client.config.periodic_jobs
      × (work client.deps purge_old w ≡ (retry, w))
      × HasSnapshot id date (work client.deps t w).1
unfolding work
boot_client-keeps m c client t id date w e h =
    let (unset, config) = subst (IsBooted c) e (boot_client-IsBooted m c) in
    (
      subst (λ r. All (λ (p : PeriodicJob). p.kind ≢ purge_snapshots) r.periodic_jobs) (sym config)
          (unpurged_config c),
      purge_idle client.deps w unset,
      work-HasSnapshot client.deps t id date w unset h,
    )
