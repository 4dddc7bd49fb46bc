-- ===== src/Boot/Client.antt =====
-- internal/jobs/client.go and the registry of workers.go: the job client. River, its migrations and
-- the dashboard are no code of the repository; `River` says what they answer.
use calendar_digest.Prelude.{
  ℕ, ltb, ◌*◌, Bool, true, if◌then◌else◌, List, [], ◌∷◌, length, Option, none, some,
}
use calendar_digest.Prelude.Chars.{Text, codes}
use calendar_digest.Prelude.Ints.{ℤ, pos}
use calendar_digest.Config.{Conf}
use calendar_digest.Jobs.Deps.{Deps, Enqueuer, Job, digest, send, alert}
use calendar_digest.Boot.Effects.{
  migrate_river, start_river, stop_river, start_dashboard, no_migrator, river_not_migrated,
  no_client, no_dashboard, not_started, Act, pure, fail, emit, ◌>>=◌, ◌>>◌,
}

-- The job arguments, by their `Kind`.
pub data Kind : Type 0 where
  scan_due_recipients digest_kind send_kind alert_kind verify_calendar_access : Kind
  purge_snapshots : Kind

unfoldable pub kind_name : Kind → Text
kind_name scan_due_recipients = codes "scan_due_recipients"
kind_name digest_kind = codes "digest"
kind_name send_kind = codes "send"
kind_name alert_kind = codes "alert"
kind_name verify_calendar_access = codes "verify_calendar_access"
kind_name purge_snapshots = codes "purge_snapshots"

abbrev pub kind_of : Job → Kind
kind_of (digest a) = digest_kind
kind_of (send a) = send_kind
kind_of (alert a) = alert_kind

-- `workerRegistry`, by the kind that each entry adds a worker for, and `NewWorkers`.
abbrev pub worker_registry : List Kind
worker_registry =
    scan_due_recipients ∷ digest_kind ∷ send_kind ∷ alert_kind ∷ verify_calendar_access
    ∷ purge_snapshots ∷ []

abbrev pub new_workers : List Kind
new_workers = worker_registry

pub record PeriodicJob : Type 0 where
  pub interval : ℤ
  pub kind : Kind
  pub run_on_start : Bool

-- `river.Config`: the queues with their numbers of workers.
pub record RiverConfig : Type 0 where
  pub workers : List Kind
  pub queues : List (Text × ℕ)
  pub periodic_jobs : List PeriodicJob

abbrev pub max_workers : ℕ
max_workers = 10

abbrev pub one_day : ℤ
one_day = pos (24 * 3600 * 1000000000)

-- The configuration, and whether the client works jobs.
unfoldable pub works_jobs : Bool
works_jobs = ltb 0 (length worker_registry)

unfoldable pub river_config : Conf → RiverConfig
river_config c =
    if works_jobs
    then record {
      workers = new_workers;
      queues = (codes "default", max_workers) ∷ [];
      periodic_jobs =
          record {
            interval = c.app_conf.tick_interval;
            kind = scan_due_recipients;
            run_on_start = true;
          }
          ∷ record { interval = one_day; kind = verify_calendar_access; run_on_start = true }
          ∷ [];
    }
    else record { workers = new_workers; queues = []; periodic_jobs = [] }

pub record River : Type 0 where
  pub migrator : Bool
  pub migrates_up : Bool
  pub client : RiverConfig → Option Enqueuer
  pub builds_dashboard : Text → Bool
  pub starts_dashboard : Bool
  pub starts : Bool

-- `Client`, with the configuration that River runs by and what the workers share; `ui` is the path
-- of the dashboard.
pub record Client : Type 0 where
  pub config : RiverConfig
  pub ui : Option Text
  pub deps : Deps
  pub works : Bool

module _ (r : River) where
  unfoldable pub build_dashboard : Conf → Act (Option Text)
  build_dashboard c =
      if c.app_conf.river_ui_enabled
      then (if r.builds_dashboard c.app_conf.river_ui_path
          then pure (some c.app_conf.river_ui_path)
          else fail no_dashboard)
      else pure none

  -- The client, once River has built its own.
  unfoldable pub with_river : Conf → Deps → Option Enqueuer → Act Client
  with_river c deps none = fail no_client
  with_river c deps (some q) = build_dashboard c >>= λ ui. pure (record {
    config = river_config c;
    ui = ui;
    deps = record deps { jobs = some q };
    works = works_jobs;
  })

  -- `NewClient`, on the handle of the pool.
  unfoldable pub new_client : ℕ → Conf → Deps → Act Client
  new_client db c deps =
      if r.migrator
      then (if r.migrates_up
          then emit (migrate_river db) >> with_river c deps (r.client (river_config c))
          else fail river_not_migrated)
      else fail no_migrator

  unfoldable pub start_ui : Option Text → Act (Unit {0})
  start_ui none = pure tt
  start_ui (some path) = if r.starts_dashboard then emit start_dashboard else fail not_started

  -- `Client.Start` and `Client.Stop`. The error of `River.Stop` is only logged.
  unfoldable pub start_client : ℕ → Client → Act (Unit {0})
  start_client db c =
      start_ui c.ui
      >> (if c.works
          then (if r.starts then emit (start_river db) else fail not_started)
          else pure tt)

  unfoldable pub stop_client : ℕ → Client → Act (Unit {0})
  stop_client db c = if c.works then emit (stop_river db) else pure tt
