-- ===== src/Boot/Examples.antt =====
-- Examples of a start.
use calendar_digest.Prelude.{◌*◌, ltb, true, false, [], ◌∷◌, All, none, some, ◌≡◌, ◌≢◌, refl}
use calendar_digest.Prelude.Chars.{codes, text_eq}
use calendar_digest.Prelude.Words.{join, trim_suffix}
use calendar_digest.Store.Examples.{stored}
use calendar_digest.Jobs.Deps.{retry}
use calendar_digest.Jobs.Capture.Stored.{HasSnapshot}
use calendar_digest.System.Runs.{purge_old, scan_due, work}
use calendar_digest.Config.Examples.{home_conf, parse_any}
use calendar_digest.Deliver.Examples.{outside}
use calendar_digest.Jobs.Examples.{takes_all}
use calendar_digest.Boot.Effects.{
  err, not_served, make_context, cancel_context, make_dir, open_handle, close_handle, ping, migrate,
  migrate_river, start_river, stop_river, sleep, serve_http,
}
use calendar_digest.Boot.Database.{
  Disk, dsn, wait, ping_attempts, migrate_up, migrate_with, prepare_migration_db, make_parent,
  run_migrations, goose_up, new_database_pool,
}
use calendar_digest.Boot.App.{new_app, or_release, start_database, release}
use calendar_digest.Server.Origins.{new_cross_origin_protection}
use calendar_digest.Config.{
  load, problems, port_outside, below_one, base_url_problem, trimmed, is_production,
  river_ui_path_problem,
}
use calendar_digest.Boot.Client.{
  River, Client, PeriodicJob, purge_snapshots, river_config, new_client, with_river,
  build_dashboard, works_jobs, start_client, start_ui, stop_client,
}
use calendar_digest.Boot.Run.{
  Machine, failed, boot_client, calendar_for, job_deps, app_serve, run_server, new_server,
  serve_run,
}
use calendar_digest.Boot.Orderly.{Held, follow}
use calendar_digest.Boot.Wait.{HasWaited, wait-HasWaited}
use calendar_digest.Boot.Started.{idle, IsReleased}
use calendar_digest.Boot.Released.{serve_run-IsReleased}
use calendar_digest.Boot.Retention.{boot_client-keeps}

-- The database answers at the third ping.
abbrev disk : Disk
disk = record {
  dir = λ path. codes "database";
  makes_dir = λ path. true;
  opens = λ dsn. true;
  pings = λ n. ltb 2 n;
  is_done = λ n. false;
  sets_dialect = true;
  migrates = true;
  pool_pings = true;
}

abbrev river : River
river = record {
  migrator = true;
  migrates_up = true;
  client = λ config. some takes_all;
  builds_dashboard = λ path. true;
  starts_dashboard = true;
  starts = true;
}

-- The server is stopped by a signal, and its shutdown runs out of time.
abbrev machine : Machine
machine = record {
  disk = disk;
  river = river;
  outside = outside;
  parse_base_url = parse_any;
  parse_url = λ url. none;
  decoded = some home_conf;
  google = λ credential. none;
  conn = record { begins = true; commits = true };
  load_location = λ tz. none;
  now = 739832 * 86400;
  encode = λ events. codes "[]";
  decode = λ text. some [];
  token = codes "t2";
  builds_router = λ ui. true;
  listen = none;
  shutdown = some failed;
}

serve_run_test : serve_run machine ≡ (
  err not_served,
  make_context
      ∷ make_dir (codes "database")
      ∷ open_handle 0
      ∷ ping 0
      ∷ sleep
      ∷ ping 0
      ∷ sleep
      ∷ ping 0
      ∷ migrate 0
      ∷ close_handle 0
      ∷ open_handle 1
      ∷ ping 1
      ∷ migrate_river 1
      ∷ start_river 1
      ∷ serve_http
      ∷ stop_river 1
      ∷ cancel_context
      ∷ close_handle 1
      ∷ [],
)
unfolding serve_run new_app load problems port_outside below_one base_url_problem trimmed
    is_production river_ui_path_problem or_release start_database migrate_up migrate_with
    prepare_migration_db make_parent wait run_migrations goose_up new_database_pool release
    boot_client calendar_for new_client with_river build_dashboard works_jobs run_server new_server
    new_cross_origin_protection start_client start_ui app_serve stop_client trim_suffix text_eq
serve_run_test = refl

serve_run-IsReleased_example :
    (h : Held) × (follow (serve_run machine).1 idle ≡ some h) × IsReleased h
serve_run-IsReleased_example = serve_run-IsReleased machine

wait-HasWaited_example : HasWaited disk ping_attempts 1 (wait disk ping_attempts 1)
wait-HasWaited_example = wait-HasWaited disk ping_attempts 1

dsn_test :
    dsn (codes "x.db?mode=ro")
    ≡ codes
        "x.db?mode=ro&_pragma=busy_timeout(10000)&_pragma=journal_mode(WAL)&_pragma=foreign_keys(1)&_txlock=immediate"
unfolding dsn join
dsn_test = refl

abbrev client : Client
client = record {
  config = river_config home_conf;
  ui = none;
  deps = record (job_deps machine home_conf none) { jobs = some takes_all };
  works = true;
}

boot_client-keeps_example :
    All (λ (p : PeriodicJob). p.kind ≢ purge_snapshots) client.config.periodic_jobs
    × (work client.deps purge_old (record { tables = stored; queue = [] })
        ≡ (retry, record { tables = stored; queue = [] }))
    × HasSnapshot 1
        (codes "2026-08-05")
        (work client.deps scan_due (record { tables = stored; queue = [] })).1
unfolding boot_client calendar_for new_client with_river build_dashboard works_jobs text_eq
boot_client-keeps_example =
    boot_client-keeps machine home_conf client scan_due 1 (codes "2026-08-05")
      (record { tables = stored; queue = [] }) refl refl
