-- ===== src/Boot/Database.antt =====
-- internal/store/pool.go and migrate.go: the connection string, the handles, and the migrations.
-- The driver, goose and the file system are no code of the repository; `Disk` says what they answer.
use calendar_digest.Prelude.{
  ℕ, zero, suc, ◌+◌, ◌==◌, Bool, not, ◌&&◌, if◌then◌else◌, any, List, [], ◌∷◌, ◌++◌,
}
use calendar_digest.Prelude.Chars.{Text, codes, text_eq}
use calendar_digest.Prelude.Words.{is_empty, join}
use calendar_digest.Boot.Effects.{
  make_dir, open_handle, close_handle, ping, migrate, sleep, no_dir, not_opened, wait_cancelled,
  unreachable, no_dialect, not_migrated, no_pool, ok, err, Act, pure, fail, emit, ◌>>=◌, ◌>>◌,
  deferring,
}

-- `DSN`.
abbrev pub pragmas : List Text
pragmas =
    codes "_pragma=busy_timeout(10000)"
    ∷ codes "_pragma=journal_mode(WAL)"
    ∷ codes "_pragma=foreign_keys(1)"
    ∷ codes "_txlock=immediate"
    ∷ []

unfoldable pub dsn : Text → Text
dsn path =
    let sep = if any (λ c. c == b'?') path then codes "&" else codes "?" in
    path ++ (sep ++ join (codes "&") pragmas)

-- `filepath.Dir`; whether a directory can be made, and a handle opened; whether the n-th ping of the
-- wait succeeds, and whether the context is done after it; goose's dialect and its run; and whether
-- the ping of the pool's handle succeeds in time.
pub record Disk : Type 0 where
  pub dir : Text → Text
  pub makes_dir : Text → Bool
  pub opens : Text → Bool
  pub pings : ℕ → Bool
  pub is_done : ℕ → Bool
  pub sets_dialect : Bool
  pub migrates : Bool
  pub pool_pings : Bool

abbrev pub ping_attempts : ℕ
ping_attempts = 30

-- The two handles of a start.
abbrev pub migration_handle : ℕ
migration_handle = 0

abbrev pub pool_handle : ℕ
pool_handle = 1

module _ (d : Disk) where
  abbrev pub after_round : Act ℕ → Act ℕ
  after_round rest = (rest.0, ping migration_handle ∷ sleep ∷ rest.1)

  -- The loop of the wait, with the attempts that are left and the number of the next.
  unfoldable pub wait : ℕ → ℕ → Act ℕ
  wait zero attempt = (err unreachable, close_handle migration_handle ∷ [])
  wait (suc left) attempt =
      let rest = wait left (attempt + 1) in
      if d.pings attempt
      then (ok migration_handle, ping migration_handle ∷ [])
      else if d.is_done attempt
      then (err wait_cancelled, ping migration_handle ∷ close_handle migration_handle ∷ [])
      else after_round rest

  -- The directory of the database, if it is not the current one.
  unfoldable pub make_parent : Text → Act (Unit {0})
  make_parent dir =
      if not (is_empty dir) && not (text_eq dir (codes "."))
      then (if d.makes_dir dir then emit (make_dir dir) else fail no_dir)
      else pure tt

  unfoldable pub prepare_migration_db : Text → Act ℕ
  prepare_migration_db name =
      make_parent (d.dir name)
      >> (if d.opens (dsn name)
          then emit (open_handle migration_handle) >> wait ping_attempts 1
          else fail not_opened)

  -- What runs on the handle once it is there.
  unfoldable pub run_migrations : Act (Unit {0}) → Act (Unit {0})
  run_migrations fn = if d.sets_dialect then fn else fail no_dialect

  -- `migrate`: the run that is passed in, with the handle that is closed behind it.
  unfoldable pub migrate_with : Text → (ℕ → Act (Unit {0})) → Act (Unit {0})
  migrate_with name fn =
      prepare_migration_db name >>= λ db. deferring (close_handle db ∷ []) (run_migrations (fn db))

  -- `goose.Up`, with what `migrate` makes of its error.
  unfoldable pub goose_up : ℕ → Act (Unit {0})
  goose_up db = if d.migrates then emit (migrate db) else fail not_migrated

  unfoldable pub migrate_up : Text → Act (Unit {0})
  migrate_up name = migrate_with name goose_up

  unfoldable pub new_database_pool : Text → Act ℕ
  new_database_pool name =
      if d.opens (dsn name)
      then emit (open_handle pool_handle)
        >> (if d.pool_pings
            then (ok pool_handle, ping pool_handle ∷ [])
            else (err no_pool, ping pool_handle ∷ close_handle pool_handle ∷ []))
      else fail no_pool
