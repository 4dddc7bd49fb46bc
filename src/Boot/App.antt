-- ===== src/Boot/App.antt =====
-- internal/cmd/cmd.go and migrate_cmd.go: the wiring of the process.
use calendar_digest.Prelude.{ℕ, List, [], ◌∷◌, ◌++◌, Option, none, some, inl, inr}
use calendar_digest.Prelude.Chars.{Text}
use calendar_digest.Config.{Conf, load}
use calendar_digest.Boot.Effects.{
  Effect, make_context, cancel_context, close_handle, bad_config, ok, err, crash, Act, pure, fail,
  ◌>>=◌, ◌>>◌, deferring,
}
use calendar_digest.Boot.Database.{Disk, migrate_up, new_database_pool}

-- `App`, without the logger.
pub record App : Type 0 where
  pub config : Conf
  pub db : Option ℕ

-- `startDatabase`: the app with its handle.
unfoldable pub start_database : Disk → App → Act App
start_database d a =
    migrate_up d a.config.db_name
    >> (new_database_pool d a.config.db_name >>= λ db. pure (record a { db = some db }))

-- `release`.
unfoldable pub release : App → List Effect
release a = cancel_context ∷ elim a.db [ none ↦ [] | some db ↦ close_handle db ∷ [] ]

-- The error path of `NewApp`; the app then has no handle.
unfoldable pub or_release : App → Act App → Act App
or_release a (ok b, es) = (ok b, make_context ∷ es)
or_release a (err e, es) = (err e, make_context ∷ (es ++ release a))
or_release a (crash, es) = (crash, make_context ∷ es)

-- `NewApp`.
unfoldable pub new_app : Disk → (Text → Option (Text × Text)) → Option Conf → Act App
new_app d parse_url decoded = elim (load parse_url decoded) [
  | inl e ↦ fail (bad_config e)
  | inr c ↦ let a : App = record { config = c; db = none } in or_release a (start_database d a)
]

-- `MigrateCmd.Run`, with the deferred `Close`.
unfoldable pub migrate_run : Disk → (Text → Option (Text × Text)) → Option Conf → Act (Unit {0})
migrate_run d parse_url decoded =
    new_app d parse_url decoded >>= λ a. deferring (release a) (pure tt)
