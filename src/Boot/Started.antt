-- ===== src/Boot/Started.antt =====
-- `NewApp` of internal/cmd/cmd.go: what a start of the database leaves.
use calendar_digest.Prelude.{
  Bool, true, false, [], ◌∷◌, Option, none, some, ◌≡◌, refl, sym, subst, ◌∙◌, ◌⊎◌, inl, inr,
}
use calendar_digest.Prelude.Chars.{Text}
use calendar_digest.Config.{Conf, LoadError, load}
use calendar_digest.Boot.Effects.{◌>>=◌, pure, deferring, Result, ok, err, crash, Act}
use calendar_digest.Boot.Database.{Disk, migrate_up, new_database_pool, pool_handle}
use calendar_digest.Boot.App.{App, start_database, release, or_release, new_app, migrate_run}
use calendar_digest.Boot.Orderly.{
  Held, follow, follow_one, follow_both, Ends, Any, bind-Ends, then-Ends, at-Ends, deferring-Ends,
}
use calendar_digest.Boot.Handles.{held, IsHandle, migrate_up-Ends, new_database_pool-Ends}

-- Nothing is held before the start.
abbrev pub idle : Held
idle = record { handles = []; migrated = false; running = false; live = false }

-- Nothing is held any more: no handle, no workers, no context.
abbrev pub IsReleased : Held → Type 0
IsReleased h = (h.handles ≡ []) × (h.running ≡ false) × (h.live ≡ false)

abbrev pub up : Held
up = held (pool_handle ∷ []) true false

-- From the handle of the pool on, an error or a panic leaves it as it is.
abbrev pub AtPool : {A : Type 0} → Result A → Held → Type 0
AtPool r h = h ≡ up

abbrev HasPool : App → Type 0
HasPool a = a.db ≡ some pool_handle

-- The states in which the database may be left by a start that fails.
abbrev Started : Result App → Held → Type 0
Started (ok a) h = HasPool a × (h ≡ up)
Started (err e) h = (m : Bool) × (h ≡ held [] m false)
Started crash h = ⊥

start_database-Ends : (d : Disk) (a : App) → Ends (start_database d a) (held [] false false) Started
unfolding start_database follow
start_database-Ends d a =
    then-Ends (migrate_up d a.config.db_name) _ (held [] false false) Any (held [] true false)
      (held [] false false) Started (migrate_up-Ends d a.config.db_name)
      (λ u v.
        then-Ends (new_database_pool d a.config.db_name) _ (held [] true false)
          (IsHandle pool_handle) up (held [] true false) Started
          (new_database_pool-Ends d a.config.db_name) (λ db same. (up, refl, (rw same refl, refl)))
          (λ e. (true, refl)))
      (λ e. (false, refl))

-- An app, with the handle of the pool under a live context; or nothing.
abbrev Built : Result App → Held → Type 0
Built (ok a) h = HasPool a × (h ≡ up)
Built (err e) h = IsReleased h
Built crash h = ⊥

or_release-Ends :
    (a : App) (m : Act App)
    → a.db ≡ none
    → Ends m (held [] false false) Started
    → Ends (or_release a m) idle Built
unfolding or_release follow follow_one release
or_release-Ends a (ok b, es) n (h, e, p) = (h, e, p)
or_release-Ends a (err x, es) n (h, e, (m, p)) = (
  record { handles = []; migrated = m; running = false; live = false },
  follow_both es _ (held [] false false) h e ∙ rw (p, n) refl,
  (refl, refl, refl),
)
or_release-Ends a (crash, es) n (h, e, p) = absurd p

new_app-Ends :
    (d : Disk) (parse_url : Text → Option (Text × Text)) (decoded : Option Conf)
    → Ends (new_app d parse_url decoded) idle Built
unfolding new_app follow
new_app-Ends d parse_url decoded = at_load (load parse_url decoded) refl
  where
    at_load :
        (r : LoadError ⊎ Conf)
        → load parse_url decoded ≡ r
        → Ends (new_app d parse_url decoded) idle Built
    at_load (inl x) e = rw (new_app, e) (idle, refl, (refl, refl, refl))
    at_load (inr c) e = rw (new_app, e) (or_release-Ends _ _ refl (start_database-Ends d _))

-- The deferred `Close`.
close_app : (a : App) → HasPool a → (h : Held) × (follow (release a) up ≡ some h) × IsReleased h
unfolding release follow follow_one
close_app a p = (record up { handles = []; live = false }, rw p refl, (refl, refl, refl))

-- A command that makes an app and defers its `Close` ends with everything given back, when what
-- it does with the app leaves the pool as it was.
pub with_app-Ends :
    {A : Type 0} (d : Disk) (parse_url : Text → Option (Text × Text)) (decoded : Option Conf)
    (f : App → Act A)
    → ((a : App) → Ends (f a) up AtPool)
    → Ends
        (new_app d parse_url decoded >>= λ a. deferring (release a) (f a))
        idle
        (λ r h. IsReleased h)
with_app-Ends d parse_url decoded f leaves =
    bind-Ends (new_app d parse_url decoded) _ idle Built (λ r h. IsReleased h)
      (new_app-Ends d parse_url decoded)
      (λ a h built.
        at-Ends (deferring (release a) (f a)) h up (λ r s. IsReleased s) built.1
          (deferring-Ends (release a) (f a) up AtPool (λ r h. IsReleased h) (leaves a)
            (λ r s at.
              subst (λ x. (h' : Held) × (follow (release a) x ≡ some h') × IsReleased h') (sym at)
                (close_app a built.0))))
      (λ e h p. p) (λ h p. absurd p)

-- `MigrateCmd.Run` too ends with no handle open and no context live, whether it migrated or not.
migrate_run-IsReleased :
    (d : Disk) (parse_url : Text → Option (Text × Text)) (decoded : Option Conf)
    → (h : Held) × (follow (migrate_run d parse_url decoded).1 idle ≡ some h) × IsReleased h
unfolding migrate_run follow
migrate_run-IsReleased d parse_url decoded =
    with_app-Ends d parse_url decoded (λ a. pure tt) (λ a. (up, refl, refl))
