-- ===== src/Boot/Effects.antt =====
-- What starting and stopping the process does outside of itself, as a list of effects, and Go's
-- error returns, panics and `defer` over it.
use calendar_digest.Prelude.{ℕ, List, [], ◌∷◌, ◌++◌}
use calendar_digest.Prelude.Chars.{Text}
use calendar_digest.Config.{LoadError}

-- A number names a handle of the database. `migrate` is goose's, `migrate_river` is River's.
pub data Effect : Type 0 where
  make_context cancel_context : Effect
  make_dir : Text → Effect
  open_handle close_handle ping migrate migrate_river start_river stop_river : ℕ → Effect
  sleep start_dashboard serve_http : Effect

pub data BootError : Type 0 where
  bad_config : LoadError → BootError
  no_dir not_opened wait_cancelled unreachable no_dialect not_migrated : BootError
  no_pool no_calendar no_migrator river_not_migrated no_client no_dashboard : BootError
  not_started not_served : BootError

pub data Result (A : Type 0) : Type 0 where
  ok : A → Result A
  err : BootError → Result A
  crash : Result A

-- An action with its effects, the first one first.
abbrev pub Act : Type 0 → Type 0
Act A = Result A × List Effect

abbrev pub pure : {A : Type 0} → A → Act A
pure a = (ok a, [])

abbrev pub fail : {A : Type 0} → BootError → Act A
fail e = (err e, [])

abbrev pub emit : Effect → Act (Unit {0})
emit e = (ok tt, e ∷ [])

abbrev pub continue : {A B : Type 0} → Result A → List Effect → (A → Act B) → Act B
continue (ok a) before f = ((f a).0, before ++ (f a).1)
continue (err e) before f = (err e, before)
continue crash before f = (crash, before)

infixl 5 ◌>>=◌ ◌>>◌
abbrev pub ◌>>=◌ : {A B : Type 0} → Act A → (A → Act B) → Act B
m >>= f = continue m.0 m.1 f

abbrev pub ◌>>◌ : {A B : Type 0} → Act A → Act B → Act B
m >> n = m >>= λ _. n

-- `defer`: the effects come last however the action ends.
abbrev pub deferring : {A : Type 0} → List Effect → Act A → Act A
deferring after m = (m.0, m.1 ++ after)
