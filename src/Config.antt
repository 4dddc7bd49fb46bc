-- ===== src/Config.antt =====
-- internal/config/config.go: the configuration and what `Load` refuses. The decoding of the
-- environment and `url.Parse` are no code of the repository: `decoded` is what the former gives, and
-- `parse_url` gives a URL's scheme and host.
use calendar_digest.Prelude.{
  ℕ, leb, ltb, ◌==◌, Bool, true, false, not, ◌&&◌, ◌||◌, if◌then◌else◌, List, [], ◌∷◌, ◌++◌, Option,
  none, some, ◌⊎◌, inl, inr,
}
use calendar_digest.Prelude.Chars.{Text, codes, text_eq}
use calendar_digest.Prelude.Words.{is_empty, trim_suffix}
use calendar_digest.Prelude.Ints.{ℤ, pos, negsuc}
use calendar_digest.Prelude.Affixes.{has_prefix, has_suffix}
pub mod Paths
pub mod Loads
pub mod Examples

-- `appConf` and `emailConf`. The level of the log is its number, the interval is in nanoseconds.
pub record AppConf : Type 0 where
  pub env : Text
  pub log_level : ℤ
  pub log_json : Bool
  pub log_response_headers : Bool
  pub log_request_headers : Bool
  pub trusted_origins : List Text
  pub river_ui_enabled : Bool
  pub river_ui_path : Text
  pub tick_interval : ℤ
  pub google_service_account_json : Text
  pub telegram_bot_token : Text
  pub alert_telegram_chat_id : Text
  pub base_url : Text
  pub snapshot_retention_days : ℤ

pub record EmailConf : Type 0 where
  pub provider : Text
  pub from : Text
  pub host : Text
  pub port : ℤ
  pub username : Text
  pub password : Text
  pub account_id : Text
  pub api_token : Text
  pub api_url : Text

-- `Conf`, without the limits that no code reads: the port and the timeouts are those of the server,
-- `db_name` is that of the database, and the lifetime and the flag `Secure` are those of a session.
pub record Conf : Type 0 where
  pub server_port : ℤ
  pub timeout_read : ℤ
  pub timeout_write : ℤ
  pub timeout_idle : ℤ
  pub db_name : Text
  pub session_lifetime : ℤ
  pub session_secure : Bool
  pub app_conf : AppConf
  pub email : EmailConf

-- The problems that `Load` reports.
pub data PathProblem : Type 0 where
  no_slash root trailing_slash : PathProblem
  mounted : Text → PathProblem

pub data UrlProblem : Type 0 where
  not_url no_scheme no_host : UrlProblem

pub data Problem : Type 0 where
  bad_port bad_retention no_origins insecure_cookie : Problem
  bad_path : PathProblem → Problem
  bad_base_url : UrlProblem → Problem

abbrev pub production : Text
production = codes "production"

unfoldable pub is_production : Conf → Bool
is_production c = text_eq c.app_conf.env production

abbrev pub mounted_prefixes : List Text
mounted_prefixes =
    codes "/app"
    ∷ codes "/static"
    ∷ codes "/docs"
    ∷ codes "/healthz"
    ∷ codes "/version"
    ∷ codes "/openapi.json"
    ∷ []

-- A path is a mounted one or lies under it.
unfoldable pub is_under : Text → Text → Bool
is_under path prefix = text_eq path prefix || has_prefix path (prefix ++ codes "/")

-- The loop over the mounted paths.
unfoldable pub under_mounted : Text → List Text → Option PathProblem
under_mounted path [] = none
under_mounted path (prefix ∷ prefixes) =
    let rest = under_mounted path prefixes in
    if is_under path prefix then some (mounted prefix) else rest

unfoldable pub river_ui_path_problem : Text → Option PathProblem
river_ui_path_problem path =
    if not (has_prefix path (codes "/"))
    then some no_slash
    else if text_eq path (codes "/")
    then some root
    else if has_suffix path (codes "/")
    then some trailing_slash
    else under_mounted path mounted_prefixes

unfoldable pub base_url_problem : (Text → Option (Text × Text)) → Text → Option UrlProblem
base_url_problem parse_url value = if is_empty value then none else elim (parse_url value) [
  | none ↦ some not_url
  | some u ↦
      if not (text_eq u.0 (codes "http")) && not (text_eq u.0 (codes "https"))
      then some no_scheme
      else if is_empty u.1
      then some no_host
      else none
]

-- The tests of the two integers.
unfoldable pub port_outside : ℤ → Bool
port_outside (pos n) = ltb n 1 || ltb 65535 n
port_outside (negsuc n) = true

unfoldable pub below_one : ℤ → Bool
below_one (pos n) = ltb n 1
below_one (negsuc n) = true

abbrev pub reported : {A : Type 0} → (A → Problem) → Option A → List Problem
reported f none = []
reported f (some a) = f a ∷ []

abbrev pub when : Bool → Problem → List Problem
when b p = if b then p ∷ [] else []

-- The configuration that the checks of the base URL see, and that `Load` returns.
unfoldable pub trimmed : Conf → Conf
trimmed c = record c {
  app_conf = record c.app_conf { base_url = trim_suffix b'/' c.app_conf.base_url };
}

unfoldable pub problems : (Text → Option (Text × Text)) → Conf → List Problem
problems parse_url c =
    when (port_outside c.server_port) bad_port
    ++ (when (below_one c.app_conf.snapshot_retention_days) bad_retention
        ++ ((if c.app_conf.river_ui_enabled
              then reported bad_path (river_ui_path_problem c.app_conf.river_ui_path)
              else [])
            ++ (reported bad_base_url (base_url_problem parse_url (trimmed c).app_conf.base_url)
                ++ (if is_production c
                    then when (is_empty c.app_conf.trusted_origins) no_origins
                      ++ when (not c.session_secure) insecure_cookie
                    else []))))

-- Why `Load` fails.
pub data LoadError : Type 0 where
  decode : LoadError
  invalid : List Problem → LoadError

-- `Load`: a configuration, or an error.
unfoldable pub load : (Text → Option (Text × Text)) → Option Conf → LoadError ⊎ Conf
load parse_url decoded = elim decoded [
  | none ↦ inl decode
  | some c ↦
      let found = problems parse_url c in
      if is_empty found then inr (trimmed c) else inl (invalid found)
]
