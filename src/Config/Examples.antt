-- ===== src/Config/Examples.antt =====
-- Examples of configurations, and the dashboard's path that passes the check though the router
-- mounts the detail pages there.
use calendar_digest.Prelude.{true, false, [], Option, none, some, ◌≡◌, refl, ◌↔◌, inr}
use calendar_digest.Prelude.Chars.{Text, codes, text_eq}
use calendar_digest.Prelude.Ints.{pos}
use calendar_digest.Prelude.Affixes.{has_prefix, has_suffix}
use calendar_digest.Config.{Conf, load, trimmed, is_under, under_mounted, river_ui_path_problem}
use calendar_digest.Config.Loads.{IsValid, load-IsValid}

abbrev pub home_conf : Conf
home_conf = record {
  server_port = pos 9898;
  timeout_read = pos 5000000000;
  timeout_write = pos 10000000000;
  timeout_idle = pos 15000000000;
  db_name = codes "database/data.db";
  session_lifetime = pos 604800000000000;
  session_secure = false;
  app_conf = record {
    env = codes "development";
    log_level = pos 0;
    log_json = false;
    log_response_headers = false;
    log_request_headers = true;
    trusted_origins = [];
    river_ui_enabled = false;
    river_ui_path = codes "/riverui";
    tick_interval = pos 300000000000;
    google_service_account_json = [];
    telegram_bot_token = [];
    alert_telegram_chat_id = [];
    base_url = codes "https://x/";
    snapshot_retention_days = pos 90;
  };
  email = record {
    provider = codes "smtp";
    from = codes "d@x";
    host = codes "mail";
    port = pos 587;
    username = [];
    password = [];
    account_id = [];
    api_token = [];
    api_url = [];
  };
}

abbrev pub parse_any : Text → Option (Text × Text)
parse_any value = some (codes "https", codes "x")

load-IsValid_example : (load parse_any (some home_conf) ≡ inr (trimmed home_conf)) ↔ (
    (c : Conf) × (some home_conf ≡ some c) × IsValid parse_any c × (trimmed home_conf ≡ trimmed c))
load-IsValid_example = load-IsValid parse_any (some home_conf) (trimmed home_conf)

detail_path_passes : river_ui_path_problem (codes "/d") ≡ none
unfolding river_ui_path_problem under_mounted is_under has_prefix has_suffix text_eq
detail_path_passes = refl
