-- ===== src/Boot/Run.antt =====
-- `ServeCmd.Run` of internal/cmd/serve_cmd.go, with `New`, `Start`, `Stop` and `Serve` of
-- internal/server/server.go.
use calendar_digest.Prelude.{ℕ, Bool, ◌||◌, if◌then◌else◌, List, [], ◌∷◌, Option, none, some}
use calendar_digest.Prelude.Chars.{Text}
use calendar_digest.Prelude.Words.{is_empty}
use calendar_digest.Clock.Zone.{Location}
use calendar_digest.Calendar.Event.{Event}
use calendar_digest.Store.Tx.{Conn}
use calendar_digest.Config.{Conf}
use calendar_digest.Jobs.Deps.{Deps, CalendarClient}
use calendar_digest.Deliver.Senders.{Outside, alert}
use calendar_digest.Deliver.Notifiers.{build_notifiers}
use calendar_digest.Server.Origins.{ParseUrl, new_cross_origin_protection}
use calendar_digest.Boot.Effects.{
  serve_http, no_calendar, not_served, Result, ok, err, crash, Act, pure, fail, ◌>>=◌, ◌>>◌,
  deferring,
}
use calendar_digest.Boot.Database.{Disk, pool_handle}
use calendar_digest.Boot.Client.{River, Client, new_client, start_client, stop_client}
use calendar_digest.Boot.App.{new_app, release}

pub data ServeError : Type 0 where
  canceled failed : ServeError

-- What the process runs on. The fields from `conn` to `token` are those of `Deps` that are no choice
-- of the program; `google` builds the calendar client from a credential; `builds_router` says whether
-- chi takes the mounts, by the path of the dashboard; `listen` and `shutdown` are the errors of the
-- two goroutines of `Serve`, without `http.ErrServerClosed`.
pub record Machine : Type 0 where
  pub disk : Disk
  pub river : River
  pub outside : Outside
  pub parse_base_url : Text → Option (Text × Text)
  pub parse_url : ParseUrl
  pub decoded : Option Conf
  pub google : Text → Option CalendarClient
  pub conn : Conn
  pub load_location : Text → Option Location
  pub now : ℕ
  pub encode : List Event → Text
  pub decode : Text → Option (List Event)
  pub token : Text
  pub builds_router : Option Text → Bool
  pub listen : Option ServeError
  pub shutdown : Option ServeError

module _ (m : Machine) where
  -- `jobDeps`; a field that the literal does not name is zero, and `NewClient` fills `Jobs`.
  unfoldable pub job_deps : Conf → Option CalendarClient → Deps
  job_deps c calendar = record {
    conn = m.conn;
    load_location = m.load_location;
    calendar = calendar;
    notifiers = build_notifiers m.outside c;
    now = m.now;
    snapshot_retention_days = 0;
    jobs = none;
    encode = m.encode;
    decode = m.decode;
    token = m.token;
  }

  -- The calendar client, where there is a credential.
  unfoldable pub calendar_for : Conf → Act (Option CalendarClient)
  calendar_for c =
      if is_empty c.app_conf.google_service_account_json
      then pure none
      else elim (m.google c.app_conf.google_service_account_json) [
        | none ↦ fail no_calendar
        | some client ↦ pure (some client)
      ]

  -- The alerter, from a subject and a detail.
  unfoldable pub alerter_for : Conf → Option (Text → Text → Bool)
  alerter_for c =
      let token = c.app_conf.telegram_bot_token in
      let chat = c.app_conf.alert_telegram_chat_id in
      if is_empty token || is_empty chat then none else some (alert m.outside token chat)

  -- `server.New`, which panics at an origin that is none.
  unfoldable pub new_server : Conf → Act (List Text)
  new_server c = elim (new_cross_origin_protection m.parse_url c.app_conf.trusted_origins) [
    | none ↦ (crash, [])
    | some trusted ↦ pure trusted
  ]

  -- The error of `g.Wait`, the first of the two.
  abbrev pub first_error : Option ServeError → Option ServeError → Option ServeError
  first_error none later = later
  first_error (some e) later = some e

  abbrev pub serve_result : Option ServeError → Result (Unit {0})
  serve_result none = ok tt
  serve_result (some canceled) = ok tt
  serve_result (some failed) = err not_served

  -- `Serve`; the router is built first, and a path that is mounted twice panics.
  unfoldable pub app_serve : Client → Act (Unit {0})
  app_serve client =
      if m.builds_router client.ui
      then (serve_result (first_error m.listen m.shutdown), serve_http ∷ [])
      else (crash, [])

  -- What `Run` does once there is a job client.
  unfoldable pub run_server : Conf → Client → Act (Unit {0})
  run_server c client =
      new_server c
      >> (start_client m.river pool_handle client
          >> deferring (stop_client m.river pool_handle client).1 (app_serve client))

  -- The client that `Run` builds.
  unfoldable pub boot_client : Conf → Act Client
  boot_client c =
      calendar_for c >>= λ calendar. new_client m.river pool_handle c (job_deps c calendar)

  -- `ServeCmd.Run`.
  unfoldable pub serve_run : Act (Unit {0})
  serve_run = new_app m.disk m.parse_base_url m.decoded >>= λ a.
      deferring (release a) (boot_client a.config >>= run_server a.config)
