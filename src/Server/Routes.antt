-- ===== src/Server/Routes.antt =====
-- internal/server/routes.go, handlers.go and middleware.go: which handlers stand behind the check of
-- the origin and the session, the headers of every response, and what the access log leaves out. The
-- router is no code of the repository: a request comes with the route that it matched. Nor is the
-- dashboard of River: what it does with the queue at a request to a path under it is the parameter
-- `riverui`.
use calendar_digest.Prelude.{Bool, true, false, not, ◌&&◌, ◌||◌, if◌then◌else◌, List, [], ◌∷◌}
use calendar_digest.Prelude.Chars.{Text, codes, text_eq}
use calendar_digest.Prelude.Words.{is_empty}
use calendar_digest.Prelude.Affixes.{has_prefix}
use calendar_digest.Config.{Conf}
use calendar_digest.Server.Origins.{ParseUrl, Envelope, may_pass}
use calendar_digest.Jobs.Deps.{Job}
use calendar_digest.Ui.Views.{Response}
use calendar_digest.Ui.Pages.{Pages, Site}
use calendar_digest.Ui.Serve.{
  Request, open_home, open_new, post_recipient, open_recipient, drop_recipient, post_digest_now,
  post_update, post_target, post_toggle, post_test, drop_target, open_digest, serve,
}

-- The routes of `Routes`: the files, the endpoints of the API with its documentation, the redirect
-- of "/", a page under /app or /d, the dashboard, or no route.
pub data Route : Type 0 where
  static_file : Text → Route
  healthz version_info api_docs root unknown : Route
  dashboard : Text → Route
  page : Request → Route

pub record HttpRequest : Type 0 where
  pub route : Route
  pub envelope : Envelope

pub data Reply : Type 0 where
  shown : Response → Reply
  file : Text → Reply
  version_is : Text → Reply
  healthy documented to_app mounted not_routed not_allowed denied : Reply

-- A reply with its security headers.
pub record Served : Type 0 where
  pub reply : Reply
  pub headers : List (Text × Text)

-- `App`, with the trusted origins, whether the dashboard is mounted, and the dashboard.
pub record App : Type 0 where
  pub parse : ParseUrl
  pub trusted : List Text
  pub pages : Pages
  pub version : Text
  pub has_dashboard : Bool
  pub riverui : Envelope → Text → List Job → List Job

-- The methods of the tables of routes.
unfoldable pub method_of : Request → Text
method_of open_home = codes "GET"
method_of open_new = codes "GET"
method_of (post_recipient f) = codes "POST"
method_of (open_recipient id) = codes "GET"
method_of (drop_recipient id) = codes "DELETE"
method_of (post_digest_now id) = codes "POST"
method_of (post_update id f) = codes "POST"
method_of (post_target id f) = codes "POST"
method_of (post_toggle id) = codes "POST"
method_of (post_test id) = codes "POST"
method_of (drop_target id) = codes "DELETE"
method_of (open_digest token) = codes "GET"

-- The pages under /d are outside the group.
abbrev pub is_grouped : Request → Bool
is_grouped (open_digest token) = false
is_grouped _ = true

abbrev pub security_headers : List (Text × Text)
security_headers =
    (codes "Referrer-Policy", codes "no-referrer")
    ∷ (codes "X-Content-Type-Options", codes "nosniff")
    ∷ []

abbrev pub with_headers : Reply × Site → Served × Site
with_headers r = (record { reply = r.0; headers = security_headers }, r.1)

abbrev pub says : Reply → Site → Reply × Site
says y s = (y, s)

module _ (a : App) where
  -- A handler of the group: the check of the origin comes first.
  abbrev pub grouped : Envelope → (Site → Reply × Site) → Site → Reply × Site
  grouped e f s = if may_pass a.parse a.trusted e then f s else (denied, s)

  abbrev pub shown_page : Request → Site → Reply × Site
  shown_page r s = let out = serve a.pages r s in (shown out.0, out.1)

  -- A table of routes answers a method that it does not have with 405.
  abbrev pub routed : Request → Envelope → Site → Reply × Site
  routed r e s = if text_eq e.method (method_of r) then shown_page r s else (not_allowed, s)

  abbrev pub get_only : Envelope → (Site → Reply × Site) → Site → Reply × Site
  get_only e f s = if text_eq e.method (codes "GET") then f s else (not_allowed, s)

  -- `UIHandler`, which can cancel and retry jobs.
  abbrev pub at_dashboard : Envelope → Text → Site → Reply × Site
  at_dashboard e path s =
      (mounted, record s { world = record s.world { queue = a.riverui e path s.world.queue } })

  unfoldable pub dispatch : Route → Envelope → Site → Reply × Site
  dispatch (static_file name) e s = (file name, s)
  dispatch healthz e s = get_only e (says healthy) s
  dispatch version_info e s = get_only e (says (version_is a.version)) s
  dispatch api_docs e s = get_only e (says documented) s
  dispatch root e s = get_only e (grouped e (says to_app)) s
  dispatch (dashboard path) e s =
      if a.has_dashboard then grouped e (at_dashboard e path) s else (not_routed, s)
  dispatch unknown e s = (not_routed, s)
  dispatch (page r) e s = if is_grouped r then grouped e (routed r e) s else routed r e s

  -- `Routes`.
  unfoldable pub handle : HttpRequest → Site → Served × Site
  handle q s = with_headers (dispatch q.route q.envelope s)

-- `skipRequestLog`, on the pattern of the route.
unfoldable pub skip_request_log : Conf → Text → Bool
skip_request_log c route =
    if text_eq route (codes "/static/*") || text_eq route (codes "/healthz")
    then true
    else not (is_empty route) && has_prefix route c.app_conf.river_ui_path

-- `httplogOptions`: whether the log is concise, and the headers that it shows.
pub record LogOptions : Type 0 where
  pub concise : Bool
  pub request_headers : List Text
  pub response_headers : List Text

unfoldable pub httplog_options : Conf → LogOptions
httplog_options c =
    let json = c.app_conf.log_json in
    record {
      concise = not json;
      request_headers = if json && c.app_conf.log_request_headers then codes "Origin" ∷ [] else [];
      response_headers =
          if json && c.app_conf.log_response_headers then codes "Content-Type" ∷ [] else [];
    }
