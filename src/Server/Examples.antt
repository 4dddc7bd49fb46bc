-- ===== src/Server/Examples.antt =====
-- Examples of requests, and the dashboard's path that takes the pages out of the access log.
use calendar_digest.Prelude.{true, [], ◌∷◌, ◌++◌, none, some, ◌≡◌, refl, ◌⊎◌, ◌↔◌}
use calendar_digest.Prelude.Chars.{Text, codes, text_eq}
use calendar_digest.Prelude.Affixes.{has_prefix, has_suffix}
use calendar_digest.Config.{Conf, river_ui_path_problem, under_mounted, is_under}
use calendar_digest.Config.Examples.{home_conf}
use calendar_digest.Ui.Serve.{Request, post_digest_now}
use calendar_digest.Ui.Examples.{pages, site}
use calendar_digest.Server.Origins.{new_cross_origin_protection, is_origin}
use calendar_digest.Server.Routes.{HttpRequest, App, page, denied, handle, skip_request_log}
use calendar_digest.Server.Denied.{IsGuarded, Foreign, handle-denied_iff}
use calendar_digest.Server.Writes.{IsDashboard, IsWrite, handle-IsWrite}

abbrev app : App
app = record {
  parse = λ url. some (codes "https", codes "evil.example", []);
  trusted = [];
  pages = pages;
  version = codes "1.0.0";
  has_dashboard = true;
  riverui = λ envelope path queue. [];
}

-- A form of another site that posts to "digest now".
abbrev forged : HttpRequest
forged = record {
  route = page (post_digest_now (codes "1"));
  envelope = record {
    method = codes "POST";
    sec_fetch_site = codes "cross-site";
    origin = codes "https://evil.example";
    host = codes "digest.example";
  };
}

handle-denied_iff_example :
    ((handle app forged site).0.reply ≡ denied)
    ↔ (IsGuarded app forged.route × Foreign app forged.envelope)
handle-denied_iff_example = handle-denied_iff app forged site

handle-IsWrite_example :
    ((handle app forged site).1.world ≡ site.world)
    ⊎ (((path : Text) × IsDashboard app forged site path)
        ⊎ ((r : Request) × IsWrite app forged site r))
handle-IsWrite_example = handle-IsWrite app forged site

origins_test :
    new_cross_origin_protection
      (λ url. some (codes "https", codes "x", codes "/"))
      (codes "https://x/" ∷ [])
    ≡ none
unfolding new_cross_origin_protection is_origin
origins_test = refl

-- The dashboard at "/a".
abbrev short_path : Conf
short_path = record home_conf {
  app_conf = record home_conf.app_conf { river_ui_enabled = true; river_ui_path = codes "/a" };
}

short_path_passes : river_ui_path_problem (codes "/a") ≡ none
unfolding river_ui_path_problem under_mounted is_under has_prefix has_suffix text_eq
short_path_passes = refl

-- No page under /app is in the access log then.
short_path-skips : (rest : Text) → skip_request_log short_path (codes "/app" ++ rest) ≡ true
unfolding skip_request_log text_eq has_prefix
short_path-skips rest = refl
