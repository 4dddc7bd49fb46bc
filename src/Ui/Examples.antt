-- ===== src/Ui/Examples.antt =====
-- Examples of the pages: a site with one recipient, one target and one snapshot.
use calendar_digest.Prelude.{
  ◌*◌, ◌+◌, true, false, List, [], ◌∷◌, ◌++◌, any, none, some, ◌≡◌, refl, ◌⊎◌, arith,
}
use calendar_digest.Prelude.Chars.{codes, decimal, text_eq}
use calendar_digest.Prelude.Words.{split_on, trim_space, trim_right, trim_left, is_space}
use calendar_digest.Clock.Layout.{parse_clock, read_clock, check_clock, getnum, skip, at_end}
use calendar_digest.Clock.Zone.{utc, Time, day_seconds}
use calendar_digest.Calendar.Ids.{ids}
use calendar_digest.Store.Models.{NotificationTargets}
use calendar_digest.Store.Tx.{ok}
use calendar_digest.Store.Recipients.{RecipientFields, with_fields, get_target}
use calendar_digest.Store.Snapshots.{has_token}
use calendar_digest.Store.Examples.{ana, ana_mail, wednesday, stored, stored-IsConsistent}
use calendar_digest.Digest.Due.{Checked, ScheduleError, next_run}
use calendar_digest.Ui.Views.{Problem, not_found, redirect, form_page}
use calendar_digest.Ui.Accepts.{IsAccepted}
use calendar_digest.Ui.Pages.{Pages, Site}
use calendar_digest.Ui.Recipients.{edit_view, recipient_create, recipient_edit}
use calendar_digest.Ui.Targets.{TargetFields, create_loaded}
use calendar_digest.Ui.Home.{recipient_row, read_now, next_run_text}
use calendar_digest.Ui.Detail.{digest_detail}
use calendar_digest.Ui.Opens.{IsOpened, digest_detail-opens}
use calendar_digest.Ui.Creates.{
  IsAddressed, new_id, recipient_create-opens, create_target-IsAddressed,
}
use calendar_digest.Ui.Told.{recipient_row-told}

abbrev pub pages : Pages
pages = record {
  base_url = codes "https://x";
  now = 739832 * day_seconds + 77400;
  load_location = λ tz. some utc;
  zone_name = λ loc at. codes "UTC";
  notifiers = (codes "email", λ config d. true) ∷ [];
  runner = none;
  marshal = λ field value. some value;
  addresses = λ config. none;
  decode = λ text. some [];
}

abbrev pub site : Site
site = record { world = record { tables = stored; queue = [] }; flash = [] }

abbrev pub bo : RecipientFields
bo = record {
  name = codes "Bo";
  calendar_id = codes "b@x";
  notify_time = codes "21:00";
  tz = codes "UTC";
  enabled = true;
}

bo-IsAccepted : IsAccepted pages.load_location bo
unfolding ids split_on trim_space trim_right trim_left is_space parse_clock read_clock check_clock
    getnum skip at_end
bo-IsAccepted = record {
  named = refl;
  calendars = refl;
  time = ((21, 0), refl);
  zone_given = refl;
  zone = (utc, refl);
}

digest_detail-opens_example :
    ((any (has_token (codes "t1")) site.world.tables.snapshots ≡ false)
      × (digest_detail pages (codes "t1") site ≡ (not_found, site)))
    ⊎ IsOpened pages site (codes "t1")
digest_detail-opens_example = digest_detail-opens pages site (codes "t1") stored-IsConsistent

recipient_create-opens_example :
    (targets : List NotificationTargets) × ((recipient_create pages (some bo) site).0
      ≡ redirect (codes "/app/recipients/" ++ decimal (new_id site)))
    × ((recipient_edit pages (decimal (new_id site)) (recipient_create pages (some bo) site).1).0
        ≡ form_page (edit_view pages (with_fields (new_id site) bo) targets))
recipient_create-opens_example = recipient_create-opens pages bo site bo-IsAccepted (omega arith)

abbrev mail_target : TargetFields
mail_target = record { kind = codes "email"; address = codes "ana@x" }

create_target-IsAddressed_example :
    (g : NotificationTargets) × ((get_target g.id
        (create_loaded pages (some mail_target) ana site).1.world.tables).0
      ≡ ok g)
    × (g.recipient_id ≡ 1)
    × (g.kind ≡ codes "email")
    × (g.enabled ≡ true)
    × IsAddressed (λ field config. some config) (codes "email") g.config (codes "ana@x")
unfolding text_eq
create_target-IsAddressed_example =
    create_target-IsAddressed pages (λ field config. some config) mail_target ana site
      (λ field value. (value, refl, refl)) refl refl refl

recipient_row-told_example :
    ((next : Time) × (next_run pages.load_location (read_now pages) ana ≡ Checked.ok next)
      × ((recipient_row pages ana (ana_mail ∷ []) (some wednesday)).next_run
          ≡ next_run_text pages (Checked.ok next))
      × ((recipient_row pages ana (ana_mail ∷ []) (some wednesday)).schedule_problem ≡ none))
    ⊎ ((e : ScheduleError) × (x : Problem) × (next_run pages.load_location (read_now pages) ana
          ≡ Checked.err e)
        × ((recipient_row pages ana (ana_mail ∷ []) (some wednesday)).next_run ≡ [])
        × ((recipient_row pages ana (ana_mail ∷ []) (some wednesday)).schedule_problem ≡ some x))
recipient_row-told_example = recipient_row-told pages ana (ana_mail ∷ []) (some wednesday)
