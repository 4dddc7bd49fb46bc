-- ===== src/Ui/Recipients.antt =====
-- internal/ui/recipients.go: the handlers of recipients. What a request sends is `none` where it
-- cannot be read.
use calendar_digest.Prelude.{ℕ, true, if◌then◌else◌, List, [], ◌++◌, map, Option, none, some}
use calendar_digest.Prelude.Chars.{Text, codes, decimal}
use calendar_digest.Prelude.Words.{is_empty}
use calendar_digest.Clock.Layout.{format_date}
use calendar_digest.Clock.Zone.{Location, in_zone, utc, date_of_time}
use calendar_digest.Calendar.Event.{next_day}
use calendar_digest.Store.Models.{Recipients, NotificationTargets}
use calendar_digest.Store.Recipients.{
  RecipientFields, create_recipient, update_recipient, delete_recipient, list_targets,
}
use calendar_digest.Jobs.Deps.{World, WorkResult, done, retry, cancel, crashed}
use calendar_digest.Ui.Views.{
  Problem, RecipientFormView, no_runner, bad_zone, failed, queued, Response, bad_request, broken,
  form_page, patch_form, patch_capture, redirect,
}
use calendar_digest.Ui.Forms.{target_row, problems}
use calendar_digest.Ui.Pages.{
  Pages, Site, Handler, answer, query_or, with_flash, recipient_from_path, run_digest_now,
}

-- The form with what the visitor typed, and what is wrong with it.
abbrev pub typed : RecipientFormView → RecipientFields → List Problem → RecipientFormView
typed view s found = record view {
  name = s.name;
  calendar_id = s.calendar_id;
  notify_time = s.notify_time;
  tz = s.tz;
  enabled = s.enabled;
  problems = found;
}

abbrev pub new_form : RecipientFormView
new_form = record {
  title = codes "Add recipient";
  id = none;
  name = [];
  calendar_id = [];
  notify_time = codes "21:00";
  tz = codes "Australia/Brisbane";
  enabled = true;
  problems = [];
  targets = [];
}

-- `handleRecipientNew`.
unfoldable pub recipient_new : Handler
recipient_new = answer (form_page new_form)

module _ (p : Pages) where
  unfoldable pub edit_view : Recipients → List NotificationTargets → RecipientFormView
  edit_view r targets = record {
    title = r.name;
    id = some r.id;
    name = r.name;
    calendar_id = r.calendar_id;
    notify_time = r.notify_time;
    tz = r.tz;
    enabled = r.enabled;
    problems = [];
    targets = map (target_row p.addresses) targets;
  }

  -- `handleRecipientEdit`.
  unfoldable pub recipient_edit : Text → Handler
  recipient_edit id = recipient_from_path id λ r. λ s.
      query_or (list_targets r.id s.world.tables) s
        (λ targets. answer (form_page (edit_view r targets)))

  -- `handleRecipientCreate`.
  unfoldable pub recipient_create : Option RecipientFields → Handler
  recipient_create none s = (bad_request, s)
  recipient_create (some f) s =
      let found = problems p.load_location f in
      if is_empty found
      then query_or (create_recipient f s.world.tables) s (λ r. λ s'. (
        redirect (codes "/app/recipients/" ++ decimal r.id),
        with_flash s'
            (codes "Recipient added. It has no channels yet, so it will receive nothing."),
      ))
      else (patch_form (typed new_form f found), s)

  -- `handleRecipientUpdate`, once the recipient is loaded.
  unfoldable pub update_loaded : Option RecipientFields → Recipients → Handler
  update_loaded none r s = (bad_request, s)
  update_loaded (some f) r s =
      let found = problems p.load_location f in
      if is_empty found
      then query_or (update_recipient r.id f s.world.tables) s
          (λ _. λ s'. (redirect (codes "/app"), with_flash s' (codes "Saved.")))
      else query_or (list_targets r.id s.world.tables) s
          (λ targets. answer (patch_form (typed (edit_view r targets) f found)))

  unfoldable pub recipient_update : Text → Option RecipientFields → Handler
  recipient_update id f = recipient_from_path id (update_loaded f)

  -- `handleRecipientDelete`.
  unfoldable pub recipient_delete : Text → Handler
  recipient_delete id = recipient_from_path id λ r. λ s.
      query_or (delete_recipient r.id s.world.tables) s (λ _. λ s'. (
        redirect (codes "/app"),
        with_flash s'
            (codes "Removed " ++ (r.name ++ codes ", along with their captured digests.")),
      ))

  -- The date of the next day in a zone.
  unfoldable pub tomorrow : Location → Text
  tomorrow loc =
      format_date (date_of_time (next_day (in_zone loc (record { sec = p.now; loc = utc }))))

  -- What the handler reports of a run.
  unfoldable pub reported : ℕ → Text → Site → WorkResult × World → Response × Site
  reported id date s (done, w) = (patch_capture id (queued date), record s { world = w })
  reported id date s (retry, w) = (patch_capture id failed, record s { world = w })
  reported id date s (cancel, w) = (patch_capture id failed, record s { world = w })
  reported id date s (crashed, w) = (broken, record s { world = w })

  unfoldable pub digest_now_loaded : Recipients → Handler
  digest_now_loaded r s = elim p.runner [
    | none ↦ (patch_capture r.id no_runner, s)
    | some d ↦ elim (p.load_location r.tz) [
      | none ↦ (patch_capture r.id bad_zone, s)
      | some loc ↦ reported r.id (tomorrow loc) s (
          run_digest_now d
            (record { recipient_id = r.id; digest_date = tomorrow loc; force = true }) s.world)
    ]
  ]

  -- `handleRecipientDigestNow`.
  unfoldable pub recipient_digest_now : Text → Handler
  recipient_digest_now id = recipient_from_path id digest_now_loaded
