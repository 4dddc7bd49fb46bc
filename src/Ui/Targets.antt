-- ===== src/Ui/Targets.antt =====
-- internal/ui/recipients.go: the handlers of targets.
use calendar_digest.Prelude.{
  ℕ, ◌==◌, not, Bool, true, false, if◌then◌else◌, List, [], ◌∷◌, map, Option, none, some,
}
use calendar_digest.Prelude.Chars.{Text}
use calendar_digest.Prelude.Words.{is_empty}
use calendar_digest.Clock.Layout.{format_date}
use calendar_digest.Clock.Zone.{in_zone, utc, date_of_time}
use calendar_digest.Store.Models.{Recipients, DigestSnapshots}
use calendar_digest.Store.Tables.{Tables}
use calendar_digest.Store.Tx.{ok, err, panic}
use calendar_digest.Store.Recipients.{
  get_recipient, list_targets, create_target, set_target_enabled, delete_target,
}
use calendar_digest.Store.Snapshots.{list_latest_snapshots, find_snapshot_by_token}
use calendar_digest.Jobs.Deps.{Digest, notifier_for}
use calendar_digest.Ui.Views.{
  failed, sent, not_wired, bad_request, server_error, silent, broken, patch_targets, patch_row,
  remove_row,
}
use calendar_digest.Ui.Forms.{address_key, target_row}
use calendar_digest.Ui.Pages.{
  Pages, Handler, answer, query_or, zone_or_utc, recipient_from_path, target_from_path,
}

pub record TargetFields : Type 0 where
  pub kind : Text
  pub address : Text

module _ (p : Pages) where
  -- `patchTargets`: a list that cannot be read is logged only.
  unfoldable pub show_targets : ℕ → Bool → Handler
  show_targets id problem s = elim (list_targets id s.world.tables).0 [
    | ok targets ↦ (patch_targets id (map (target_row p.addresses) targets) problem, s)
    | err e ↦ (silent, s)
    | panic ↦ (broken, s)
  ]

  unfoldable pub create_loaded : Option TargetFields → Recipients → Handler
  create_loaded none r s = (bad_request, s)
  create_loaded (some f) r s = elim (address_key f.kind) [
    | none ↦ show_targets r.id true s
    | some key ↦
        if is_empty f.address then show_targets r.id true s else elim (p.marshal key f.address) [
          | none ↦ (server_error, s)
          | some config ↦
              query_or (create_target r.id f.kind config true s.world.tables) s
                (λ _. show_targets r.id false)
        ]
  ]

  -- `handleTargetCreate`.
  unfoldable pub target_create : Text → Option TargetFields → Handler
  target_create id f = recipient_from_path id (create_loaded f)

  -- `handleTargetToggle`.
  unfoldable pub target_toggle : Text → Handler
  target_toggle id = target_from_path id λ t. λ s.
      query_or (set_target_enabled (not t.enabled) t.id s.world.tables) s
        (λ _. answer (patch_row (target_row p.addresses (record t { enabled = not t.enabled }))))

  -- `handleTargetDelete`.
  unfoldable pub target_delete : Text → Handler
  target_delete id =
      target_from_path id
        λ t. λ s. query_or (delete_target t.id s.world.tables) s (λ _. answer (remove_row t.id))

  -- The first of the latest snapshots that is the recipient's.
  unfoldable pub latest_of : ℕ → List DigestSnapshots → Option DigestSnapshots
  latest_of id [] = none
  latest_of id (s ∷ rest) =
      let later = latest_of id rest in if s.recipient_id == id then some s else later

  -- The date in the recipient's zone, or in UTC where it has none.
  unfoldable pub today : Recipients → Text
  today r =
      let loc = zone_or_utc p.load_location r.tz in
      format_date (date_of_time (in_zone loc (record { sec = p.now; loc = utc })))

  -- `testDigest`: `none` is an error.
  unfoldable pub test_digest : ℕ → Tables → Option Digest
  test_digest id t = elim (get_recipient id t).0 [
    | err e ↦ none
    | panic ↦ none
    | ok r ↦ elim (list_latest_snapshots t).0 [
      | err e ↦ none
      | panic ↦ none
      | ok latest ↦ elim (latest_of id latest) [
        | none ↦ some (record { recipient_name = r.name; date = today r; token = []; events = [] })
        | some s ↦ elim (find_snapshot_by_token s.token t).0 [
          | err e ↦ none
          | panic ↦ none
          | ok full ↦ elim (p.decode full.events) [
            | none ↦ none
            | some events ↦ some (record {
              recipient_name = r.name;
              date = full.digest_date;
              token = full.token;
              events = events;
            })
          ]
        ]
      ]
    ]
  ]

  -- `handleTargetTest`.
  unfoldable pub target_test : Text → Handler
  target_test id = target_from_path id λ t. λ s.
      let row = target_row p.addresses t in
      elim (notifier_for t.kind p.notifiers) [
        | none ↦ (patch_row (record row { status = not_wired t.kind }), s)
        | some notify ↦ elim (test_digest t.recipient_id s.world.tables) [
          | none ↦ (server_error, s)
          | some d ↦
              (patch_row (record row { status = if notify t.config d then sent else failed }), s)
        ]
      ]
