-- ===== src/System/Served.antt =====
-- Every request leaves the database sound.
use calendar_digest.Prelude.{
  ℕ, Bool, true, false, not, Option, none, some, inl, inr, Bool-cases, Option-cases,
}
use calendar_digest.Prelude.Chars.{Text}
use calendar_digest.Prelude.Words.{is_empty}
use calendar_digest.Store.Models.{Recipients, DigestSnapshots}
use calendar_digest.Store.Recipients.{
  RecipientFields, get_recipient, list_targets, list_recipients, list_all_targets,
}
use calendar_digest.Store.Snapshots.{list_latest_snapshots, list_unnotified_snapshots_before}
use calendar_digest.Jobs.Deps.{
  Deps, World, DigestArgs, notifier_for, WorkResult, done, retry, cancel, crashed,
}
use calendar_digest.Jobs.Preserves.{capture-Preserves}
use calendar_digest.Ui.Forms.{problems, address_key}
use calendar_digest.Ui.Accepts.{problems-IsAccepted, IsAccepted-schedule}
use calendar_digest.Ui.Pages.{Pages, Site, run_digest_now}
use calendar_digest.Ui.Recipients.{
  recipient_new, recipient_edit, recipient_create, update_loaded, recipient_update,
  recipient_delete, reported, digest_now_loaded, recipient_digest_now,
}
use calendar_digest.Ui.Targets.{
  TargetFields, show_targets, create_loaded, target_create, target_toggle, target_delete,
  test_digest, target_test,
}
use calendar_digest.Ui.Home.{home}
use calendar_digest.Ui.Detail.{show_snapshot, digest_view, digest_detail}
use calendar_digest.Ui.Serve.{
  Request, open_home, open_new, post_recipient, open_recipient, drop_recipient, post_digest_now,
  post_update, post_target, post_toggle, post_test, drop_target, open_digest, serve,
}
use calendar_digest.System.Sound.{
  IsSound, create_recipient-IsSound, update_recipient-IsSound, delete_recipient-IsSound,
  create_target-IsSound, set_target_enabled-IsSound, delete_target-IsSound,
}
use calendar_digest.System.Kept.{IsSound-IsKept}
use calendar_digest.System.Answers.{
  IsSoundSite, KeepsSound, query_or-IsSoundSite, loaded-KeepsSound, recipient_from_path-KeepsSound,
  target_from_path-KeepsSound,
}

module _ (p : Pages) where
  recipient_edit-KeepsSound : (id : Text) → KeepsSound p (recipient_edit p id)
  unfolding recipient_edit list_targets
  recipient_edit-KeepsSound id = recipient_from_path-KeepsSound p id _ (λ r s h. h)

  recipient_create-KeepsSound : (f : Option RecipientFields) → KeepsSound p (recipient_create p f)
  unfolding recipient_create
  recipient_create-KeepsSound none s h = h
  recipient_create-KeepsSound (some f) s h =
      elim (Bool-cases (is_empty (problems p.load_location f))) [
        | inr e ↦ rw e h
        | inl e ↦
            let a = (problems-IsAccepted p.load_location f).0 e in
            rw e (
              query_or-IsSoundSite p _ s _
                (create_recipient-IsSound p.load_location f s.world.tables
                  (λ id. IsAccepted-schedule p.load_location f id a) h)
                (λ r s' k. k))
      ]

  recipient_update-KeepsSound :
      (id : Text) (f : Option RecipientFields) → KeepsSound p (recipient_update p id f)
  unfolding recipient_update update_loaded list_targets
  recipient_update-KeepsSound id none = recipient_from_path-KeepsSound p id _ (λ r s h. h)
  recipient_update-KeepsSound id (some f) = recipient_from_path-KeepsSound p id _ (λ r s h.
      elim (Bool-cases (is_empty (problems p.load_location f))) [
        | inr e ↦ rw e h
        | inl e ↦
            let a = (problems-IsAccepted p.load_location f).0 e in
            rw e (
              query_or-IsSoundSite p _ s _
                (update_recipient-IsSound p.load_location r.id f s.world.tables
                  (IsAccepted-schedule p.load_location f r.id a) h)
                (λ r' s' k. k))
      ])

  recipient_delete-KeepsSound : (id : Text) → KeepsSound p (recipient_delete p id)
  unfolding recipient_delete
  recipient_delete-KeepsSound id = recipient_from_path-KeepsSound p id _ (λ r s h.
      query_or-IsSoundSite p _ s _ (delete_recipient-IsSound p.load_location r.id s.world.tables h)
        (λ _ s' k. k))

  reported-IsSoundSite :
      (id : ℕ) (date : Text) (s : Site) (r : WorkResult × World)
      → IsSound p.load_location r.1.tables
      → IsSoundSite p (reported p id date s r).1
  unfolding reported
  reported-IsSoundSite id date s (done, w) h = h
  reported-IsSoundSite id date s (retry, w) h = h
  reported-IsSoundSite id date s (cancel, w) h = h
  reported-IsSoundSite id date s (crashed, w) h = h

  run_digest_now-IsSound :
      (d : Deps) (a : DigestArgs) (w : World)
      → IsSound p.load_location w.tables
      → IsSound p.load_location (run_digest_now d a w).1.tables
  unfolding run_digest_now
  run_digest_now-IsSound d a w h = elim (Option-cases d.calendar) [
    | inl e ↦ rw (e, run_digest_now) h
    | inr (client, e) ↦
        rw (e, run_digest_now)
          (capture-Preserves (IsSound p.load_location) (IsSound-IsKept p.load_location) d a w h)
  ]

  recipient_digest_now-KeepsSound : (id : Text) → KeepsSound p (recipient_digest_now p id)
  unfolding recipient_digest_now digest_now_loaded
  recipient_digest_now-KeepsSound id = recipient_from_path-KeepsSound p id _ (λ r s h.
      elim (Option-cases p.runner) [
        | inl e ↦ rw (e, digest_now_loaded) h
        | inr (d, e) ↦ elim (Option-cases (p.load_location r.tz)) [
          | inl l ↦ rw (e, l, digest_now_loaded) h
          | inr (loc, l) ↦
              rw (e, l, digest_now_loaded)
                (reported-IsSoundSite r.id _ s _ (run_digest_now-IsSound d _ s.world h))
        ]
      ])

  show_targets-KeepsSound : (id : ℕ) (problem : Bool) → KeepsSound p (show_targets p id problem)
  unfolding show_targets list_targets
  show_targets-KeepsSound id problem s h = h

  create_loaded-KeepsSound :
      (f : Option TargetFields) (r : Recipients) → KeepsSound p (create_loaded p f r)
  unfolding create_loaded
  create_loaded-KeepsSound none r s h = h
  create_loaded-KeepsSound (some f) r s h = elim (Option-cases (address_key f.kind)) [
    | inl e ↦ rw (e, create_loaded) (show_targets-KeepsSound r.id true s h)
    | inr (key, e) ↦ elim (Bool-cases (is_empty f.address)) [
      | inl n ↦ rw (e, create_loaded) (rw n (show_targets-KeepsSound r.id true s h))
      | inr n ↦ elim (Option-cases (p.marshal key f.address)) [
        | inl m ↦ rw (e, create_loaded) (rw n (rw (m, create_loaded) h))
        | inr (config, m) ↦
            rw (e, create_loaded)
              (rw n (
                rw (m, create_loaded)
                  (query_or-IsSoundSite p _ s _
                    (create_target-IsSound p.load_location r.id f.kind config true s.world.tables h)
                    (λ _. show_targets-KeepsSound r.id false))))
      ]
    ]
  ]

  target_toggle-KeepsSound : (id : Text) → KeepsSound p (target_toggle p id)
  unfolding target_toggle
  target_toggle-KeepsSound id = target_from_path-KeepsSound p id _ (λ t s h.
      query_or-IsSoundSite p _ s _
        (set_target_enabled-IsSound p.load_location (not t.enabled) t.id s.world.tables h)
        (λ _ s' k. k))

  target_delete-KeepsSound : (id : Text) → KeepsSound p (target_delete p id)
  unfolding target_delete
  target_delete-KeepsSound id = target_from_path-KeepsSound p id _ (λ t s h.
      query_or-IsSoundSite p _ s _ (delete_target-IsSound p.load_location t.id s.world.tables h)
        (λ _ s' k. k))

  target_test-KeepsSound : (id : Text) → KeepsSound p (target_test p id)
  unfolding target_test
  target_test-KeepsSound id = target_from_path-KeepsSound p id _ (λ t s h.
      elim (Option-cases (notifier_for t.kind p.notifiers)) [
        | inl e ↦ rw (e, target_test) h
        | inr (notify, e) ↦ elim (Option-cases (test_digest p t.recipient_id s.world.tables)) [
          | inl d ↦ rw (e, d, target_test) h
          | inr (d, q) ↦ rw (e, q, target_test) h
        ]
      ])

  home-KeepsSound : KeepsSound p (home p)
  unfolding home list_recipients list_all_targets list_latest_snapshots
      list_unnotified_snapshots_before
  home-KeepsSound s h = h

  show_snapshot-KeepsSound : (x : DigestSnapshots) → KeepsSound p (show_snapshot p x)
  unfolding show_snapshot get_recipient
  show_snapshot-KeepsSound x s h =
      query_or-IsSoundSite p (get_recipient x.recipient_id s.world.tables) s _ h (λ r s' k.
        elim (Option-cases (p.decode x.events)) [
          | inl e ↦ rw (e, show_snapshot) k
          | inr (events, e) ↦ elim (Option-cases (digest_view p r x events)) [
            | inl v ↦ rw (e, v, show_snapshot) k
            | inr (view, v) ↦ rw (e, v, show_snapshot) k
          ]
        ])

  digest_detail-KeepsSound : (token : Text) → KeepsSound p (digest_detail p token)
  unfolding digest_detail
  digest_detail-KeepsSound token s h =
      loaded-KeepsSound p _ (show_snapshot p) show_snapshot-KeepsSound s h

  -- A request, of any kind, leaves the database sound.
  pub serve-KeepsSound : (request : Request) → KeepsSound p (serve p request)
  unfolding serve recipient_new target_create
  serve-KeepsSound open_home = home-KeepsSound
  serve-KeepsSound open_new = λ s h. h
  serve-KeepsSound (post_recipient f) = recipient_create-KeepsSound f
  serve-KeepsSound (open_recipient id) = recipient_edit-KeepsSound id
  serve-KeepsSound (drop_recipient id) = recipient_delete-KeepsSound id
  serve-KeepsSound (post_digest_now id) = recipient_digest_now-KeepsSound id
  serve-KeepsSound (post_update id f) = recipient_update-KeepsSound id f
  serve-KeepsSound (post_target id f) =
      recipient_from_path-KeepsSound p id _ (create_loaded-KeepsSound f)
  serve-KeepsSound (post_toggle id) = target_toggle-KeepsSound id
  serve-KeepsSound (post_test id) = target_test-KeepsSound id
  serve-KeepsSound (drop_target id) = target_delete-KeepsSound id
  serve-KeepsSound (open_digest token) = digest_detail-KeepsSound token
