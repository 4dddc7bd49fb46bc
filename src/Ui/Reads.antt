-- ===== src/Ui/Reads.antt =====
-- The requests that only read.
use calendar_digest.Prelude.{Bool, true, false, ◌≡◌, refl, inl, inr, Option-cases}
use calendar_digest.Prelude.Chars.{Text}
use calendar_digest.Prelude.Ints.{pos, negsuc, parse_int}
use calendar_digest.Store.Models.{Recipients, NotificationTargets, DigestSnapshots}
use calendar_digest.Store.Tx.{
  Outcome, ok, err, panic, no_rows, constraint, begin_failed, commit_failed, enqueue_failed,
}
use calendar_digest.Store.Recipients.{
  get_recipient, list_targets, list_recipients, list_all_targets,
}
use calendar_digest.Store.Snapshots.{list_latest_snapshots, list_unnotified_snapshots_before}
use calendar_digest.Jobs.Deps.{notifier_for}
use calendar_digest.Ui.Pages.{
  Pages, Site, Handler, loaded, query_or, recipient_from_path, target_from_path,
}
use calendar_digest.Ui.Recipients.{recipient_new, recipient_edit}
use calendar_digest.Ui.Targets.{test_digest, target_test}
use calendar_digest.Ui.Home.{home}
use calendar_digest.Ui.Detail.{show_snapshot, digest_view, digest_detail}
use calendar_digest.Ui.Serve.{
  Request, open_home, open_new, post_recipient, open_recipient, drop_recipient, post_digest_now,
  post_update, post_target, post_toggle, post_test, drop_target, open_digest, serve,
}

-- The pages, and the delivery of a test.
abbrev pub is_read : Request → Bool
is_read open_home = true
is_read open_new = true
is_read (open_recipient id) = true
is_read (post_test id) = true
is_read (open_digest token) = true
is_read _ = false

abbrev Keeps : Handler → Type 0
Keeps f = (s : Site) → (f s).1.world ≡ s.world

loaded-Keeps :
    {A : Type 0} (o : Outcome A) (f : A → Handler) → ((a : A) → Keeps (f a)) → Keeps (loaded o f)
loaded-Keeps (ok a) f k s = k a s
loaded-Keeps (err no_rows) f k s = refl
loaded-Keeps (err constraint) f k s = refl
loaded-Keeps (err begin_failed) f k s = refl
loaded-Keeps (err commit_failed) f k s = refl
loaded-Keeps (err enqueue_failed) f k s = refl
loaded-Keeps panic f k s = refl

query_or-Keeps :
    {A : Type 0} (o : Outcome A) (f : A → Handler) (s : Site)
    → ((a : A) → Keeps (f a))
    → (query_or (o, s.world.tables) s f).1.world ≡ s.world
query_or-Keeps (ok a) f s k = k a s
query_or-Keeps (err e) f s k = refl
query_or-Keeps panic f s k = refl

recipient_from_path-Keeps :
    (id : Text) (f : Recipients → Handler)
    → ((r : Recipients) → Keeps (f r))
    → Keeps (recipient_from_path id f)
unfolding recipient_from_path
recipient_from_path-Keeps id f k s = elim (Option-cases (parse_int id)) [
  | inl e ↦ rw (e, recipient_from_path) refl
  | inr (pos n, e) ↦ rw (e, recipient_from_path) (loaded-Keeps _ f k s)
  | inr (negsuc n, e) ↦ rw (e, recipient_from_path) refl
]

target_from_path-Keeps :
    (id : Text) (f : NotificationTargets → Handler)
    → ((t : NotificationTargets) → Keeps (f t))
    → Keeps (target_from_path id f)
unfolding target_from_path
target_from_path-Keeps id f k s = elim (Option-cases (parse_int id)) [
  | inl e ↦ rw (e, target_from_path) refl
  | inr (pos n, e) ↦ rw (e, target_from_path) (loaded-Keeps _ f k s)
  | inr (negsuc n, e) ↦ rw (e, target_from_path) refl
]

module _ (p : Pages) where
  target_test-Keeps : (id : Text) → Keeps (target_test p id)
  unfolding target_test
  target_test-Keeps id = target_from_path-Keeps id _ (λ t s.
      elim (Option-cases (notifier_for t.kind p.notifiers)) [
        | inl e ↦ rw (e, target_test) refl
        | inr (notify, e) ↦ elim (Option-cases (test_digest p t.recipient_id s.world.tables)) [
          | inl d ↦ rw (e, d, target_test) refl
          | inr (d, q) ↦ rw (e, q, target_test) refl
        ]
      ])

  show_snapshot-Keeps : (x : DigestSnapshots) → Keeps (show_snapshot p x)
  unfolding show_snapshot get_recipient
  show_snapshot-Keeps x s =
      query_or-Keeps (get_recipient x.recipient_id s.world.tables).0 _ s (λ r s'.
        elim (Option-cases (p.decode x.events)) [
          | inl e ↦ rw (e, show_snapshot) refl
          | inr (events, e) ↦ elim (Option-cases (digest_view p r x events)) [
            | inl v ↦ rw (e, v, show_snapshot) refl
            | inr (view, v) ↦ rw (e, v, show_snapshot) refl
          ]
        ])

  -- Showing a page, and delivering a test, leaves the tables and the job queue as they are: no test
  -- marks a digest as delivered.
  pub serve_keeps :
      (request : Request) (s : Site)
      → is_read request ≡ true
      → (serve p request s).1.world ≡ s.world
  unfolding serve recipient_new recipient_edit list_targets home list_recipients list_all_targets
      list_latest_snapshots list_unnotified_snapshots_before digest_detail
  serve_keeps open_home s h = refl
  serve_keeps open_new s h = refl
  serve_keeps (open_recipient id) s h = recipient_from_path-Keeps id _ (λ r s'. refl) s
  serve_keeps (post_test id) s h = target_test-Keeps id s
  serve_keeps (open_digest token) s h = loaded-Keeps _ (show_snapshot p) show_snapshot-Keeps s
  serve_keeps (post_recipient f) s h = cc
  serve_keeps (drop_recipient id) s h = cc
  serve_keeps (post_digest_now id) s h = cc
  serve_keeps (post_update id f) s h = cc
  serve_keeps (post_target id f) s h = cc
  serve_keeps (post_toggle id) s h = cc
  serve_keeps (drop_target id) s h = cc
