-- ===== src/System/Kept.antt =====
-- Every query of the workers keeps the invariant of the database.
use calendar_digest.Prelude.{
  ℕ, true, not, ◌||◌, any, All, Option, ◌≡◌, refl, sym, subst, inl, inr, Bool-cases,
}
use calendar_digest.Prelude.Chars.{Text}
use calendar_digest.Clock.Zone.{Location}
use calendar_digest.Store.Models.{NotificationTargets}
use calendar_digest.Store.Tables.{Tables}
use calendar_digest.Store.Preserves.{Preserves, IsKept}
use calendar_digest.Store.Snapshots.{
  has_key, has_token, insert_snapshot_if_absent, replace_snapshot_events, set_notified_at,
  purge_snapshots_before,
}
use calendar_digest.Store.Snapshots.Consistent.{
  IsConsistent, has_recipient, insert_snapshot_if_absent-IsConsistent,
  replace_snapshot_events-IsConsistent, set_notified_at-IsConsistent,
  purge_snapshots_before-IsConsistent,
}
use calendar_digest.Store.Recipients.{is_recipient, is_kind}
use calendar_digest.System.Sound.{IsScheduled, IsOwned, IsSound}

module _ (load_location : Text → Option Location) where
  -- Queries that write snapshots or flags only.
  with_snapshots :
      (t : Tables) (t' : Tables)
      → t'.recipients ≡ t.recipients
      → t'.targets ≡ t.targets
      → IsConsistent t'
      → IsSound load_location t
      → IsSound load_location t'
  with_snapshots t t' r g c s = record {
    consistent = c;
    scheduled = subst (All (IsScheduled load_location)) (sym r) s.scheduled;
    targets =
        subst (λ gs. All (IsOwned load_location t') gs) (sym g)
          (subst
            (λ rs.
              All
                (λ (x : NotificationTargets).
                  (is_kind x.kind ≡ true) × (any (is_recipient x.recipient_id) rs ≡ true))
                t.targets)
            (sym r) s.targets);
  }

  insert_keeps :
      (id : ℕ) (date token events at : Text) (t : Tables)
      → ((insert_snapshot_if_absent id date token events at t).1.recipients ≡ t.recipients)
        × ((insert_snapshot_if_absent id date token events at t).1.targets ≡ t.targets)
  unfolding insert_snapshot_if_absent
  insert_keeps id date token events at t = elim (Bool-cases (any (has_key id date) t.snapshots)) [
    | inl old ↦ rw old (refl, refl)
    | inr new ↦ elim (Bool-cases (any (has_token token) t.snapshots || not (has_recipient t id))) [
      | inl bad ↦ rw (new, bad) (refl, refl)
      | inr good ↦ rw (new, good) (refl, refl)
    ]
  ]

  -- The queries of the workers.
  pub IsSound-IsKept : IsKept (IsSound load_location)
  unfolding replace_snapshot_events set_notified_at
  IsSound-IsKept = record {
    on_state = λ t rows s.
        with_snapshots t (record t { app_state = rows }) refl refl
          (record {
            keys = s.consistent.keys;
            tokens = s.consistent.tokens;
            ids = s.consistent.ids;
            owned = s.consistent.owned;
          })
          s;
    on_insert = λ id date token events at t s.
        let (r, g) = insert_keeps id date token events at t in
        with_snapshots t _ r g
          (insert_snapshot_if_absent-IsConsistent id date token events at t s.consistent) s;
    on_replace = λ events at id date t s.
        with_snapshots t _ refl refl
          (replace_snapshot_events-IsConsistent events at id date t s.consistent) s;
    on_told = λ at id t s.
        with_snapshots t _ refl refl (set_notified_at-IsConsistent at id t s.consistent) s;
  }

  pub purge-IsSound :
      (date : Text) → Preserves (IsSound load_location) (purge_snapshots_before date)
  unfolding purge_snapshots_before
  purge-IsSound date t s =
      with_snapshots t _ refl refl (purge_snapshots_before-IsConsistent date t s.consistent) s
