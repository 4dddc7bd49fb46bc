-- ===== src/System/Sound.antt =====
-- The invariant of the database, and that every query of the pages keeps it.
use calendar_digest.Prelude.{
  ℕ, ◌==◌, Bool, true, false, not, ◌&&◌, List, [], ◌∷◌, any, keep_if, All, All-imp, Option, ◌≡◌,
  ◌∙◌, inl, inr, arith, Bool-cases,
}
use calendar_digest.Prelude.Chars.{Text}
use calendar_digest.Clock.Zone.{Location}
use calendar_digest.Store.Models.{Recipients, NotificationTargets, DigestSnapshots}
use calendar_digest.Store.Tables.{Tables, update_rows}
use calendar_digest.Store.Tables.Rows.{any-append, Distinct-keep_if}
use calendar_digest.Store.Snapshots.Consistent.{
  IsConsistent, has_recipient, same_key, same_token, same_id, All-append_one, All-keep_if,
  All-update_rows,
}
use calendar_digest.Store.Recipients.{
  RecipientFields, with_fields, is_recipient, is_target, is_kind, create_recipient,
  update_recipient, delete_recipient, create_target, set_target_enabled, delete_target,
}
use calendar_digest.Digest.Due.{Checked, schedule}

module _ (load_location : Text → Option Location) where
  -- The zone and the notify time of a recipient can be read.
  abbrev pub IsScheduled : Recipients → Type 0
  IsScheduled r = (s : Location × (ℕ × ℕ)) × (schedule load_location r ≡ Checked.ok s)

  -- A target is of a known kind and belongs to a recipient.
  abbrev pub IsOwned : Tables → NotificationTargets → Type 0
  IsOwned t g = (is_kind g.kind ≡ true) × (has_recipient t g.recipient_id ≡ true)

  -- A recipient has one snapshot for a date, a token opens one, every snapshot and every target
  -- belongs to a recipient, and every recipient has a schedule that can be read.
  pub record IsSound (t : Tables) : Type 0 where
    pub consistent : IsConsistent t
    pub scheduled : All IsScheduled t.recipients
    pub targets : All (IsOwned t) t.targets

  -- Adding recipients takes none from its rows.
  with_recipients :
      (t : Tables) (rs : List Recipients)
      → ((id : ℕ) → has_recipient t id ≡ true → any (is_recipient id) rs ≡ true)
      → All IsScheduled rs
      → IsSound t
      → IsSound (record t { recipients = rs })
  with_recipients t rs more h s = record {
    consistent = record {
      keys = s.consistent.keys;
      tokens = s.consistent.tokens;
      ids = s.consistent.ids;
      owned = All-imp _ _ t.snapshots (λ x o. more x.recipient_id o) s.consistent.owned;
    };
    scheduled = h;
    targets = All-imp _ _ t.targets (λ g o. (o.0, more g.recipient_id o.1)) s.targets;
  }

  -- Targets that all belong to somebody.
  with_targets :
      (t : Tables) (gs : List NotificationTargets)
      → All (IsOwned t) gs
      → IsSound t
      → IsSound (record t { targets = gs })
  with_targets t gs h s = record {
    consistent = record {
      keys = s.consistent.keys;
      tokens = s.consistent.tokens;
      ids = s.consistent.ids;
      owned = s.consistent.owned;
    };
    scheduled = s.scheduled;
    targets = h;
  }

  pub create_recipient-IsSound :
      (f : RecipientFields) (t : Tables)
      → ((id : ℕ) → IsScheduled (with_fields id f))
      → IsSound t
      → IsSound (create_recipient f t).1
  unfolding create_recipient
  create_recipient-IsSound f t h s =
      with_recipients t _
        (λ id there. any-append (is_recipient id) t.recipients _ ∙ ground (arith, there))
        (All-append_one IsScheduled t.recipients _ s.scheduled (h _)) s

  pub update_recipient-IsSound :
      (id : ℕ) (f : RecipientFields) (t : Tables)
      → IsScheduled (with_fields id f)
      → IsSound t
      → IsSound (update_recipient id f t).1
  unfolding update_recipient
  update_recipient-IsSound id f t h s =
      with_recipients t _ (λ other there. kept other t.recipients there)
        (All-update_rows IsScheduled (is_recipient id) (λ _. with_fields id f) t.recipients
          (λ r q. h) s.scheduled)
        s
    where
      kept :
          (other : ℕ) (rs : List Recipients)
          → any (is_recipient other) rs ≡ true
          → any (is_recipient other) (update_rows (is_recipient id) (λ _. with_fields id f) rs)
            ≡ true
      kept other [] k = k
      kept other (r ∷ rs) k = ground (arith, kept other rs)

  -- A recipient of another id is still there.
  others_stay :
      (id other : ℕ) (rs : List Recipients)
      → (other == id) ≡ false
      → any (is_recipient other) rs ≡ true
      → any (is_recipient other) (keep_if (λ (r : Recipients). not (r.id == id)) rs) ≡ true
  others_stay id other [] n h = h
  others_stay id other (r ∷ rs) n h = ground (arith, others_stay id other rs)

  module _ {A : Type 0} (owner : A → ℕ) (id : ℕ) (rs : List Recipients) (P : A → Type 0) where
    stay_owned :
        (xs : List A)
        → All (λ x. P x × (any (is_recipient (owner x)) rs ≡ true)) xs
        → All
            (λ x.
              P x
              × (any (is_recipient (owner x)) (keep_if (λ (r : Recipients). not (r.id == id)) rs)
                  ≡ true))
            (keep_if (λ x. not (owner x == id)) xs)
    stay_owned [] h = tt
    stay_owned (x ∷ xs) ((p, o), h) = elim (Bool-cases (owner x == id)) [
      | inl e ↦ rw e (stay_owned xs h)
      | inr e ↦ rw e ((p, others_stay id (owner x) rs e o), stay_owned xs h)
    ]

  pub delete_recipient-IsSound :
      (id : ℕ) (t : Tables) → IsSound t → IsSound (delete_recipient id t).1
  unfolding delete_recipient
  delete_recipient-IsSound id t s =
      let left = λ (x : DigestSnapshots). not (x.recipient_id == id) in
      record {
        consistent = record {
          keys = Distinct-keep_if same_key left t.snapshots s.consistent.keys;
          tokens = Distinct-keep_if same_token left t.snapshots s.consistent.tokens;
          ids = Distinct-keep_if same_id left t.snapshots s.consistent.ids;
          owned =
              All-imp _ _ (keep_if left t.snapshots) (λ x o. o.1)
                (stay_owned (λ (x : DigestSnapshots). x.recipient_id) id t.recipients
                  (λ _. Unit {0}) t.snapshots
                  (All-imp _ _ t.snapshots (λ x o. (tt, o)) s.consistent.owned));
        };
        scheduled = All-keep_if IsScheduled _ t.recipients s.scheduled;
        targets =
            stay_owned (λ (g : NotificationTargets). g.recipient_id) id t.recipients
              (λ g. is_kind g.kind ≡ true) t.targets s.targets;
      }

  pub create_target-IsSound :
      (id : ℕ) (kind config : Text) (enabled : Bool) (t : Tables)
      → IsSound t
      → IsSound (create_target id kind config enabled t).1
  unfolding create_target
  create_target-IsSound id kind config enabled t s =
      elim (Bool-cases (is_kind kind && has_recipient t id)) [
        | inl e ↦ rw e (
            with_targets t _
              (All-append_one (IsOwned t) t.targets _ s.targets
                (ground (arith, e), ground (arith, e)))
              s)
        | inr e ↦ rw e s
      ]

  pub set_target_enabled-IsSound :
      (enabled : Bool) (id : ℕ) (t : Tables)
      → IsSound t
      → IsSound (set_target_enabled enabled id t).1
  unfolding set_target_enabled
  set_target_enabled-IsSound enabled id t s =
      with_targets t _ (All-update_rows (IsOwned t) (is_target id) _ t.targets (λ g o. o) s.targets)
        s

  pub delete_target-IsSound : (id : ℕ) (t : Tables) → IsSound t → IsSound (delete_target id t).1
  unfolding delete_target
  delete_target-IsSound id t s = with_targets t _ (All-keep_if (IsOwned t) _ t.targets s.targets) s
