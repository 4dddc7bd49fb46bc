-- ===== src/Store/Snapshots/Consistent.antt =====
-- The invariant of digest_snapshots, and that every query keeps it.
use calendar_digest.Prelude.{
  ℕ, ◌==◌, Bool, true, false, ◌&&◌, ◌||◌, not, List, [], ◌∷◌, ◌++◌, none, any, keep_if, All, ◌≡◌,
  refl, arith, Bool-cases, inl, inr,
}
use calendar_digest.Prelude.Chars.{Text, text_eq}
use calendar_digest.Store.Models.{DigestSnapshots, Recipients}
use calendar_digest.Store.Tables.{Tables, next_id, update_rows}
use calendar_digest.Store.Tables.Rows.{
  Distinct, Distinct-append, Distinct-keep_if, Distinct-update_rows, next_id-fresh,
}
use calendar_digest.Store.Snapshots.{
  has_key, has_token, refreshed, is_untold, told, is_since, replace_snapshot_events,
  insert_snapshot_if_absent, purge_snapshots_before, set_notified_at,
}

abbrev pub same_key : DigestSnapshots → DigestSnapshots → Bool
same_key a b = (a.recipient_id == b.recipient_id) && text_eq a.digest_date b.digest_date

abbrev pub same_token : DigestSnapshots → DigestSnapshots → Bool
same_token a b = text_eq a.token b.token

abbrev pub same_id : DigestSnapshots → DigestSnapshots → Bool
same_id a b = a.id == b.id

abbrev pub has_recipient : Tables → ℕ → Bool
has_recipient t id = any (λ (r : Recipients). r.id == id) t.recipients

-- A recipient has one snapshot for a date, a token opens one snapshot, ids are distinct, and every
-- snapshot belongs to a recipient.
pub record IsConsistent (t : Tables) : Type 0 where
  pub keys : Distinct same_key t.snapshots
  pub tokens : Distinct same_token t.snapshots
  pub ids : Distinct same_id t.snapshots
  pub owned : All (λ (s : DigestSnapshots). has_recipient t s.recipient_id ≡ true) t.snapshots

module _ {A : Type 0} (P : A → Type 0) where
  pub All-append_one : (xs : List A) (y : A) → All P xs → P y → All P (xs ++ y ∷ [])
  All-append_one [] y h p = (p, tt)
  All-append_one (x ∷ xs) y (hx, h) p = (hx, All-append_one xs y h p)

  pub All-keep_if : (q : A → Bool) (xs : List A) → All P xs → All P (keep_if q xs)
  All-keep_if q [] h = tt
  All-keep_if q (x ∷ xs) (hx, h) = elim (Bool-cases (q x)) [
    | inl e ↦ rw e (hx, All-keep_if q xs h)
    | inr e ↦ rw e (All-keep_if q xs h)
  ]

  pub All-update_rows :
      (q : A → Bool) (f : A → A) (xs : List A)
      → ((x : A) → P x → P (f x))
      → All P xs
      → All P (update_rows q f xs)
  All-update_rows q f [] k h = tt
  All-update_rows q f (x ∷ xs) k (hx, h) = elim (Bool-cases (q x)) [
    | inl e ↦ rw e (k x hx, All-update_rows q f xs k h)
    | inr e ↦ rw e (hx, All-update_rows q f xs k h)
  ]

abbrev new_row : Tables → ℕ → Text → Text → Text → Text → DigestSnapshots
new_row t id date token events created_at = record {
  id = next_id (λ (s : DigestSnapshots). s.id) t.snapshots;
  recipient_id = id;
  digest_date = date;
  token = token;
  events = events;
  created_at = created_at;
  notified_at = none;
}

pub or_left : (a b : Bool) → (a || not b) ≡ false → a ≡ false
or_left a b h = ground arith

pub or_right : (a b : Bool) → (a || not b) ≡ false → b ≡ true
or_right a b h = ground arith

-- Inserting keeps the invariant, whether it writes a row, finds one or is refused.
pub insert_snapshot_if_absent-IsConsistent :
    (id : ℕ) (date token events created_at : Text) (t : Tables)
    → IsConsistent t
    → IsConsistent (insert_snapshot_if_absent id date token events created_at t).1
unfolding insert_snapshot_if_absent
insert_snapshot_if_absent-IsConsistent id date token events created_at t c =
    elim (Bool-cases (any (has_key id date) t.snapshots)) [
      | inl old ↦ rw old c
      | inr new ↦
          elim (Bool-cases (any (has_token token) t.snapshots || not (has_recipient t id))) [
            | inl bad ↦ rw (new, bad) c
            | inr good ↦
                rw (new, good)
                  (record {
                    keys = Distinct-append same_key t.snapshots row c.keys new;
                    tokens = Distinct-append same_token t.snapshots row c.tokens (or_left _ _ good);
                    ids =
                        Distinct-append same_id t.snapshots row c.ids
                          (next_id-fresh (λ (s : DigestSnapshots). s.id) t.snapshots);
                    owned =
                        All-append_one
                          (λ (s : DigestSnapshots). has_recipient t s.recipient_id ≡ true)
                          t.snapshots row c.owned
                          (or_right (any (has_token token) t.snapshots) _ good);
                  })
          ]
    ]
  where
    row : DigestSnapshots
    row = new_row t id date token events created_at

-- A refresh of a snapshot's events keeps the invariant.
pub replace_snapshot_events-IsConsistent :
    (events created_at : Text) (id : ℕ) (date : Text) (t : Tables)
    → IsConsistent t
    → IsConsistent (replace_snapshot_events events created_at id date t).1
unfolding replace_snapshot_events
replace_snapshot_events-IsConsistent events created_at id date t c = record {
  keys =
      Distinct-update_rows same_key (has_key id date) (refreshed events created_at) t.snapshots
        (λ x y. refl) (λ x y. refl) c.keys;
  tokens =
      Distinct-update_rows same_token (has_key id date) (refreshed events created_at) t.snapshots
        (λ x y. refl) (λ x y. refl) c.tokens;
  ids =
      Distinct-update_rows same_id (has_key id date) (refreshed events created_at) t.snapshots
        (λ x y. refl) (λ x y. refl) c.ids;
  owned =
      All-update_rows (λ (s : DigestSnapshots). has_recipient t s.recipient_id ≡ true)
        (has_key id date) (refreshed events created_at) t.snapshots (λ x h. h) c.owned;
}

pub set_notified_at-IsConsistent :
    (at : Text) (id : ℕ) (t : Tables) → IsConsistent t → IsConsistent (set_notified_at at id t).1
unfolding set_notified_at
set_notified_at-IsConsistent at id t c = record {
  keys =
      Distinct-update_rows same_key (is_untold id) (told at) t.snapshots (λ x y. refl) (λ x y. refl)
        c.keys;
  tokens =
      Distinct-update_rows same_token (is_untold id) (told at) t.snapshots (λ x y. refl)
        (λ x y. refl) c.tokens;
  ids =
      Distinct-update_rows same_id (is_untold id) (told at) t.snapshots (λ x y. refl) (λ x y. refl)
        c.ids;
  owned =
      All-update_rows (λ (s : DigestSnapshots). has_recipient t s.recipient_id ≡ true)
        (is_untold id) (told at) t.snapshots (λ x h. h) c.owned;
}

pub purge_snapshots_before-IsConsistent :
    (date : Text) (t : Tables) → IsConsistent t → IsConsistent (purge_snapshots_before date t).1
unfolding purge_snapshots_before
purge_snapshots_before-IsConsistent date t c = record {
  keys = Distinct-keep_if same_key (is_since date) t.snapshots c.keys;
  tokens = Distinct-keep_if same_token (is_since date) t.snapshots c.tokens;
  ids = Distinct-keep_if same_id (is_since date) t.snapshots c.ids;
  owned =
      All-keep_if (λ (s : DigestSnapshots). has_recipient t s.recipient_id ≡ true) (is_since date)
        t.snapshots c.owned;
}
