-- ===== src/Store/Snapshots/Upsert.antt =====
-- `UpsertSnapshot`: who writes the row, and that an existing row stays as it is.
use calendar_digest.Prelude.{
  Bool, true, false, ◌||◌, not, [], ◌∷◌, ◌++◌, none, some, any, ◌≡◌, sym, subst, arith, Bool-cases,
  inl, inr,
}
use calendar_digest.Prelude.Chars.{Text, text_eq_refl}
use calendar_digest.Store.Models.{DigestSnapshots}
use calendar_digest.Store.Tables.{Tables, next_id, first_row}
use calendar_digest.Store.Tables.Rows.{first_row-some, first_row-any, first_row-append}
use calendar_digest.Store.Tx.{Outcome, ok, err, constraint, panic}
use calendar_digest.Store.Snapshots.{
  has_key, has_token, get_snapshot_for_date, insert_snapshot_if_absent, UpsertSnapshotParams,
  upsert_body,
}
use calendar_digest.Store.Snapshots.Consistent.{has_recipient, or_left, or_right}

-- Where the recipient has a snapshot for the date, the upsert returns it, says that it did not
-- write it, and changes nothing.
pub upsert_existing :
    (token : Text) (arg : UpsertSnapshotParams) (t : Tables) (s : DigestSnapshots)
    → first_row (has_key arg.recipient_id arg.digest_date) t.snapshots ≡ some s
    → upsert_body token arg t ≡ (ok (s, false), t)
unfolding upsert_body insert_snapshot_if_absent get_snapshot_for_date
upsert_existing token arg t s h =
    let (there, _) = first_row-some (has_key arg.recipient_id arg.digest_date) t.snapshots s h in
    rw (there, h)

-- The recipient exists and has no snapshot for the date, and the token is new.
record IsFresh (token : Text) (arg : UpsertSnapshotParams) (t : Tables) : Type 0 where
  absent : any (has_key arg.recipient_id arg.digest_date) t.snapshots ≡ false
  new_token : any (has_token token) t.snapshots ≡ false
  owner : has_recipient t arg.recipient_id ≡ true

abbrev row_of : Text → UpsertSnapshotParams → Tables → DigestSnapshots
row_of token arg t = record {
  id = next_id (λ (s : DigestSnapshots). s.id) t.snapshots;
  recipient_id = arg.recipient_id;
  digest_date = arg.digest_date;
  token = token;
  events = arg.events;
  created_at = arg.created_at;
  notified_at = none;
}

-- With a new token and an existing recipient that has no snapshot for the date, the upsert appends
-- one row, returns it, and says that it wrote it.
upsert_fresh :
    (token : Text) (arg : UpsertSnapshotParams) (t : Tables)
    → IsFresh token arg t
    → upsert_body token arg t ≡ (
      ok (row_of token arg t, true),
      record t { snapshots = t.snapshots ++ row_of token arg t ∷ [] },
    )
unfolding upsert_body insert_snapshot_if_absent get_snapshot_for_date
upsert_fresh token arg t f =
    rw (f.absent, f.new_token, f.owner)
      (rw (
        first_row-append (has_key arg.recipient_id arg.digest_date) t.snapshots (row_of token arg t)
          f.absent (ground (arith, text_eq_refl arg.digest_date))))

upsert_refused :
    (token : Text) (arg : UpsertSnapshotParams) (t : Tables)
    → any (has_key arg.recipient_id arg.digest_date) t.snapshots ≡ false
    → (any (has_token token) t.snapshots || not (has_recipient t arg.recipient_id)) ≡ true
    → upsert_body token arg t ≡ (err constraint, t)
unfolding upsert_body insert_snapshot_if_absent get_snapshot_for_date
upsert_refused token arg t h k = rw (h, k)

abbrev pub HasRow : UpsertSnapshotParams → Outcome (DigestSnapshots × Bool) × Tables → Type 0
HasRow arg (ok (s, b), t) =
    first_row (has_key arg.recipient_id arg.digest_date) t.snapshots ≡ some s
HasRow arg (err e, t) = Unit
HasRow arg (panic, t) = Unit

pub upsert-HasRow :
    (token : Text) (arg : UpsertSnapshotParams) (t : Tables) → HasRow arg (upsert_body token arg t)
upsert-HasRow token arg t =
    let p = has_key arg.recipient_id arg.digest_date in
    elim (Bool-cases (any p t.snapshots)) [
      | inl there ↦
          let (s, found, _) = first_row-any p t.snapshots there in
          subst (HasRow arg) (sym (upsert_existing token arg t s found)) found
      | inr absent ↦
          elim (Bool-cases
            (any (has_token token) t.snapshots || not (has_recipient t arg.recipient_id))) [
              | inl bad ↦ subst (HasRow arg) (sym (upsert_refused token arg t absent bad)) tt
              | inr good ↦
                  let f : IsFresh token arg t = record {
                    absent = absent;
                    new_token = or_left _ _ good;
                    owner = or_right _ _ good;
                  } in
                  subst (HasRow arg) (sym (upsert_fresh token arg t f)) (
                    first_row-append p t.snapshots (row_of token arg t) absent
                      (ground (arith, text_eq_refl arg.digest_date)))
            ]
    ]

-- After an upsert that returned a row, every later upsert for the same recipient and date returns
-- that row, says that it did not write it, and changes nothing, whatever it carries.
upsert_twice :
    (token token' : Text) (arg arg' : UpsertSnapshotParams) (t t' : Tables) (s : DigestSnapshots)
    (b : Bool)
    → arg'.recipient_id ≡ arg.recipient_id
    → arg'.digest_date ≡ arg.digest_date
    → upsert_body token arg t ≡ (ok (s, b), t')
    → upsert_body token' arg' t' ≡ (ok (s, false), t')
upsert_twice token token' arg arg' t t' s b same_id same_date e =
    upsert_existing token' arg' t' s
      (rw (same_id, same_date) (subst (HasRow arg) e (upsert-HasRow token arg t)))
