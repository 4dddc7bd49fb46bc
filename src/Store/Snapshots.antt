-- ===== src/Store/Snapshots.antt =====
-- internal/store/snapshots.sql.go and snapshots.go: the queries on digest_snapshots and the helpers
-- over them. `NewToken` draws from the system's random numbers: its result is the argument `token`.

pub mod Consistent
pub mod Upsert
pub mod Notified
pub mod Keys
pub mod Diary
use calendar_digest.Prelude.{
  ℕ, ◌+◌, ◌==◌, ltb, Bool, true, false, not, ◌&&◌, ◌||◌, if◌then◌else◌, List, [], ◌∷◌, ◌++◌, map,
  Option, none, some, keep_if, any, ◌≡◌, refl,
}
use calendar_digest.Prelude.Chars.{Text, text_eq, text_lt}
use calendar_digest.Prelude.Sorting.{sort_by}
use calendar_digest.Store.Models.{DigestSnapshots, SnapshotKey, Recipients}
use calendar_digest.Store.Tables.{Tables, next_id, first_row, update_rows, count_rows, scan_one}
use calendar_digest.Store.Tx.{
  Body, Outcome, ok, err, constraint, Conn, ensure_tx, pure, continue, ◌>>=◌, ◌>>◌,
}

abbrev pub has_token : Text → DigestSnapshots → Bool
has_token token s = text_eq s.token token

-- The row is that of a recipient's date.
abbrev pub has_key : ℕ → Text → DigestSnapshots → Bool
has_key id date s = (s.recipient_id == id) && text_eq s.digest_date date

unfoldable pub find_snapshot_by_token : Text → Body Tables DigestSnapshots
find_snapshot_by_token token t = (scan_one (first_row (has_token token) t.snapshots), t)

unfoldable pub get_snapshot_for_date : ℕ → Text → Body Tables DigestSnapshots
get_snapshot_for_date id date t = (scan_one (first_row (has_key id date) t.snapshots), t)

abbrev pub refreshed : Text → Text → DigestSnapshots → DigestSnapshots
refreshed events created_at s = record s {
  events = events;
  created_at = created_at;
  notified_at = none;
}

unfoldable pub replace_snapshot_events : Text → Text → ℕ → Text → Body Tables ℕ
replace_snapshot_events events created_at id date t = (
  ok (count_rows (has_key id date) t.snapshots),
  record t { snapshots = update_rows (has_key id date) (refreshed events created_at) t.snapshots },
)

-- ON CONFLICT (recipient_id, digest_date) DO NOTHING; else the token has to be new and the
-- recipient has to exist. The result is the number of rows written.
unfoldable pub insert_snapshot_if_absent : ℕ → Text → Text → Text → Text → Body Tables ℕ
insert_snapshot_if_absent id date token events created_at t =
    if any (has_key id date) t.snapshots
    then (ok 0, t)
    else if any (has_token token) t.snapshots
        || not (any (λ (r : Recipients). r.id == id) t.recipients)
    then (err constraint, t)
    else (
      ok 1,
      record t {
        snapshots =
            t.snapshots
            ++ record {
              id = next_id (λ (s : DigestSnapshots). s.id) t.snapshots;
              recipient_id = id;
              digest_date = date;
              token = token;
              events = events;
              created_at = created_at;
              notified_at = none;
            }
              ∷ [];
      },
    )

-- The row's date is the latest of its recipient.
is_latest : List DigestSnapshots → DigestSnapshots → Bool
is_latest all s = not (
    any
      (λ (o : DigestSnapshots).
        (o.recipient_id == s.recipient_id) && text_lt s.digest_date o.digest_date)
      all)

unfoldable pub list_latest_snapshots : Body Tables (List DigestSnapshots)
unfolding is_latest
list_latest_snapshots t = (ok (keep_if (is_latest t.snapshots) t.snapshots), t)

abbrev pub key_of : DigestSnapshots → SnapshotKey
key_of s = record { recipient_id = s.recipient_id; digest_date = s.digest_date }

-- ORDER BY digest_date, recipient_id.
abbrev pub key_before : DigestSnapshots → DigestSnapshots → Bool
key_before a b =
    text_lt a.digest_date b.digest_date
    || (text_eq a.digest_date b.digest_date && ltb a.recipient_id b.recipient_id)

abbrev pub is_since : Text → DigestSnapshots → Bool
is_since date s = not (text_lt s.digest_date date)

unfoldable pub list_snapshot_keys_since : Text → Body Tables (List SnapshotKey)
list_snapshot_keys_since date t =
    (ok (map key_of (sort_by key_before (keep_if (is_since date) t.snapshots))), t)

abbrev pub is_unnotified : DigestSnapshots → Bool
is_unnotified s = elim s.notified_at [ none ↦ true | some _ ↦ false ]

unfoldable pub list_unnotified_snapshots_before : Text → Body Tables (List DigestSnapshots)
list_unnotified_snapshots_before created_at t = (
  ok (
      sort_by (λ a b. text_lt a.created_at b.created_at)
        (keep_if (λ s. is_unnotified s && text_lt s.created_at created_at) t.snapshots)),
  t,
)

unfoldable pub purge_snapshots_before : Text → Body Tables ℕ
purge_snapshots_before date t = (
  ok (count_rows (λ (s : DigestSnapshots). text_lt s.digest_date date) t.snapshots),
  record t { snapshots = keep_if (is_since date) t.snapshots },
)

abbrev pub is_untold : ℕ → DigestSnapshots → Bool
is_untold id s = (s.id == id) && is_unnotified s

abbrev pub told : Text → DigestSnapshots → DigestSnapshots
told at s = record s { notified_at = some at }

unfoldable pub set_notified_at : Text → ℕ → Body Tables ℕ
set_notified_at at id t = (
  ok (count_rows (is_untold id) t.snapshots),
  record t { snapshots = update_rows (is_untold id) (told at) t.snapshots },
)

-- `at` is the formatted time.
unfoldable pub mark_notified : ℕ → Text → Body Tables Bool
unfolding set_notified_at
mark_notified id at = do affected ← set_notified_at at id; pure (affected == 1)

pub record UpsertSnapshotParams : Type 0 where
  pub recipient_id : ℕ
  pub digest_date : Text
  pub events : Text
  pub created_at : Text

-- The body of the transaction of `UpsertSnapshot`: the row, and whether this call wrote it.
unfoldable pub upsert_body : Text → UpsertSnapshotParams → Body Tables (DigestSnapshots × Bool)
upsert_body token arg = do
  inserted ←
      insert_snapshot_if_absent arg.recipient_id arg.digest_date token arg.events arg.created_at
  snapshot ← get_snapshot_for_date arg.recipient_id arg.digest_date
  pure (snapshot, inserted == 1)

unfoldable pub upsert_snapshot :
    Bool → Conn → Text → UpsertSnapshotParams → Body Tables (DigestSnapshots × Bool)
unfolding upsert_body
upsert_snapshot bound c token arg = ensure_tx bound c (upsert_body token arg)
