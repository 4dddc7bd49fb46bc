-- ===== src/Store/Snapshots/Keys.antt =====
-- The keys that the due check reads, and what the purge leaves of them.
use calendar_digest.Prelude.{
  ℕ, ◌+◌, ◌==◌, Bool, ◌&&◌, ◌||◌, List, [], ◌∷◌, map, any, keep_if, length, ◌↔◌, In,
  In-keep_if-elim, In-keep_if-intro, ◌≡◌, refl, ◌∙◌, ap, arith,
}
use calendar_digest.Prelude.Chars.{Text, text_eq, text_eq_sound, text_lt, TextLe, TextLe-trans}
use calendar_digest.Prelude.Sorting.{sort_by, any-sort_by}
use calendar_digest.Store.Models.{DigestSnapshots, SnapshotKey}
use calendar_digest.Store.Tables.{Tables, count_rows}
use calendar_digest.Store.Tx.{ok}
use calendar_digest.Store.Snapshots.{
  key_of, key_before, is_since, has_key, list_snapshot_keys_since, purge_snapshots_before,
}

pub any-map :
    {A B : Type 0} (p : B → Bool) (f : A → B) (xs : List A)
    → any p (map f xs) ≡ any (λ x. p (f x)) xs
any-map p f [] = refl
any-map p f (x ∷ xs) = ap (λ b. p (f x) || b) (any-map p f xs)

-- Whether the list has the key of a recipient's date.
abbrev pub is_listed : ℕ → Text → SnapshotKey → Bool
is_listed id date k = (k.recipient_id == id) && text_eq k.digest_date date

-- A key from the date on is kept.
pub since_key :
    (floor date : Text) (id : ℕ) (xs : List DigestSnapshots)
    → TextLe floor date
    → any (has_key id date) (keep_if (is_since floor) xs) ≡ any (has_key id date) xs
since_key floor date id [] le = refl
since_key floor date id (x ∷ xs) le =
    ground (arith, text_eq_sound x.digest_date date, since_key floor date id xs le)

abbrev pub keys_since : Text → Tables → List SnapshotKey
keys_since floor t = map key_of (sort_by key_before (keep_if (is_since floor) t.snapshots))

pub keys_since-listed :
    (floor date : Text) (id : ℕ) (t : Tables)
    → TextLe floor date
    → any (is_listed id date) (keys_since floor t) ≡ any (has_key id date) t.snapshots
keys_since-listed floor date id t le =
    any-map (is_listed id date) key_of (sort_by key_before (keep_if (is_since floor) t.snapshots))
    ∙ any-sort_by key_before (has_key id date) (keep_if (is_since floor) t.snapshots)
    ∙ since_key floor date id t.snapshots le

-- `ListSnapshotKeysSince` changes nothing, and lists a key that is not before its date exactly if
-- there is a snapshot with that key.
list_snapshot_keys_since_lem :
    (floor date : Text) (id : ℕ) (t : Tables)
    → TextLe floor date
    → (list_snapshot_keys_since floor t ≡ (ok (keys_since floor t), t))
      × (any (is_listed id date) (keys_since floor t) ≡ any (has_key id date) t.snapshots)
unfolding list_snapshot_keys_since
list_snapshot_keys_since_lem floor date id t le = (refl, keys_since-listed floor date id t le)

keep_since-twice :
    (cutoff floor : Text) (xs : List DigestSnapshots)
    → TextLe cutoff floor
    → keep_if (is_since floor) (keep_if (is_since cutoff) xs) ≡ keep_if (is_since floor) xs
keep_since-twice cutoff floor [] le = refl
keep_since-twice cutoff floor (x ∷ xs) le =
    ground (arith, TextLe-trans cutoff floor x.digest_date le, keep_since-twice cutoff floor xs le)

purge_split :
    (date : Text) (xs : List DigestSnapshots)
    → count_rows (λ (s : DigestSnapshots). text_lt s.digest_date date) xs
        + length (keep_if (is_since date) xs)
      ≡ length xs
purge_split date [] = omega arith
purge_split date (x ∷ xs) = ground (arith, purge_split date xs)

-- The purge removes exactly the snapshots dated before the cutoff, which itself is kept, reports
-- their number, and changes no key list from a date that is not before the cutoff.
purge_snapshots_before_lem :
    (cutoff floor : Text) (t : Tables) (s : DigestSnapshots)
    → TextLe cutoff floor
    → (t' : Tables) × (n : ℕ) × (purge_snapshots_before cutoff t ≡ (ok n, t'))
      × (n + length t'.snapshots ≡ length t.snapshots)
      × (In s t'.snapshots ↔ (In s t.snapshots × TextLe cutoff s.digest_date))
      × (list_snapshot_keys_since floor t' ≡ (ok (keys_since floor t), t'))
unfolding purge_snapshots_before list_snapshot_keys_since
purge_snapshots_before_lem cutoff floor t s le = (
  record t { snapshots = keep_if (is_since cutoff) t.snapshots },
  count_rows (λ (o : DigestSnapshots). text_lt o.digest_date cutoff) t.snapshots,
  refl,
  purge_split cutoff t.snapshots,
  (
    λ m.
        let (there, q) = In-keep_if-elim (is_since cutoff) s t.snapshots m in (there, ground arith),
    λ h. In-keep_if-intro (is_since cutoff) s t.snapshots h.0 (ground arith),
  ),
  rw (keep_since-twice cutoff floor t.snapshots le),
)
