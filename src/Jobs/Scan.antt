-- ===== src/Jobs/Scan.antt =====
-- internal/jobs/scan.go: the tick that queues a capture for each digest that is owed.
use calendar_digest.Prelude.{
  false, List, [], ◌∷◌, map, keep_if, Option, none, some, ◌≡◌, refl, sym, ap, ◌∙◌, ◌≤◌, ◌<◌,
  Option-cases, inl, inr,
}
use calendar_digest.Prelude.Chars.{Text}
use calendar_digest.Clock.Zone.{Location, Time, utc, in_zone}
use calendar_digest.Store.Models.{Recipients, SnapshotKey}
use calendar_digest.Store.Tables.{Tables}
use calendar_digest.Store.Tx.{ok, err, panic}
use calendar_digest.Store.Snapshots.{list_snapshot_keys_since, key_of}
use calendar_digest.Store.Snapshots.Keys.{keys_since, keys_since-listed, any-map, is_listed}
use calendar_digest.Prelude.Sorting.{sort_by}
use calendar_digest.Store.Recipients.{list_enabled_recipients, by_name}
use calendar_digest.Digest.Due.{DueDigest, date_of, due, snapshot_floor, is_done}
use calendar_digest.Digest.Due.Floor.{AgreeFrom, due-snapshot_floor}
use calendar_digest.Jobs.Deps.{Deps, World, Job, digest, Enqueuer, done, retry, crashed, Worker}

abbrev pub scan_time : Deps → Time
scan_time d = record { sec = d.now; loc = utc }

abbrev pub digest_job : DueDigest → Job
digest_job o =
    digest (record { recipient_id = o.recipient_id; digest_date = o.digest_date; force = false })

-- `InsertMany`, if anything is owed; without an enqueuer the call is on a nil interface.
unfoldable pub offer : Option Enqueuer → List DueDigest → Worker
offer o [] w = (done, w)
offer none (x ∷ xs) w = (crashed, w)
offer (some q) (x ∷ xs) w = elim (q.insert w.queue (map digest_job (x ∷ xs))) [
  | none ↦ (retry, w)
  | some queue ↦ (done, record w { queue = queue })
]

scan_for : Deps → List Recipients → Worker
scan_for d [] w = (done, w)
scan_for d (r ∷ rs) w =
    elim (list_snapshot_keys_since (snapshot_floor d.load_location (scan_time d) (r ∷ rs))
      w.tables).0 [
        | err e ↦ (retry, w)
        | panic ↦ (crashed, w)
        | ok keys ↦ offer d.jobs (due d.load_location (scan_time d) (r ∷ rs) keys).0 w
      ]

-- `ScanDueRecipientsWorker.Work`.
unfoldable pub scan : Deps → Worker
unfolding scan_for
scan d w = elim (list_enabled_recipients w.tables).0 [
  | err e ↦ (retry, w)
  | panic ↦ (crashed, w)
  | ok rs ↦ scan_for d rs w
]

-- The enabled recipients, as they are listed.
abbrev pub enabled : Tables → List Recipients
enabled t = sort_by by_name (keep_if (λ (r : Recipients). r.enabled) t.recipients)

offer-tables :
    (o : Option Enqueuer) (xs : List DueDigest) (w : World) → (offer o xs w).1.tables ≡ w.tables
unfolding offer
offer-tables o [] w = refl
offer-tables none (x ∷ xs) w = refl
offer-tables (some q) (x ∷ xs) w =
    elim (Option-cases (q.insert w.queue (map digest_job (x ∷ xs)))) [
      | inl e ↦ rw (e, offer) refl
      | inr (queue, e) ↦ rw (e, offer) refl
    ]

-- A scan writes no table.
pub scan-tables : (d : Deps) (w : World) → (scan d w).1.tables ≡ w.tables
unfolding scan scan_for list_enabled_recipients list_snapshot_keys_since
scan-tables d w = from (enabled w.tables)
  where
    from : (rs : List Recipients) → (scan_for d rs w).1.tables ≡ w.tables
    from [] = refl
    from (r ∷ rs) = offer-tables d.jobs _ w

-- The keys of all snapshots.
abbrev pub history : Tables → List SnapshotKey
history t = map key_of t.snapshots

keys-AgreeFrom : (floor : Text) (t : Tables) → AgreeFrom floor (keys_since floor t) (history t)
unfolding is_done
keys-AgreeFrom floor t id date le =
    keys_since-listed floor date id t le ∙ sym (any-map (is_listed id date) key_of t.snapshots)

module _ (d : Deps)
    (timely : (tz : Text) (loc : Location)
      → d.load_location tz ≡ some loc
      → (1 ≤ date_of (in_zone loc (scan_time d)))
        × (date_of (in_zone loc (scan_time d)) < 3652057)) where
  scan_for-offer :
      (rs : List Recipients) (w : World)
      → scan_for d rs w ≡ offer d.jobs (due d.load_location (scan_time d) rs (history w.tables)).0 w
  unfolding scan_for offer due list_snapshot_keys_since
  scan_for-offer [] w = refl
  scan_for-offer (r ∷ rs) w =
      let now = scan_time d in
      let floor = snapshot_floor d.load_location now (r ∷ rs) in
      ap (λ p. offer d.jobs p.0 w)
        (due-snapshot_floor d.load_location now (keys_since floor w.tables) (history w.tables)
          timely (r ∷ rs) (keys-AgreeFrom floor w.tables))

-- For a time between 0001-01-02 and 9999-12-30 in every zone: although it reads no key before
-- `SnapshotFloor`, the scan offers to the queue exactly the digests that the due check owes to the
-- enabled recipients on the whole history of snapshots.
pub scan_lem :
    (d : Deps) (w : World)
    → ((tz : Text) (loc : Location)
        → d.load_location tz ≡ some loc
        → (1 ≤ date_of (in_zone loc (scan_time d)))
          × (date_of (in_zone loc (scan_time d)) < 3652057))
    → scan d w
      ≡ offer d.jobs (due d.load_location (scan_time d) (enabled w.tables) (history w.tables)).0 w
unfolding scan list_enabled_recipients
scan_lem d w timely = scan_for-offer d timely (enabled w.tables) w
