-- ===== src/Jobs/Capture/Stored.antt =====
-- A capture that is done has left a snapshot.
use calendar_digest.Prelude.{
  ℕ, Bool, true, not, ◌&&◌, List, [], ◌∷◌, any, Option, none, some, ◌≡◌, refl, sym, ap, subst, ◌∙◌,
  arith, Bool-cases, Option-cases, inl, inr,
}
use calendar_digest.Prelude.Chars.{Text}
use calendar_digest.Prelude.Sorting.{sort_by}
use calendar_digest.Store.Models.{Recipients, DigestSnapshots, NotificationTargets}
use calendar_digest.Store.Tables.{Tables, update_rows, count_rows}
use calendar_digest.Store.Tables.Rows.{first_row-some}
use calendar_digest.Store.Times.{format_time}
use calendar_digest.Store.Tx.{
  Outcome, ok, err, panic, with_tx, in_tx, in_tx-done, continue, ensure_tx, ◌>>◌,
}
use calendar_digest.Store.Snapshots.{
  has_key, refreshed, replace_snapshot_events, upsert_snapshot, upsert_body, UpsertSnapshotParams,
}
use calendar_digest.Store.Snapshots.Upsert.{HasRow, upsert-HasRow}
use calendar_digest.Store.Recipients.{list_enabled_targets}
use calendar_digest.Jobs.Deps.{Deps, World, DigestArgs, Job, Enqueuer, done, on_tables}
use calendar_digest.Jobs.Alert.{record_calendar_access}
use calendar_digest.Jobs.Capture.{
  starts_before, capture, captured, outcome, capture_body, refresh, finish, fan_out, enqueue,
  enqueue_sends, Gathered, got, denied, failed,
}
use calendar_digest.Jobs.Capture.Keeps.{capture-cases}

-- There is a snapshot for a recipient's date.
abbrev pub HasSnapshot : ℕ → Text → World → Type 0
HasSnapshot id date w = any (has_key id date) w.tables.snapshots ≡ true

pub refreshed-keys :
    (p : DigestSnapshots → Bool) (events at : Text) (id : ℕ) (date : Text)
    (xs : List DigestSnapshots)
    → any (has_key id date) (update_rows p (refreshed events at) xs) ≡ any (has_key id date) xs
refreshed-keys p events at id date [] = refl
refreshed-keys p events at id date (x ∷ xs) = ground (arith, refreshed-keys p events at id date xs)

refresh-HasSnapshot :
    (d : Deps) (a : DigestArgs) (r : Recipients) (events : Text) (created : Bool) (id : ℕ)
    (w : World)
    → HasSnapshot id a.digest_date w
    → (n : ℕ) × (w' : World) × (refresh d a r events created w ≡ (ok n, w'))
      × HasSnapshot id a.digest_date w'
unfolding refresh replace_snapshot_events
refresh-HasSnapshot d a r events created id w h = elim (Bool-cases (a.force && not created)) [
  | inr e ↦ (0, w, rw e refl, h)
  | inl e ↦
      let r' =
        on_tables (replace_snapshot_events events (format_time d.now) r.id a.digest_date) w in
      (
        count_rows (has_key r.id a.digest_date) w.tables.snapshots,
        r'.1,
        rw e refl,
        refreshed-keys (has_key r.id a.digest_date) events (format_time d.now) id a.digest_date
              w.tables.snapshots
            ∙ h,
      )
]

enqueue_tables :
    (o : Option Enqueuer) (jobs : List Job) (w : World) → (enqueue o jobs w).1.tables ≡ w.tables
unfolding enqueue
enqueue_tables none jobs w = refl
enqueue_tables (some q) jobs w = elim (Option-cases (q.insert w.queue jobs)) [
  | inl e ↦ rw (e, enqueue) refl
  | inr (queue, e) ↦ rw (e, enqueue) refl
]

sends_tables :
    (d : Deps) (a : DigestArgs) (r : Recipients) (gs : List NotificationTargets) (w : World)
    → (enqueue_sends d a r gs w).1.tables ≡ w.tables
unfolding enqueue_sends
sends_tables d a r [] w = refl
sends_tables d a r (g ∷ gs) w = enqueue_tables d.jobs _ w

finish_tables :
    (d : Deps) (a : DigestArgs) (r : Recipients) (created : Bool) (w : World)
    → (finish d a r created w).1.tables ≡ w.tables
unfolding finish fan_out list_enabled_targets
finish_tables d a r created w = elim (Bool-cases (not created && not a.force)) [
  | inl e ↦ rw e refl
  | inr e ↦ rw e (sends_tables d a r _ w)
]

written-HasSnapshot :
    (d : Deps) (a : DigestArgs) (r : Recipients) (events : Text) (arg : UpsertSnapshotParams)
    (w w' : World) (u : Outcome (DigestSnapshots × Bool) × Tables)
    → arg.digest_date ≡ a.digest_date
    → HasRow arg u
    → continue
        (u.0, record w { tables = u.1 })
        (λ written. refresh d a r events written.1 >> finish d a r written.1)
      ≡ (ok tt, w')
    → HasSnapshot arg.recipient_id a.digest_date w'
written-HasSnapshot d a r events arg w w' (ok (s, created), t) same row e =
    let (there, _) = first_row-some (has_key arg.recipient_id arg.digest_date) t.snapshots s row in
    let v = record w { tables = t } in
    let (n, v', run, kept) =
      refresh-HasSnapshot d a r events created arg.recipient_id v
        (subst (λ x. any (has_key arg.recipient_id x) t.snapshots ≡ true) same there) in
    let last : finish d a r created v' ≡ (ok tt, w') = rw run at e in
    subst (λ (x : Tables). any (has_key arg.recipient_id a.digest_date) x.snapshots ≡ true)
      (sym (finish_tables d a r created v') ∙ ap (λ p. p.1.tables) last) kept
written-HasSnapshot d a r events arg w w' (err x, t) same row e = cc
written-HasSnapshot d a r events arg w w' (panic, t) same row e = cc

body-HasSnapshot :
    (d : Deps) (a : DigestArgs) (r : Recipients) (events : Text) (w w' : World)
    → capture_body d a r events w ≡ (ok tt, w')
    → HasSnapshot r.id a.digest_date w'
unfolding capture_body upsert_snapshot ensure_tx
body-HasSnapshot d a r events w w' e =
    let arg : UpsertSnapshotParams = record {
      recipient_id = r.id;
      digest_date = a.digest_date;
      events = events;
      created_at = format_time d.now;
    } in
    written-HasSnapshot d a r events arg w w' (upsert_body d.token arg w.tables) refl
      (upsert-HasRow d.token arg w.tables) e

outcome_done : (x : Outcome (Unit {0}) × World) → (outcome x).0 ≡ done → x ≡ (ok tt, (outcome x).1)
unfolding outcome
outcome_done (ok u, w) h = refl
outcome_done (err e, w) h = cc
outcome_done (panic, w) h = cc

captured-HasSnapshot :
    (d : Deps) (a : DigestArgs) (r : Recipients) (g : Gathered) (w : World)
    → (captured d a r g w).0 ≡ done
    → HasSnapshot r.id a.digest_date (captured d a r g w).1
unfolding captured with_tx
captured-HasSnapshot d a r failed w h = cc
captured-HasSnapshot d a r (denied id) w h = cc
captured-HasSnapshot d a r (got events) w h =
    let v = record_calendar_access d true w in
    let text = d.encode (sort_by starts_before events) in
    let fn = capture_body d a r text in
    let e = outcome_done (in_tx d.conn fn v) h in
    body-HasSnapshot d a r text v _ (in_tx-done d.conn fn v tt _ e)

-- A capture that is done, scheduled or forced, leaves a snapshot of the recipient's date.
pub capture_done :
    (d : Deps) (a : DigestArgs) (w : World)
    → (capture d a w).0 ≡ done
    → HasSnapshot a.recipient_id a.digest_date (capture d a w).1
capture_done d a w h = elim (capture-cases d a w) [
  | inl e ↦ cc
  | inr (inl e) ↦ cc
  | inr (inr (r, g, same, e)) ↦
      subst (λ x. HasSnapshot a.recipient_id a.digest_date x.1) (sym e)
        (subst (λ i. HasSnapshot i a.digest_date (captured d a r g w).1) same
          (captured-HasSnapshot d a r g w (ap (λ x. x.0) (sym e) ∙ h)))
]
