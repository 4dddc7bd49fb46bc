-- ===== src/Jobs/Preserves.antt =====
-- A property of the tables that the queries preserve, the workers preserve.
use calendar_digest.Prelude.{
  ◌==◌, Bool, true, false, not, ◌&&◌, List, [], ◌∷◌, Option, none, some, sym, subst, inl, inr,
  Bool-cases, Option-cases,
}
use calendar_digest.Prelude.Chars.{Text}
use calendar_digest.Prelude.Sorting.{sort_by}
use calendar_digest.Store.Models.{Recipients, NotificationTargets}
use calendar_digest.Store.Tables.{Tables}
use calendar_digest.Store.Times.{format_time}
use calendar_digest.Store.Tx.{Outcome, ok, err, panic, Body, with_tx, ◌>>◌}
use calendar_digest.Store.Preserves.{
  Preserves, bind-Preserves, in_tx-Preserves, IsKept, set_flag-Preserves, mark_notified-Preserves,
  upsert_snapshot-Preserves,
}
use calendar_digest.Store.Snapshots.{upsert_snapshot, purge_snapshots_before}
use calendar_digest.Store.Recipients.{list_enabled_targets}
use calendar_digest.Jobs.Deps.{
  Deps, World, DigestArgs, SendArgs, Job, AlertSubject, Detail, Enqueuer, on_tables,
}
use calendar_digest.Jobs.Alert.{
  raise, record_calendar_access, raise_keeps, record_calendar_access-tables,
}
use calendar_digest.Jobs.Capture.{
  starts_before, capture, captured, outcome, capture_body, refresh, finish, fan_out, enqueue,
  enqueue_sends, Gathered, got, denied, failed,
}
use calendar_digest.Jobs.Capture.Keeps.{capture-cases}
use calendar_digest.Jobs.Scan.{scan, scan-tables}
use calendar_digest.Jobs.Send.{send_work, send_work-Ends}
use calendar_digest.Jobs.Purge.{purge, purged, cutoff}

module _ (P : Tables → Type 0) (k : IsKept P) (d : Deps) where
  abbrev Holds : World → Type 0
  Holds w = P w.tables

  raise-Preserves : (s : AlertSubject) (x : Detail) (w : World) → Holds w → Holds (raise d s x w)
  raise-Preserves s x w h = subst P (sym (raise_keeps d s x w).0) h

  pub record-Preserves :
      (healthy : Bool) (w : World) → Holds w → Holds (record_calendar_access d healthy w)
  record-Preserves healthy w h =
      subst P (sym (record_calendar_access-tables d healthy w))
        (set_flag-Preserves P k false d.conn _ _ _ w.tables h)

  on_tables-Preserves :
      {A : Type 0} (m : Body Tables A) → Preserves P m → Preserves Holds (on_tables m)
  on_tables-Preserves m h w q = h w.tables q

  enqueue-Preserves : (q : Option Enqueuer) (jobs : List Job) → Preserves Holds (enqueue q jobs)
  unfolding enqueue
  enqueue-Preserves none jobs w h = h
  enqueue-Preserves (some q) jobs w h = elim (Option-cases (q.insert w.queue jobs)) [
    | inl e ↦ rw (e, enqueue) h
    | inr (queue, e) ↦ rw (e, enqueue) h
  ]

  enqueue_sends-Preserves :
      (a : DigestArgs) (r : Recipients) (targets : List NotificationTargets)
      → Preserves Holds (enqueue_sends d a r targets)
  unfolding enqueue_sends
  enqueue_sends-Preserves a r [] w h = h
  enqueue_sends-Preserves a r (g ∷ gs) w h = enqueue-Preserves d.jobs _ w h

  fan_out-Preserves : (a : DigestArgs) (r : Recipients) → Preserves Holds (fan_out d a r)
  unfolding fan_out list_enabled_targets
  fan_out-Preserves a r w h = enqueue_sends-Preserves a r _ w h

  refresh-Preserves :
      (a : DigestArgs) (r : Recipients) (events : Text) (created : Bool)
      → Preserves Holds (refresh d a r events created)
  unfolding refresh
  refresh-Preserves a r events created w h = elim (Bool-cases (a.force && not created)) [
    | inl e ↦ rw e (k.on_replace events (format_time d.now) r.id a.digest_date w.tables h)
    | inr e ↦ rw e h
  ]

  finish-Preserves :
      (a : DigestArgs) (r : Recipients) (created : Bool) → Preserves Holds (finish d a r created)
  unfolding finish
  finish-Preserves a r created w h = elim (Bool-cases (not created && not a.force)) [
    | inl e ↦ rw e h
    | inr e ↦ rw e (fan_out-Preserves a r w h)
  ]

  capture_body-Preserves :
      (a : DigestArgs) (r : Recipients) (events : Text)
      → Preserves Holds (capture_body d a r events)
  unfolding capture_body
  capture_body-Preserves a r events =
      let upsert = upsert_snapshot true d.conn d.token (record {
        recipient_id = r.id;
        digest_date = a.digest_date;
        events = events;
        created_at = format_time d.now;
      }) in
      bind-Preserves Holds (on_tables upsert)
        (λ written. do refresh d a r events written.1; finish d a r written.1)
        (on_tables-Preserves upsert (upsert_snapshot-Preserves P k true d.conn d.token _))
        (λ written.
          bind-Preserves Holds (refresh d a r events written.1) (λ _. finish d a r written.1)
            (refresh-Preserves a r events written.1) (λ n. finish-Preserves a r written.1))

  outcome-Preserves : (r : Outcome (Unit {0}) × World) → Holds r.1 → Holds (outcome r).1
  unfolding outcome
  outcome-Preserves (ok u, w) h = h
  outcome-Preserves (err e, w) h = h
  outcome-Preserves (panic, w) h = h

  captured-Preserves :
      (a : DigestArgs) (r : Recipients) (g : Gathered) (w : World)
      → Holds w
      → Holds (captured d a r g w).1
  unfolding captured with_tx
  captured-Preserves a r failed w h = h
  captured-Preserves a r (denied id) w h = raise-Preserves _ _ _ (record-Preserves false w h)
  captured-Preserves a r (got events) w h = outcome-Preserves _ (
      in_tx-Preserves Holds d.conn (capture_body d a r (d.encode (sort_by starts_before events)))
        (capture_body-Preserves a r _) (record_calendar_access d true w)
        (record-Preserves true w h))

  pub capture-Preserves : (a : DigestArgs) (w : World) → Holds w → Holds (capture d a w).1
  capture-Preserves a w h = elim (capture-cases d a w) [
    | inl e ↦ subst (λ r. Holds r.1) (sym e) h
    | inr (inl e) ↦
        subst (λ r. Holds r.1) (sym e) (raise-Preserves _ _ _ (record-Preserves false w h))
    | inr (inr (r, g, same, e)) ↦ subst (λ x. Holds x.1) (sym e) (captured-Preserves a r g w h)
  ]

  pub send_work-Preserves : (a : SendArgs) (w : World) → Holds w → Holds (send_work d a w).1
  send_work-Preserves a w h = elim (send_work-Ends d a w) [
    | inr (n, out, same) ↦ subst Holds (sym same) h
    | inl (y, v) ↦ subst Holds (sym v.marks) (mark_notified-Preserves P k _ _ w.tables h)
  ]

  pub purge-Preserves :
      (on_purge : Preserves P (purge_snapshots_before (cutoff d)))
      → (w : World) → Holds w
      → Holds (purge d w).1
  unfolding purge purged purge_snapshots_before
  purge-Preserves on_purge w h = elim (Bool-cases (d.snapshot_retention_days == 0)) [
    | inl e ↦ rw e h
    | inr e ↦ rw e (on_purge w.tables h)
  ]

  pub scan-Preserves : (w : World) → Holds w → Holds (scan d w).1
  scan-Preserves w h = subst P (sym (scan-tables d w)) h
