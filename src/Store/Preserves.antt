-- ===== src/Store/Preserves.antt =====
-- Properties of the state that a body preserves, and how they pass through transactions.
use calendar_digest.Prelude.{Bool, true, false, List, sym, subst, inl, inr, ℕ, ◌==◌}
use calendar_digest.Prelude.Chars.{Text}
use calendar_digest.Store.Models.{AppState}
use calendar_digest.Store.Tables.{Tables}
use calendar_digest.Store.Tx.{
  Outcome, ok, err, panic, Body, Conn, pure, continue, ◌>>=◌, in_tx, ensure_tx, in_tx-IsAtomic,
  IsAtomic-cases,
}
use calendar_digest.Store.Flags.{set_flag, set_flag_body, set_flag_body-keeps}
use calendar_digest.Store.Snapshots.{
  insert_snapshot_if_absent, replace_snapshot_events, set_notified_at, mark_notified,
  get_snapshot_for_date, UpsertSnapshotParams, upsert_body, upsert_snapshot,
}

-- What a body leaves true, however it ends.
abbrev pub Preserves : {S A : Type 0} → (S → Type 0) → Body S A → Type 0
Preserves {S = S} Q m = (s : S) → Q s → Q (m s).1

module _ {S : Type 0} (Q : S → Type 0) where
  continue-Preserves :
      {A B : Type 0} (r : Outcome A × S) (f : A → Body S B)
      → Q r.1
      → ((a : A) → Preserves Q (f a))
      → Q (continue r f).1
  continue-Preserves (ok a, s) f q h = h a s q
  continue-Preserves (err e, s) f q h = q
  continue-Preserves (panic, s) f q h = q

  pub bind-Preserves :
      {A B : Type 0} (m : Body S A) (f : A → Body S B)
      → Preserves Q m
      → ((a : A) → Preserves Q (f a))
      → Preserves Q (m >>= f)
  bind-Preserves m f h k s q = continue-Preserves (m s) f (h s q) k

  pub in_tx-Preserves :
      {A : Type 0} (c : Conn) (fn : Body S A) → Preserves Q fn → Preserves Q (in_tx c fn)
  in_tx-Preserves c fn h s q = elim (IsAtomic-cases c fn s (in_tx c fn s) (in_tx-IsAtomic c fn s)) [
    | inl same ↦ subst Q (sym same) q
    | inr (a, p, e) ↦ subst (λ r. Q r.1) e (h s q)
  ]

  pub ensure_tx-Preserves :
      {A : Type 0} (bound : Bool) (c : Conn) (fn : Body S A)
      → Preserves Q fn
      → Preserves Q (ensure_tx bound c fn)
  unfolding ensure_tx
  ensure_tx-Preserves true c fn h = h
  ensure_tx-Preserves false c fn h = in_tx-Preserves c fn h

-- A property of the tables that the writes of the jobs preserve; the purge has one of its own.
pub record IsKept (P : Tables → Type 0) : Type 0 where
  pub on_state : (t : Tables) (rows : List AppState) → P t → P (record t { app_state = rows })
  pub on_insert :
      (id : ℕ) (date token events at : Text)
      → Preserves P (insert_snapshot_if_absent id date token events at)
  pub on_replace :
      (events at : Text) (id : ℕ) (date : Text)
      → Preserves P (replace_snapshot_events events at id date)
  pub on_told : (at : Text) (id : ℕ) → Preserves P (set_notified_at at id)

module _ (P : Tables → Type 0) (k : IsKept P) where
  pub set_flag-Preserves :
      (bound : Bool) (c : Conn) (key value at : Text) → Preserves P (set_flag bound c key value at)
  unfolding set_flag
  set_flag-Preserves bound c key value at =
      ensure_tx-Preserves P bound c (set_flag_body key value at)
        (λ t h. subst P (sym (set_flag_body-keeps key value at t)) (k.on_state t _ h))

  pub mark_notified-Preserves : (id : ℕ) (at : Text) → Preserves P (mark_notified id at)
  unfolding mark_notified
  mark_notified-Preserves id at =
      bind-Preserves P (set_notified_at at id) (λ affected. pure (affected == 1)) (k.on_told at id)
        (λ n t h. h)

  pub upsert_snapshot-Preserves :
      (bound : Bool) (c : Conn) (token : Text) (arg : UpsertSnapshotParams)
      → Preserves P (upsert_snapshot bound c token arg)
  unfolding upsert_snapshot upsert_body get_snapshot_for_date
  upsert_snapshot-Preserves bound c token arg =
      ensure_tx-Preserves P bound c (upsert_body token arg) (
        bind-Preserves P
          (insert_snapshot_if_absent arg.recipient_id arg.digest_date token arg.events
            arg.created_at)
          (λ inserted. do
            snapshot ← get_snapshot_for_date arg.recipient_id arg.digest_date
            pure (snapshot, inserted == 1))
          (k.on_insert arg.recipient_id arg.digest_date token arg.events arg.created_at)
          (λ inserted.
            bind-Preserves P (get_snapshot_for_date arg.recipient_id arg.digest_date)
              (λ snapshot. pure (snapshot, inserted == 1)) (λ t h. h) (λ s t h. h)))
