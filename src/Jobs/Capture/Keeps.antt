-- ===== src/Jobs/Capture/Keeps.antt =====
-- What a capture leaves alone: with the snapshot there, a scheduled one writes no row and queues no
-- delivery; and one that fails leaves both as they were.
use calendar_digest.Prelude.{
  Bool, true, false, [], some, ◌≡◌, ◌≢◌, refl, sym, ap, subst, ◌∙◌, Option-cases, inl, inr, ◌⊎◌,
}
use calendar_digest.Prelude.Chars.{Text}
use calendar_digest.Prelude.Sorting.{sort_by}
use calendar_digest.Store.Models.{Recipients, DigestSnapshots}
use calendar_digest.Store.Tables.{Tables, first_row}
use calendar_digest.Store.Times.{format_time}
use calendar_digest.Store.Tx.{
  Body, Outcome, ok, err, panic, Conn, with_tx, in_tx, in_tx-IsAtomic, IsAtomic-cases, ensure_tx,
}
use calendar_digest.Store.Snapshots.{has_key, upsert_snapshot}
use calendar_digest.Store.Snapshots.Upsert.{upsert_existing}
use calendar_digest.Store.Recipients.{get_recipient-cases}
use calendar_digest.Calendar.Ids.{ids}
use calendar_digest.Jobs.Deps.{
  Deps, World, DigestArgs, done, retry, cancel, sends, Detail, no_credential, AlertSubject,
  calendar_access,
}
use calendar_digest.Jobs.Alert.{
  raise, record_calendar_access, raise_keeps, record_calendar_access_keeps,
}
use calendar_digest.Jobs.Capture.{
  starts_before, capture, capture_from, captured, outcome, capture_body, refresh, finish, Gathered,
  got, denied, failed, gather,
}

-- The snapshots and the deliveries in the queue are those of another state.
abbrev pub SameDigests : World → World → Type 0
SameDigests w v = (w.tables.snapshots ≡ v.tables.snapshots) × (sends w.queue ≡ sends v.queue)

trans-SameDigests : (u v w : World) → SameDigests u v → SameDigests v w → SameDigests u w
trans-SameDigests u v w (a, b) (c, d) = (a ∙ c, b ∙ d)

access_raised :
    (d : Deps) (s : AlertSubject) (x : Detail) (h : Bool) (w : World)
    → SameDigests (raise d s x (record_calendar_access d h w)) w
access_raised d s x h w =
    let v = record_calendar_access d h w in
    let (a, b) = raise_keeps d s x v in
    trans-SameDigests (raise d s x v) v w (ap (λ (t : Tables). t.snapshots) a, b)
      (record_calendar_access_keeps d h w)

outcome_state : (r : Outcome (Unit {0}) × World) → (outcome r).1 ≡ r.1
unfolding outcome
outcome_state (ok u, w) = refl
outcome_state (err e, w) = refl
outcome_state (panic, w) = refl

-- A transaction that does not succeed.
outcome_failed :
    (c : Conn) (fn : Body World (Unit {0})) (w : World)
    → (outcome (in_tx c fn w)).0 ≢ done
    → (outcome (in_tx c fn w)).1 ≡ w
unfolding outcome
outcome_failed c fn w h = elim (IsAtomic-cases c fn w (in_tx c fn w) (in_tx-IsAtomic c fn w)) [
  | inl same ↦ outcome_state (in_tx c fn w) ∙ same
  | inr (x, p, e) ↦ absurd (h (rw p refl))
]

captured_failed :
    (d : Deps) (a : DigestArgs) (r : Recipients) (g : Gathered) (w : World)
    → (captured d a r g w).0 ≢ done
    → SameDigests (captured d a r g w).1 w
unfolding captured with_tx
captured_failed d a r failed w h = (refl, refl)
captured_failed d a r (denied id) w h = access_raised d _ _ false w
captured_failed d a r (got events) w h =
    let v = record_calendar_access d true w in
    let e =
      outcome_failed d.conn (capture_body d a r (d.encode (sort_by starts_before events))) v h in
    subst (λ u. SameDigests u w) (sym e) (record_calendar_access_keeps d true w)

-- How far a capture gets: it ends before the calendars are read, or deals with what was read.
pub capture-cases :
    (d : Deps) (a : DigestArgs) (w : World)
    → (capture d a w ≡ (retry, w))
      ⊎ ((capture d a w
            ≡ (cancel, raise d calendar_access no_credential (record_calendar_access d false w)))
          ⊎ ((r : Recipients) × (g : Gathered) × (r.id ≡ a.recipient_id)
              × (capture d a w ≡ captured d a r g w)))
unfolding capture capture_from
capture-cases d a w = elim (get_recipient-cases a.recipient_id w.tables) [
  | inl n ↦ inl (rw (n, capture) refl)
  | inr (r, e, same) ↦ elim (Option-cases (d.load_location r.tz)) [
    | inl n ↦ inl (rw (e, capture) (rw (n, capture) refl))
    | inr (loc, l) ↦
        let there : capture d a w ≡ capture_from d a r loc d.calendar w =
          rw (e, capture) (rw (l, capture) refl) in
        elim (Option-cases d.calendar) [
          | inl n ↦ inr (inl (there ∙ ap (λ o. capture_from d a r loc o w) n))
          | inr (client, k) ↦ inr (
              inr (
                r,
                gather client a.digest_date loc [] (ids r.calendar_id),
                same,
                there ∙ ap (λ o. capture_from d a r loc o w) k,
              ))
        ]
  ]
]

-- A capture that is not done, for whatever reason, leaves the snapshots and the deliveries in the
-- queue as they were.
pub capture_atomic :
    (d : Deps) (a : DigestArgs) (w : World)
    → (capture d a w).0 ≢ done
    → SameDigests (capture d a w).1 w
capture_atomic d a w h = elim (capture-cases d a w) [
  | inl e ↦ subst (λ r. SameDigests r.1 w) (sym e) (refl, refl)
  | inr (inl e) ↦ subst (λ r. SameDigests r.1 w) (sym e) (access_raised d _ _ false w)
  | inr (inr (r, g, _, e)) ↦
      subst (λ r. SameDigests r.1 w) (sym e)
        (captured_failed d a r g w (λ p. h (ap (λ r. r.0) e ∙ p)))
]

-- The body of a scheduled capture, with the snapshot there.
body_repeat :
    (d : Deps) (a : DigestArgs) (r : Recipients) (events : Text) (w : World) (s : DigestSnapshots)
    → a.force ≡ false
    → r.id ≡ a.recipient_id
    → first_row (has_key a.recipient_id a.digest_date) w.tables.snapshots ≡ some s
    → capture_body d a r events w ≡ (ok tt, w)
unfolding capture_body upsert_snapshot ensure_tx refresh finish
body_repeat d a r events w s f same h = rw (
  same,
  upsert_existing d.token
      (record {
        recipient_id = a.recipient_id;
        digest_date = a.digest_date;
        events = events;
        created_at = format_time d.now;
      })
      w.tables s h,
  f,
)

captured_repeat :
    (d : Deps) (a : DigestArgs) (r : Recipients) (g : Gathered) (w : World) (s : DigestSnapshots)
    → a.force ≡ false
    → r.id ≡ a.recipient_id
    → first_row (has_key a.recipient_id a.digest_date) w.tables.snapshots ≡ some s
    → SameDigests (captured d a r g w).1 w
unfolding captured with_tx
captured_repeat d a r failed w s f same h = (refl, refl)
captured_repeat d a r (denied id) w s f same h = access_raised d _ _ false w
captured_repeat d a r (got events) w s f same h =
    let v = record_calendar_access d true w in
    let fn = capture_body d a r (d.encode (sort_by starts_before events)) in
    let k = record_calendar_access_keeps d true w in
    let there = ap (first_row (has_key a.recipient_id a.digest_date)) k.0 ∙ h in
    let run = body_repeat d a r (d.encode (sort_by starts_before events)) v s f same there in
    let stays : (outcome (in_tx d.conn fn v)).1 ≡ v =
      elim (IsAtomic-cases d.conn fn v (in_tx d.conn fn v) (in_tx-IsAtomic d.conn fn v)) [
        | inl e ↦ outcome_state (in_tx d.conn fn v) ∙ e
        | inr (x, p, e) ↦ outcome_state (in_tx d.conn fn v) ∙ ap (λ r. r.1) (sym e ∙ run)
      ] in
    subst (λ u. SameDigests u w) (sym stays) k

-- A scheduled capture of a day that has a snapshot writes no snapshot and queues no delivery,
-- however it ends.
pub capture_repeat :
    (d : Deps) (a : DigestArgs) (w : World) (s : DigestSnapshots)
    → a.force ≡ false
    → first_row (has_key a.recipient_id a.digest_date) w.tables.snapshots ≡ some s
    → SameDigests (capture d a w).1 w
capture_repeat d a w s f h = elim (capture-cases d a w) [
  | inl e ↦ subst (λ r. SameDigests r.1 w) (sym e) (refl, refl)
  | inr (inl e) ↦ subst (λ r. SameDigests r.1 w) (sym e) (access_raised d _ _ false w)
  | inr (inr (r, g, same, e)) ↦
      subst (λ r. SameDigests r.1 w) (sym e) (captured_repeat d a r g w s f same h)
]
