-- ===== src/Jobs/Send.antt =====
-- internal/jobs/send.go: a worker delivers one digest to one target.
use calendar_digest.Prelude.{
  ℕ, Bool, true, if◌then◌else◌, List, none, some, ◌≡◌, ◌≢◌, refl, sym, subst, ◌⊎◌, inl, inr,
  Option-cases, Bool-cases,
}
use calendar_digest.Prelude.Chars.{Text}
use calendar_digest.Store.Models.{Recipients, NotificationTargets, DigestSnapshots}
use calendar_digest.Store.Tables.{Tables}
use calendar_digest.Store.Times.{format_time}
use calendar_digest.Store.Tx.{Outcome, SqlError, ok, err, panic}
use calendar_digest.Store.Snapshots.{get_snapshot_for_date, mark_notified, set_notified_at}
use calendar_digest.Store.Recipients.{get_recipient, get_target}
use calendar_digest.Calendar.Event.{Event}
use calendar_digest.Jobs.Deps.{
  Deps, World, SendArgs, Digest, Notifier, WorkResult, done, retry, crashed, Worker, notifier_for,
}

-- What `MarkNotified` leads to.
marked : World → Outcome Bool × Tables → WorkResult × World
marked w (ok first, t) = (done, record w { tables = t })
marked w (err e, t) = (retry, record w { tables = t })
marked w (panic, t) = (crashed, record w { tables = t })

abbrev pub digest_of : Recipients → DigestSnapshots → List Event → Digest
digest_of r s events = record {
  recipient_name = r.name;
  date = s.digest_date;
  token = s.token;
  events = events;
}

-- The delivery, once everything is read.
unfoldable pub deliver :
    Deps → Notifier → NotificationTargets → Recipients → DigestSnapshots → Worker
unfolding marked
deliver d notify target r s w = elim (d.decode s.events) [
  | none ↦ (retry, w)
  | some events ↦
      if notify target.config (digest_of r s events)
      then marked w (mark_notified s.id (format_time d.now) w.tables)
      else (retry, w)
]

unfoldable pub or_retry : {A : Type 0} → Outcome A → (A → Worker) → Worker
or_retry (ok a) f w = f a w
or_retry (err e) f w = (retry, w)
or_retry panic f w = (crashed, w)

-- `SendWorker.Work`.
unfoldable pub send_work : Deps → SendArgs → Worker
send_work d a w =
    or_retry (get_target a.target_id w.tables).0
      (λ target. λ w. elim (notifier_for target.kind d.notifiers) [
        | none ↦ (retry, w)
        | some notify ↦
            or_retry (get_recipient a.recipient_id w.tables).0
              (λ r.
                or_retry (get_snapshot_for_date a.recipient_id a.digest_date w.tables).0
                  (λ s. deliver d notify target r s))
              w
      ])
      w

-- The delivery `a` is accepted: the target, the recipient and the snapshot are found, the snapshot's
-- events can be read, and the target's notifier accepts the digest.
pub record IsAccepted (d : Deps) (a : SendArgs) (w : World) : Type 0 where
  pub target : NotificationTargets
  pub notify : Notifier
  pub recipient : Recipients
  pub snapshot : DigestSnapshots
  pub events : List Event
  pub target_found : (get_target a.target_id w.tables).0 ≡ ok target
  pub notifier_found : notifier_for target.kind d.notifiers ≡ some notify
  pub recipient_found : (get_recipient a.recipient_id w.tables).0 ≡ ok recipient
  pub snapshot_found : (get_snapshot_for_date a.recipient_id a.digest_date w.tables).0 ≡ ok snapshot
  pub events_read : d.decode snapshot.events ≡ some events
  pub accepted : notify target.config (digest_of recipient snapshot events) ≡ true

-- The delivery `a` was accepted, and the state `w'` is the one before with the snapshot marked.
pub record IsDelivered (d : Deps) (a : SendArgs) (w w' : World) : Type 0 where
  pub delivery : IsAccepted d a w
  pub marks :
      w' ≡ record w { tables = (mark_notified delivery.snapshot.id (format_time d.now) w.tables).1 }

Outcome-cases :
    {A : Type 0} (o : Outcome A)
    → ((a : A) × (o ≡ ok a)) ⊎ ((o ≡ panic) ⊎ ((e : SqlError) × (o ≡ err e)))
Outcome-cases (ok a) = inl (a, refl)
Outcome-cases (err e) = inr (inr (e, refl))
Outcome-cases panic = inr (inl refl)

mark-ok :
    (id : ℕ) (at : Text) (t : Tables)
    → (b : Bool) × (mark_notified id at t ≡ (ok b, (mark_notified id at t).1))
unfolding mark_notified set_notified_at
mark-ok id at t = (_, refl)

-- How a delivery ends: accepted, done and with the snapshot marked, or not accepted, not done and
-- with nothing changed.
abbrev pub Ends : Deps → SendArgs → World → WorkResult × World → Type 0
Ends d a w r =
    ((r.0 ≡ done) × IsDelivered d a w r.1) ⊎ ((r.0 ≢ done) × (IsAccepted d a w → ⊥) × (r.1 ≡ w))

retry-Ends : (d : Deps) (a : SendArgs) (w : World) → (IsAccepted d a w → ⊥) → Ends d a w (retry, w)
retry-Ends d a w n = inr ((λ e. cc), n, refl)

or_retry-Ends :
    {A : Type 0} (d : Deps) (a : SendArgs) (w : World) (o : Outcome A) (f : A → Worker)
    → (IsAccepted d a w → (x : A) × (o ≡ ok x))
    → ((x : A) → o ≡ ok x → Ends d a w (f x w))
    → Ends d a w (or_retry o f w)
unfolding or_retry
or_retry-Ends d a w (ok x) f need h = h x refl
or_retry-Ends d a w (err e) f need h = retry-Ends d a w (λ p. let (x, q) = need p in cc)
or_retry-Ends d a w panic f need h = inr ((λ e. cc), (λ p. let (x, q) = need p in cc), refl)

module _ (d : Deps) (a : SendArgs) (w : World) (target : NotificationTargets) (notify : Notifier)
    (r : Recipients) (s : DigestSnapshots)
    (target_found : (get_target a.target_id w.tables).0 ≡ ok target)
    (notifier_found : notifier_for target.kind d.notifiers ≡ some notify)
    (recipient_found : (get_recipient a.recipient_id w.tables).0 ≡ ok r)
    (snapshot_found : (get_snapshot_for_date a.recipient_id a.digest_date w.tables).0 ≡ ok s) where
  -- What an acceptance is of, after these finds.
  accepted_found :
      IsAccepted d a w
      → (events : List Event) × (d.decode s.events ≡ some events)
        × (notify target.config (digest_of r s events) ≡ true)
  accepted_found p =
      let same_target : p.target ≡ target = cc in
      let same_notify : p.notify ≡ notify = cc in
      let same_recipient : p.recipient ≡ r = cc in
      let same_snapshot : p.snapshot ≡ s = cc in
      (p.events, subst (λ x. d.decode x.events ≡ some p.events) same_snapshot p.events_read, cc)

  deliver-Ends : Ends d a w (deliver d notify target r s w)
  unfolding deliver marked
  deliver-Ends = elim (Option-cases (d.decode s.events)) [
    | inl n ↦ rw (n, deliver) (retry-Ends d a w (λ p. let (x, q, y) = accepted_found p in cc))
    | inr (events, e) ↦ elim (Bool-cases (notify target.config (digest_of r s events))) [
      | inr refused ↦
          rw (e, deliver)
            (rw refused (retry-Ends d a w (λ p. let (x, q, y) = accepted_found p in cc)))
      | inl taken ↦
          let (b, m) = mark-ok s.id (format_time d.now) w.tables in
          rw (e, deliver)
            (rw taken (
              subst (λ x. Ends d a w (marked w x)) (sym m)
                (inl (
                  refl,
                  record {
                    delivery = record {
                      target = target;
                      notify = notify;
                      recipient = r;
                      snapshot = s;
                      events = events;
                      target_found = target_found;
                      notifier_found = notifier_found;
                      recipient_found = recipient_found;
                      snapshot_found = snapshot_found;
                      events_read = e;
                      accepted = taken;
                    };
                    marks = refl;
                  },
                ))))
    ]
  ]

-- A delivery whose target, recipient and snapshot are found and whose notifier accepts the digest is
-- done, with the snapshot marked; any other is not done and changes nothing.
pub send_work-Ends : (d : Deps) (a : SendArgs) (w : World) → Ends d a w (send_work d a w)
unfolding send_work
send_work-Ends d a w =
    or_retry-Ends d a w (get_target a.target_id w.tables).0 _ (λ p. (p.target, p.target_found))
      (λ target t. elim (Option-cases (notifier_for target.kind d.notifiers)) [
        | inl n ↦ rw n (
            retry-Ends d a w (λ p.
              let same : p.target ≡ target = let q = p.target_found in cc in
              let q =
                subst (λ x. notifier_for x.kind d.notifiers ≡ some p.notify) same
                  p.notifier_found in
              cc))
        | inr (notify, n) ↦ rw n (
            or_retry-Ends d a w (get_recipient a.recipient_id w.tables).0 _
              (λ p. (p.recipient, p.recipient_found))
              (λ r q.
                or_retry-Ends d a w (get_snapshot_for_date a.recipient_id a.digest_date w.tables).0
                  _ (λ p. (p.snapshot, p.snapshot_found))
                  (λ s k. deliver-Ends d a w target notify r s t n q k)))
      ])
