-- ===== src/Jobs/Alert.antt =====
-- internal/jobs/alert.go: alerts to the operator, and the calendar-access flag.
use calendar_digest.Prelude.{
  Bool, true, false, ◌&&◌, if◌then◌else◌, List, [], ◌∷◌, Option, none, some, ◌≡◌, refl, sym, ap,
  ◌∙◌, Bool-cases, Option-cases, inl, inr,
}
use calendar_digest.Prelude.Chars.{Text, codes, text_eq}
use calendar_digest.Store.Tables.{Tables}
use calendar_digest.Store.Times.{format_time}
use calendar_digest.Store.Tx.{
  Outcome, ok, err, panic, Conn, ensure_tx, in_tx, in_tx-ok, in_tx-IsAtomic, IsAtomic-cases,
}
use calendar_digest.Store.Flags.{
  set_flag, set_flag_body, flag_of, set_flag_body_lem, set_flag_body-keeps,
}
use calendar_digest.Jobs.Deps.{
  Deps, World, Enqueuer, Job, alert, AlertArgs, AlertSubject, calendar_restored, Detail, recovered,
  done, retry, Worker, sends, sends-insert,
}

abbrev pub flag_calendar_access : Text
flag_calendar_access = codes "calendar_access"

abbrev pub flag_ok : Text
flag_ok = codes "ok"

abbrev pub flag_failed : Text
flag_failed = codes "failed"

-- The queue with an alert, if there is an enqueuer and it takes it; a failure is only logged.
queue_alert : Option Enqueuer → AlertArgs → List Job → List Job
queue_alert none a queue = queue
queue_alert (some q) a queue = elim (q.insert queue (alert a ∷ [])) [
  | none ↦ queue
  | some queue' ↦ queue'
]

unfoldable pub raise : Deps → AlertSubject → Detail → World → World
unfolding queue_alert
raise d subject detail w = record w {
  queue = queue_alert d.jobs (record { subject = subject; detail = detail }) w.queue;
}

-- What follows the write of the flag; an error is only logged.
after_flag : Deps → Bool → Outcome Text × Tables → World → World
after_flag d healthy (ok previous, t) w =
    let w' = record w { tables = t } in
    if healthy && text_eq previous flag_failed then raise d calendar_restored recovered w' else w'
after_flag d healthy (err e, t) w = record w { tables = t }
after_flag d healthy (panic, t) w = record w { tables = t }

unfoldable pub record_calendar_access : Deps → Bool → World → World
unfolding after_flag
record_calendar_access d healthy w =
    let value = if healthy then flag_ok else flag_failed in
    after_flag d healthy
      (set_flag false d.conn flag_calendar_access value (format_time d.now) w.tables) w

-- `AlertWorker.Work`: `deliver` is the alerter, and says whether it returned no error.
unfoldable pub alert_work : Option (AlertArgs → Bool) → AlertArgs → Worker
alert_work none a w = (done, w)
alert_work (some deliver) a w = if deliver a then (done, w) else (retry, w)

-- Raising an alert leaves the tables and the deliveries in the queue as they are.
pub raise_keeps :
    (d : Deps) (s : AlertSubject) (x : Detail) (w : World)
    → ((raise d s x w).tables ≡ w.tables) × (sends (raise d s x w).queue ≡ sends w.queue)
unfolding raise
raise_keeps d s x w = (refl, kept d.jobs)
  where
    kept :
        (o : Option Enqueuer)
        → sends (queue_alert o (record { subject = s; detail = x }) w.queue) ≡ sends w.queue
    kept none = refl
    kept (some q) =
        elim (Option-cases (q.insert w.queue (alert (record { subject = s; detail = x }) ∷ []))) [
          | inl e ↦ rw (e, queue_alert)
          | inr (queue', e) ↦ rw (e, queue_alert) (sends-insert q w.queue queue' _ refl e)
        ]

-- Recording access leaves the tables as the flag's write left them.
pub record_calendar_access-tables :
    (d : Deps) (healthy : Bool) (w : World)
    → (record_calendar_access d healthy w).tables
      ≡ (set_flag false d.conn flag_calendar_access
          (if healthy then flag_ok else flag_failed)
          (format_time d.now)
          w.tables).1
unfolding record_calendar_access after_flag
record_calendar_access-tables d healthy w = after (
    set_flag false d.conn flag_calendar_access (if healthy then flag_ok else flag_failed)
      (format_time d.now) w.tables)
  where
    after : (r : Outcome Text × Tables) → (after_flag d healthy r w).tables ≡ r.1
    after (ok previous, t) = elim (Bool-cases (healthy && text_eq previous flag_failed)) [
      | inl e ↦ rw e (raise_keeps d calendar_restored recovered (record w { tables = t })).0
      | inr e ↦ rw e refl
    ]
    after (err e, t) = refl
    after (panic, t) = refl

set_flag_keeps :
    (c : Conn) (key value at : Text) (t : Tables)
    → (set_flag false c key value at t).1.snapshots ≡ t.snapshots
unfolding set_flag ensure_tx
set_flag_keeps c key value at t =
    let fn = set_flag_body key value at in
    elim (IsAtomic-cases c fn t (in_tx c fn t) (in_tx-IsAtomic c fn t)) [
      | inl same ↦ ap (λ (u : Tables). u.snapshots) same
      | inr (x, p, e) ↦
          ap (λ r. r.1.snapshots) (sym e)
          ∙ ap (λ (u : Tables). u.snapshots) (set_flag_body-keeps key value at t)
    ]

-- Recording access leaves the snapshots and the deliveries in the queue as they are.
pub record_calendar_access_keeps :
    (d : Deps) (healthy : Bool) (w : World)
    → ((record_calendar_access d healthy w).tables.snapshots ≡ w.tables.snapshots)
      × (sends (record_calendar_access d healthy w).queue ≡ sends w.queue)
unfolding record_calendar_access after_flag
record_calendar_access_keeps d healthy w =
    let value = if healthy then flag_ok else flag_failed in
    let (out, t) = set_flag false d.conn flag_calendar_access value (format_time d.now) w.tables in
    after_keeps out t
      (set_flag_keeps d.conn flag_calendar_access value (format_time d.now) w.tables)
  where
    after_keeps :
        (out : Outcome Text) (t : Tables)
        → t.snapshots ≡ w.tables.snapshots
        → ((after_flag d healthy (out, t) w).tables.snapshots ≡ w.tables.snapshots)
          × (sends (after_flag d healthy (out, t) w).queue ≡ sends w.queue)
    after_keeps (ok previous) t h = elim (Bool-cases (healthy && text_eq previous flag_failed)) [
      | inl e ↦
          let (a, b) = raise_keeps d calendar_restored recovered (record w { tables = t }) in
          rw e (ap (λ (u : Tables). u.snapshots) a ∙ h, b)
      | inr e ↦ rw e (h, refl)
    ]
    after_keeps (err e) t h = (h, refl)
    after_keeps panic t h = (h, refl)

-- With a transaction that begins and commits: a success after a failure raises the restored alert,
-- and any other record of access raises nothing; the flag then holds what was recorded.
pub record_calendar_access_lem :
    (d : Deps) (healthy : Bool) (w : World)
    → d.conn.begins ≡ true
    → d.conn.commits ≡ true
    → (t' : Tables) × (flag_of flag_calendar_access t' ≡ (if healthy then flag_ok else flag_failed))
      × (record_calendar_access d healthy w ≡ (
          if healthy && text_eq (flag_of flag_calendar_access w.tables) flag_failed
          then raise d calendar_restored recovered (record w { tables = t' })
          else record w { tables = t' }))
unfolding record_calendar_access set_flag ensure_tx text_eq
record_calendar_access_lem d healthy w b c =
    let value = if healthy then flag_ok else flag_failed in
    let (t', e, held) =
      set_flag_body_lem flag_calendar_access value (format_time d.now) flag_calendar_access
        w.tables in
    (
      t',
      held,
      ap (λ r. after_flag d healthy r w)
          (in_tx-ok d.conn (set_flag_body flag_calendar_access value (format_time d.now)) w.tables
            (flag_of flag_calendar_access w.tables) t' b c e),
    )
