-- ===== src/Jobs/Capture.antt =====
-- internal/jobs/digest.go: a worker captures a recipient's day and queues the deliveries, in one
-- transaction with the snapshot.
pub mod Keeps
pub mod Stored
use calendar_digest.Prelude.{
  ℕ, ltb, Bool, true, false, not, ◌&&◌, if◌then◌else◌, List, [], ◌∷◌, ◌++◌, map, Option, none, some,
}
use calendar_digest.Prelude.Chars.{Text}
use calendar_digest.Prelude.Sorting.{sort_by}
use calendar_digest.Clock.Zone.{Location}
use calendar_digest.Store.Models.{Recipients, NotificationTargets}
use calendar_digest.Store.Tables.{Tables}
use calendar_digest.Store.Times.{format_time}
use calendar_digest.Store.Tx.{
  Body, Outcome, ok, err, panic, enqueue_failed, pure, continue, ◌>>=◌, ◌>>◌, with_tx,
}
use calendar_digest.Store.Snapshots.{upsert_snapshot, replace_snapshot_events}
use calendar_digest.Store.Recipients.{get_recipient, list_enabled_targets}
use calendar_digest.Calendar.Ids.{ids}
use calendar_digest.Calendar.Event.{Event}
use calendar_digest.Calendar.Google.{Fetched, bad_date, access, other}
use calendar_digest.Jobs.Deps.{
  Deps, World, DigestArgs, Job, send, Enqueuer, CalendarClient, no_credential, not_captured,
  calendar_access, WorkResult, done, retry, cancel, crashed, Worker, on_tables,
}
use calendar_digest.Jobs.Alert.{raise, record_calendar_access}

-- What reading the calendars in turn ends in: the events, the calendar to which there is no access,
-- or another error.
pub data Gathered : Type 0 where
  got : List Event → Gathered
  denied : Text → Gathered
  failed : Gathered

unfoldable pub gather : CalendarClient → Text → Location → List Event → List Text → Gathered
gather client date loc events [] = got events
gather client date loc events (id ∷ rest) = elim (client.events_for_day id date loc) [
  | Fetched.ok found ↦ gather client date loc (events ++ found) rest
  | Fetched.err e ↦ elim e [ bad_date ↦ failed | access ↦ denied id | other ↦ failed ]
]

abbrev pub starts_before : Event → Event → Bool
starts_before a b = ltb a.start.sec b.start.sec

abbrev pub send_job : DigestArgs → Recipients → NotificationTargets → Job
send_job a r g =
    send (record { recipient_id = r.id; digest_date = a.digest_date; target_id = g.id })

-- `InsertManyTx`; without an enqueuer the call is on a nil interface.
unfoldable pub enqueue : Option Enqueuer → List Job → Body World (Unit {0})
enqueue none jobs w = (panic, w)
enqueue (some q) jobs w = elim (q.insert w.queue jobs) [
  | none ↦ (err enqueue_failed, w)
  | some queue ↦ (ok tt, record w { queue = queue })
]

-- One delivery for each enabled target, if there is one.
unfoldable pub enqueue_sends :
    Deps → DigestArgs → Recipients → List NotificationTargets → Body World (Unit {0})
enqueue_sends d a r [] w = (ok tt, w)
enqueue_sends d a r (g ∷ gs) w = enqueue d.jobs (map (send_job a r) (g ∷ gs)) w

unfoldable pub fan_out : Deps → DigestArgs → Recipients → Body World (Unit {0})
fan_out d a r = do targets ← on_tables (list_enabled_targets r.id); enqueue_sends d a r targets

-- A forced capture of a day that was captured before writes the events anew.
unfoldable pub refresh : Deps → DigestArgs → Recipients → Text → Bool → Body World ℕ
refresh d a r events created w =
    if a.force && not created
    then on_tables (replace_snapshot_events events (format_time d.now) r.id a.digest_date) w
    else (ok 0, w)

unfoldable pub finish : Deps → DigestArgs → Recipients → Bool → Body World (Unit {0})
finish d a r created w = if not created && not a.force then (ok tt, w) else fan_out d a r w

-- The body of the transaction. The upsert joins it.
unfoldable pub capture_body : Deps → DigestArgs → Recipients → Text → Body World (Unit {0})
capture_body d a r events = do
  written ← on_tables (
      upsert_snapshot true d.conn d.token (record {
        recipient_id = r.id;
        digest_date = a.digest_date;
        events = events;
        created_at = format_time d.now;
      }))
  refresh d a r events written.1
  finish d a r written.1

unfoldable pub outcome : Outcome (Unit {0}) × World → WorkResult × World
outcome (ok u, w) = (done, w)
outcome (err e, w) = (retry, w)
outcome (panic, w) = (crashed, w)

-- What is done with what was read.
unfoldable pub captured : Deps → DigestArgs → Recipients → Gathered → Worker
captured d a r failed w = (retry, w)
captured d a r (denied id) w = (
  cancel,
  raise d calendar_access (not_captured r.name a.digest_date id) (record_calendar_access d false w),
)
captured d a r (got events) w = outcome (
    with_tx d.conn (capture_body d a r (d.encode (sort_by starts_before events)))
      (record_calendar_access d true w))

-- The calendar client, if there is one, is read outside the transaction.
unfoldable pub capture_from :
    Deps → DigestArgs → Recipients → Location → Option CalendarClient → Worker
capture_from d a r loc none w =
    (cancel, raise d calendar_access no_credential (record_calendar_access d false w))
capture_from d a r loc (some client) w =
    captured d a r (gather client a.digest_date loc [] (ids r.calendar_id)) w

-- `DigestWorker.Work`.
unfoldable pub capture : Deps → DigestArgs → Worker
capture d a w = elim (get_recipient a.recipient_id w.tables).0 [
  | err e ↦ (retry, w)
  | panic ↦ (crashed, w)
  | ok r ↦ elim (d.load_location r.tz) [
    | none ↦ (retry, w)
    | some loc ↦ capture_from d a r loc d.calendar w
  ]
]
