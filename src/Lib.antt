-- ===== src/Lib.antt =====
-- Verification of calendar-digest, a service that sends people a digest of the next day of their
-- calendars.
--
-- The parts and how they interact. A scan (internal/jobs/scan.go) runs every few minutes, reads the
-- recipients and the keys of the snapshots from the store (internal/store), asks the due check
-- (internal/digest/due.go) which digests are owed, and queues a capture for each. A capture
-- (internal/jobs/digest.go) reads the recipient's calendars (internal/calendar), and in one
-- transaction writes the snapshot and queues a delivery for each enabled target. A delivery
-- (internal/jobs/send.go) hands the snapshot to the notifier of its target and marks it as notified.
-- A daily pass (internal/jobs/purge.go) removes old snapshots, and another (internal/jobs/verify.go)
-- tries every calendar. A calendar that cannot be read raises an alert to the operator
-- (internal/jobs/alert.go). The notifiers (internal/deliver) render the digest for SMS, email or
-- Telegram and hand it to a transport. The pages (internal/ui) show the recipients and one captured
-- day, edit recipients and their targets, and can run a capture or a test delivery at once. The
-- settings (internal/config) decide which channels there are.
--
-- The files:
-- - Prelude and its children: Boolean tests and lists over the native numbers, texts as lists of
--   character codes, stable sorting (`sort.SliceStable`, ORDER BY), and the functions of `strings`.
-- - Clock: what the code uses of Go's `time`. Civil has dates and day numbers, Zone has locations,
--   offsets and `time.Date`, Layout and Stamp have the layouts "2006-01-02", "15:04" and RFC 3339.
-- - Store/Models, Tables, Snapshots, Flags, Recipients: internal/store/models.go, the schema in
--   assets/migrations, and each query of snapshots.sql.go, app_state.sql.go, recipients.sql.go and
--   targets.sql.go, as a function on the four tables, named after the query in snake case.
--   Snapshots also has `MarkNotified` and `UpsertSnapshot` of snapshots.go, Flags has `SetFlag` of
--   flags.go, and Times has `FormatTime` and `ParseTime`.
-- - Store/Tx: internal/store/tx.go (`InTx`, `WithTx`, `EnsureTx`, `beginFunc`).
-- - Calendar/Ids, Event, Convert, Google: internal/calendar/calendar.go (`IDs`, `DayWindow`),
--   convert.go (`keep`, `convert`, `convertAll`, `resolve`) and google.go (`classify`,
--   `EventsForDay`, `VerifyAccess`).
-- - Digest/Due: internal/digest/due.go (`Due`, `candidates`, `NextRun`, `SnapshotFloor`).
-- - Jobs/Deps, Alert, Capture, Scan, Send, Purge, Verify: the workers of internal/jobs; Retention has
--   the purge beside the due check. Each `Work` is a function from the state, which is the tables and
--   the queue, to how it ended and the state after.
-- - Config: internal/config/config.go, the settings and what `Load` refuses.
-- - Deliver/Message, Sms, Email, Html, Telegram: internal/deliver/deliver.go, notifier.go,
--   sms.go, email.go and telegram.go, and `TimeRange` of internal/digest/digest.go: the texts of
--   the messages and each notifier's `Send`. Html is the template `emailHTML`, and Escape the
--   escapers that html/template puts behind its actions. Senders has smtp.go, cloudflare.go and
--   internal/notify/telegram.go, whose `redactToken` Redact has, and Notifiers has
--   `buildNotifiers` of internal/cmd/serve_cmd.go.
-- - Ui/Views, Forms, Pages, Recipients, Targets, Home, Detail, Serve: internal/ui. A handler is a
--   function from the site (the tables, the queue and the flash message) to the response and the
--   site after it; a response holds the record that its template shows, from
--   internal/ui/templates/views.go. `serve` is the table of routes of ui.go.
-- - System: the steps of the whole program, which are requests, jobs and changes of River's queue,
--   and what every state that they reach satisfies.
-- - Server: internal/server. Origins has the check of the origin, Routes the router with its
--   middleware, as a function from a request and the site to the reply and the site after it; Guards,
--   Denied and Writes are about what the check lets through.
-- - Boot: internal/cmd with store/pool.go, store/migrate.go and jobs/client.go. An action is its result
--   with the list of its effects (a handle that is opened, a ping, River started, and so on); Database,
--   Client, App and Run have the code, Orderly says in which order effects may stand, Retention is
--   about the jobs of the process that is started, and Health has healthcheck_cmd.go.
-- - Logging: internal/logging/logging.go; Version: internal/version/version.go; Calendar/Fake:
--   internal/calendar/fake.go.
-- - Examples, in each part: the theorems at concrete inputs.
--
-- State and errors. A query is a function from the tables to an outcome (a value, an error, or a
-- panic) and the tables after it. A transaction takes back what its body wrote unless it commits;
-- whether it begins and commits is an argument. Instants are whole seconds since 0001-01-01 UTC.
-- Wall clocks are not negative from 0001-01-02 on, and dates have four digits up to 9999-12-31;
-- the theorems that depend on it say so. Row ids are positive and grow by one from the largest.
-- A single statement on the database does not fail for lack of the disk or of the connection.
--
-- Loops are recursion on the list that they run over, and the wait for the database is recursion on
-- the attempts that are left; no fuel is used.
--
-- Parameters, as their code is not in the repository: the zone database (`load_location`), the
-- answers of the calendar service, JSON (`encode`, `decode`, `marshal`, `unmarshal`, `addresses`;
-- it is taken not to fail when it encodes events), HTTP, the mail library, the database driver,
-- the file system, `url.Parse`, the decoding of the environment, the abbreviation of a zone, the
-- random token, River's insert, which may drop a job as a duplicate or fail, and what its
-- dashboard does with the queue. In Jobs, the notifiers are an argument too; Deliver/Notifiers has
-- the ones of the program.
--
-- Not modelled: the rendering of the templates of the pages, the messages of the log and the texts
-- of errors, as no decision of the code depends on them (only `redactToken` is, for what it must
-- not show); kong's command line, the random numbers of a token, `MigrateUpTo`, which is for
-- tests, and the helpers of the tests. chi, huma, scs, goose, River and slog are parameters: a
-- request comes with the route that it matched, and a session is the flash message that it
-- carries. Where a page cannot be written to the client, the response is lost.
mod Prelude
pub mod Clock
pub mod Store
pub mod Calendar
pub mod Digest
pub mod Jobs
pub mod Config
pub mod Logging
pub mod Version
pub mod Server
pub mod Boot
pub mod Deliver
pub mod Ui
pub mod System
