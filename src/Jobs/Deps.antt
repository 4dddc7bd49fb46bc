-- ===== src/Jobs/Deps.antt =====
-- internal/jobs/workers.go and the job arguments: what the workers share. The state is the database,
-- that is the tables and River's queue, which one transaction covers. River, the calendar service,
-- the channels, the zone database and JSON are not code of the repository; each is a function in
-- `Deps`.
use calendar_digest.Prelude.{
  ℕ, Bool, true, false, if◌then◌else◌, List, [], ◌∷◌, ◌++◌, keep_if, Option, none, some, In, ◌≡◌,
  refl, sym, ap, subst, ◌∙◌, inl, inr, arith, append-nil,
}
use calendar_digest.Prelude.Chars.{Text, text_eq}
use calendar_digest.Clock.Zone.{Location}
use calendar_digest.Calendar.Event.{Event}
use calendar_digest.Calendar.Google.{Fetched}
use calendar_digest.Store.Tables.{Tables}
use calendar_digest.Store.Tx.{Body, Conn}

pub record DigestArgs : Type 0 where
  pub recipient_id : ℕ
  pub digest_date : Text
  pub force : Bool

pub record SendArgs : Type 0 where
  pub recipient_id : ℕ
  pub digest_date : Text
  pub target_id : ℕ

pub data AlertSubject : Type 0 where
  calendar_access calendar_restored : AlertSubject

-- What the text of an alert is made of: the unset credential, a calendar of a recipient that cannot
-- be read (for a date, or in the daily check), or the recovery.
pub data Detail : Type 0 where
  no_credential recovered : Detail
  not_captured : Text → Text → Text → Detail
  not_readable : Text → Text → Detail

pub record AlertArgs : Type 0 where
  pub subject : AlertSubject
  pub detail : Detail

pub data Job : Type 0 where
  digest : DigestArgs → Job
  send : SendArgs → Job
  alert : AlertArgs → Job

pub record World : Type 0 where
  pub tables : Tables
  pub queue : List Job

abbrev pub is_send : Job → Bool
is_send (send a) = true
is_send _ = false

-- The deliveries in the queue.
abbrev pub sends : List Job → List Job
sends = keep_if is_send

-- River's insert: the queue with the jobs that it took, which it may drop as duplicates, or a
-- failure, `none`.
pub record Enqueuer : Type 0 where
  pub insert : List Job → List Job → Option (List Job)
  pub appends :
      (queue jobs queue' : List Job)
      → insert queue jobs ≡ some queue'
      → (kept : List Job) × (queue' ≡ queue ++ kept) × ((j : Job) → In j kept → In j jobs)

-- What a notifier is handed, `digest.Digest`.
pub record Digest : Type 0 where
  pub recipient_name : Text
  pub date : Text
  pub token : Text
  pub events : List Event

-- Whether `Send` returned no error, for a target's config and a digest.
abbrev pub Notifier : Type 0
Notifier = Text → Digest → Bool

pub record CalendarClient : Type 0 where
  pub events_for_day : Text → Text → Location → Fetched (List Event)
  pub verify_access : Text → Fetched (Unit {0})

pub record Deps : Type 0 where
  pub conn : Conn
  pub load_location : Text → Option Location
  pub calendar : Option CalendarClient
  pub notifiers : List (Text × Notifier)
  pub now : ℕ
  pub snapshot_retention_days : ℕ
  pub jobs : Option Enqueuer
  pub encode : List Event → Text
  pub decode : Text → Option (List Event)
  pub token : Text

-- How a worker ends: done, with an error that River retries, or cancelled.
pub data WorkResult : Type 0 where
  done retry cancel crashed : WorkResult

abbrev pub Worker : Type 0
Worker = World → WorkResult × World

-- A query or a helper of the store, on the tables of the database.
abbrev pub on_tables : {A : Type 0} → Body Tables A → Body World A
on_tables m w = let r = m w.tables in (r.0, record w { tables = r.1 })

-- The map `Notifiers`, by kind.
unfoldable pub notifier_for : Text → List (Text × Notifier) → Option Notifier
notifier_for kind [] = none
notifier_for kind ((k, n) ∷ ns) =
    let rest = notifier_for kind ns in if text_eq k kind then some n else rest

keep_if-append : (xs ys : List Job) → sends (xs ++ ys) ≡ sends xs ++ sends ys
keep_if-append [] ys = refl
keep_if-append (x ∷ xs) ys = ground (arith, keep_if-append xs ys)

no_sends : (xs : List Job) → ((j : Job) → In j xs → is_send j ≡ false) → sends xs ≡ []
no_sends [] h = refl
no_sends (x ∷ xs) h = rw (h x (inl refl)) (no_sends xs (λ j m. h j (inr m)))

-- Inserting jobs of other kinds leaves the deliveries as they are.
pub sends-insert :
    (q : Enqueuer) (queue queue' : List Job) (j : Job)
    → is_send j ≡ false
    → q.insert queue (j ∷ []) ≡ some queue'
    → sends queue' ≡ sends queue
sends-insert q queue queue' j h e =
    let (kept, grown, from) = q.appends queue (j ∷ []) queue' e in
    ap sends grown
    ∙ keep_if-append queue kept
    ∙ ap (λ r. sends queue ++ r)
        (no_sends kept (λ i m. elim (from i m) [
          | inl same ↦ subst (λ x. is_send x ≡ false) (sym same) h
          | inr n ↦ absurd n
        ]))
    ∙ append-nil (sends queue)
