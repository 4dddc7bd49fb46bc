-- ===== src/Calendar/Fake.antt =====
-- internal/calendar/fake.go: the client for tests, which answers from what was set. Its lock makes
-- each call one step. The map of days is a list, newest first.
use calendar_digest.Prelude.{if◌then◌else◌, List, [], ◌∷◌, ◌++◌, Option, none, some, ◌≡◌, ◌≢◌, refl}
use calendar_digest.Prelude.Chars.{Text, codes, text_eq, text_eq_refl, text_eq-ne}
use calendar_digest.Calendar.Event.{Event}
use calendar_digest.Calendar.Google.{FetchError, Fetched, ok, err}

pub record FakeCall : Type 0 where
  pub calendar_id : Text
  pub date : Text
  pub zone : Text

pub record Fake : Type 0 where
  pub days : List (Text × List Event)
  pub calls : List FakeCall
  pub failure : Option FetchError

abbrev pub new_fake : Fake
new_fake = record { days = []; calls = []; failure = none }

unfoldable pub fake_key : Text → Text → Text
fake_key calendar_id date = calendar_id ++ b'|' ∷ date

-- `Set`.
unfoldable pub set_day : Text → Text → List Event → Fake → Fake
set_day calendar_id date events f = record f { days = (fake_key calendar_id date, events) ∷ f.days }

-- What a key holds; a day never set has no events.
unfoldable pub day_of : Text → List (Text × List Event) → List Event
day_of key [] = []
day_of key ((k, events) ∷ days) =
    let rest = day_of key days in if text_eq key k then events else rest

abbrev recorded : FakeCall → Fake → Fake
recorded call f = record f { calls = f.calls ++ call ∷ [] }

unfoldable pub fake_events_for_day : Text → Text → Text → Fake → Fetched (List Event) × Fake
fake_events_for_day calendar_id date zone f =
    let g = recorded (record { calendar_id = calendar_id; date = date; zone = zone }) f in
    elim f.failure [
      | some e ↦ (err e, g)
      | none ↦ (ok (day_of (fake_key calendar_id date) f.days), g)
    ]

unfoldable pub fake_verify_access : Text → Fake → Fetched (Unit {0}) × Fake
fake_verify_access calendar_id f =
    let g = recorded (record { calendar_id = calendar_id; date = codes "verify"; zone = [] }) f in
    elim f.failure [ some e ↦ (err e, g) | none ↦ (ok tt, g) ]

-- What was set for a day is what the day is answered with, on every calendar and zone, and a day with
-- another key is answered as before.
pub events-set_day :
    (id date zone id' date' : Text) (events : List Event) (f : Fake)
    → f.failure ≡ none
    → fake_key id' date' ≢ fake_key id date
    → ((fake_events_for_day id date zone (set_day id date events f)).0 ≡ ok events)
      × ((fake_events_for_day id' date' zone (set_day id date events f)).0
          ≡ (fake_events_for_day id' date' zone f).0)
unfolding fake_events_for_day set_day day_of
events-set_day id date zone id' date' events f h n = (
  rw (h, text_eq_refl (fake_key id date)) refl,
  rw (h, text_eq-ne (fake_key id' date') (fake_key id date) n) refl,
)
