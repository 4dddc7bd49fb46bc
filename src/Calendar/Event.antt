-- ===== src/Calendar/Event.antt =====
-- internal/calendar/calendar.go: events and attendees, and the window of a day.
pub mod Window
use calendar_digest.Prelude.{ℕ, ◌+◌, Bool, List, Option, none, some}
use calendar_digest.Prelude.Chars.{Text}
use calendar_digest.Clock.Layout.{parse_date}
use calendar_digest.Clock.Zone.{Location, Time, clock_on, instant, wall, day_seconds}

pub record Attendee : Type 0 where
  pub email : Text
  pub display_name : Text
  pub response : Text
  pub optional : Bool
  pub self : Bool

pub record Event : Type 0 where
  pub id : Text
  pub summary : Text
  pub description : Text
  pub location : Text
  pub start : Time
  pub end : Time
  pub all_day : Bool
  pub status : Text
  pub organizer : Text
  pub attendees : List Attendee
  pub conference_url : Text
  pub html_link : Text
  pub recurring : Bool

-- `time.ParseInLocation(time.DateOnly, date, loc)`.
unfoldable pub parse_in_location : Text → Location → Option Time
parse_in_location date loc = elim (parse_date date) [
  | none ↦ none
  | some t ↦ some (clock_on loc t 0 0)
]

-- `t.AddDate(0, 0, 1)`: the same wall clock on the next calendar day, in the time's own zone.
unfoldable pub next_day : Time → Time
next_day t = record { sec = instant t.loc (wall t.loc t.sec + day_seconds); loc = t.loc }

-- The interval from local midnight to before the next, or `none` for a date that cannot be read.
unfoldable pub day_window : Text → Location → Option (Time × Time)
day_window date loc = elim (parse_in_location date loc) [
  | none ↦ none
  | some start ↦ some (start, next_day start)
]
