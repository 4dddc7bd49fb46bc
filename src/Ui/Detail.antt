-- ===== src/Ui/Detail.antt =====
-- internal/ui/digest.go: the page of one captured day, which a token opens.
use calendar_digest.Prelude.{ℕ, if◌then◌else◌, List, [], ◌++◌, map, Option, none, some}
use calendar_digest.Prelude.Chars.{Text, codes, text_eq, decimal, pad4}
use calendar_digest.Prelude.Words.{is_empty}
use calendar_digest.Clock.Civil.{Date, days_of}
use calendar_digest.Clock.Layout.{parse_date}
use calendar_digest.Clock.Zone.{Location, in_zone, utc}
use calendar_digest.Calendar.Event.{Attendee, Event}
use calendar_digest.Store.Models.{Recipients, DigestSnapshots}
use calendar_digest.Store.Times.{parse_time}
use calendar_digest.Store.Recipients.{get_recipient}
use calendar_digest.Store.Snapshots.{find_snapshot_by_token}
use calendar_digest.Deliver.Message.{weekday, month_name, time_range}
use calendar_digest.Ui.Views.{AttendeeView, EventView, DigestView, server_error, digest_page}
use calendar_digest.Ui.Pages.{Pages, Handler, loaded, query_or, zone_or_utc}
use calendar_digest.Ui.Home.{long_time}

unfoldable pub response_label : Text → Text
response_label response =
    if text_eq response (codes "accepted")
    then codes "Accepted"
    else if text_eq response (codes "declined")
    then codes "Declined"
    else if text_eq response (codes "tentative")
    then codes "Maybe"
    else if text_eq response (codes "needsAction")
    then codes "No reply"
    else response

unfoldable pub attendee_view : Attendee → AttendeeView
attendee_view a = record {
  name = if is_empty a.display_name then a.email else a.display_name;
  response = response_label a.response;
  optional = a.optional;
}

unfoldable pub event_view : Event → EventView
event_view ev = record {
  time = time_range ev;
  summary = ev.summary;
  tentative = text_eq ev.status (codes "tentative");
  recurring = ev.recurring;
  location = ev.location;
  description = ev.description;
  conference_url = ev.conference_url;
  calendar_url = ev.html_link;
  organizer = ev.organizer;
  attendees = map attendee_view ev.attendees;
}

-- "Monday, 2 January 2006".
unfoldable pub long_date : Date → Text
long_date d =
    weekday (days_of d)
    ++ (codes ", "
        ++ (decimal d.day ++ (codes " " ++ (month_name d.month ++ (codes " " ++ pad4 d.year)))))

unfoldable pub captured_at : (Location → ℕ → Text) → Text → Location → Text
captured_at zone_name stored loc = elim (parse_time stored) [
  | none ↦ []
  | some at ↦ long_time zone_name (in_zone loc (record { sec = at; loc = utc }))
]

module _ (p : Pages) where
  -- `digestView`: `none` is its error.
  unfoldable pub digest_view : Recipients → DigestSnapshots → List Event → Option DigestView
  digest_view r s events = elim (parse_date s.digest_date) [
    | none ↦ none
    | some d ↦
        let loc = zone_or_utc p.load_location r.tz in
        let long = long_date d in
        some (record {
          title = r.name ++ (codes " — " ++ long);
          recipient_name = r.name;
          zone = loc.name;
          date = long;
          events = map event_view events;
          captured_at = captured_at p.zone_name s.created_at loc;
        })
  ]

  unfoldable pub show_snapshot : DigestSnapshots → Handler
  show_snapshot s site = query_or (get_recipient s.recipient_id site.world.tables) site λ r.
      λ site'. elim (p.decode s.events) [
        | none ↦ (server_error, site')
        | some events ↦ elim (digest_view r s events) [
          | none ↦ (server_error, site')
          | some view ↦ (digest_page view, site')
        ]
      ]

  -- `handleDigestDetail`.
  unfoldable pub digest_detail : Text → Handler
  digest_detail token site =
      loaded (find_snapshot_by_token token site.world.tables).0 show_snapshot site
