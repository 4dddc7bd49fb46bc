-- ===== src/Deliver/Email.antt =====
-- internal/deliver/email.go: the digest as an email. Its HTML part is in Html. `sender` is the
-- transport.
pub mod Condense
use calendar_digest.Prelude.{
  ℕ, ltb, Bool, true, false, not, if◌then◌else◌, List, [], ◌∷◌, ◌++◌, map, Option, none, some,
  length, take, ◌≡◌, refl,
}
use calendar_digest.Prelude.Chars.{Text, codes, text_eq}
use calendar_digest.Prelude.Words.{is_empty, trim_space, fields, join}
use calendar_digest.Prelude.Fields.{one_space}
use calendar_digest.Calendar.Event.{Event, Attendee}
use calendar_digest.Jobs.Deps.{Digest}
use calendar_digest.Deliver.Html.{EmailEvent, EmailView, execute_email}
use calendar_digest.Deliver.Message.{detail_url, headline, time_range, event_count, decode_target}

abbrev pub description_limit : ℕ
description_limit = 200

-- Go's `len` of a slice of runes, and the cut, are by code points.
unfoldable pub condense : Text → ℕ → Text
condense s limit =
    let line = join one_space (fields s) in
    if ltb limit (length line) then trim_space (take limit line) ++ codes "…" else line

-- The loop of `otherAttendees`.
unfoldable pub other_names : List Attendee → List Text
other_names [] = []
other_names (a ∷ as_) =
    let rest = other_names as_ in
    if a.self then rest else (if is_empty a.display_name then a.email else a.display_name) ∷ rest

unfoldable pub other_attendees : Event → Text
other_attendees ev = join (codes ", ") (other_names ev.attendees)

unfoldable pub email_event : Event → EmailEvent
email_event ev = record {
  time = time_range ev;
  summary = ev.summary;
  tentative = text_eq ev.status (codes "tentative");
  recurring = ev.recurring;
  location = ev.location;
  description = condense ev.description description_limit;
  conference_url = ev.conference_url;
  organizer = ev.organizer;
  with = other_attendees ev;
}

-- A line behind a label, if there is something to say.
abbrev line_if : Text → Text → List Text
line_if label s = if is_empty s then [] else (label ++ s) ∷ []

unfoldable pub detail_lines : EmailEvent → List Text
detail_lines ev =
    line_if [] ev.location
    ++ (line_if [] ev.description
        ++ (line_if (codes "Join: ") ev.conference_url
            ++ (line_if (codes "With: ") ev.with
                ++ (line_if (codes "Organiser: ") ev.organizer
                    ++ (if ev.recurring then codes "Repeats" ∷ [] else [])))))

abbrev newline : Text
newline = b'\n' ∷ []

write_lines : List Text → Text
write_lines [] = []
write_lines (l ∷ ls) = codes "    " ++ (l ++ (newline ++ write_lines ls))

write_events : List EmailEvent → Text
write_events [] = []
write_events (ev ∷ evs) =
    newline
    ++ (ev.time
        ++ (codes "  "
            ++ (ev.summary
                ++ ((if ev.tentative then codes " (tentative)" else [])
                    ++ (newline ++ (write_lines (detail_lines ev) ++ write_events evs))))))

unfoldable pub render_email_text : EmailView → Text
unfolding write_events write_lines
render_email_text view =
    view.headline
    ++ (codes " — "
        ++ (view.count
            ++ (newline
                ++ (write_events view.events
                    ++ (if is_empty view.detail_url
                        then []
                        else newline ++ (codes "Full detail: " ++ (view.detail_url ++ newline)))))))

unfoldable pub email_view : Text → Digest → EmailView
email_view base_url d = record {
  headline = headline d.date;
  count = event_count d;
  events = map email_event d.events;
  detail_url = detail_url base_url d.token;
}

pub record Email : Type 0 where
  pub subject : Text
  pub text : Text
  pub html_body : Text

-- `EmailRenderer.Render`.
unfoldable pub render_email : Text → Digest → Option Email
render_email base_url d =
    let view = email_view base_url d in
    elim (execute_email view) [
      | none ↦ none
      | some html_body ↦ some (record {
        subject =
            d.recipient_name ++ (codes " — " ++ (view.headline ++ (codes ": " ++ view.count)));
        text = render_email_text view;
        html_body = html_body;
      })
    ]

-- `EmailNotifier.Send`.
unfoldable pub send_email :
    (Text → Text → Option Text) → (Text → Email → Bool) → Text → Text → Digest → Bool
send_email unmarshal sender base_url config d =
    elim (decode_target unmarshal config (codes "address")) [
      | none ↦ false
      | some address ↦ elim (render_email base_url d) [
        | none ↦ false
        | some email ↦ sender address email
      ]
    ]
