-- ===== src/Calendar/Convert.antt =====
-- internal/calendar/convert.go: which Google events are kept, and how they are converted. The
-- records of the Google client library are taken with the fields that the code reads.
pub mod Kept
use calendar_digest.Prelude.{
  Bool, true, false, not, ◌&&◌, if◌then◌else◌, List, [], ◌∷◌, ◌++◌, map, any, All, append_assoc,
  Option, none, some, ◌≡◌, refl, ap, sym, ◌∙◌, subst, arith, In, In-append-split, In-append-left,
  In-append-right, ◌↔◌, ◌⊎◌, ◌≢◌, inl, inr, Bool-cases, Option-cases,
}
use calendar_digest.Prelude.Chars.{Text, codes, text_eq, text_eq-ne, text_eq_complete}
use calendar_digest.Prelude.Words.{is_empty}
use calendar_digest.Clock.Layout.{◌>>=◌}
use calendar_digest.Clock.Stamp.{parse_rfc3339}
use calendar_digest.Clock.Zone.{Location, Time, clock_on}
use calendar_digest.Calendar.Event.{Event, Attendee, parse_in_location}

pub record GoogleDateTime : Type 0 where
  pub date : Text
  pub date_time : Text

pub record GoogleAttendee : Type 0 where
  pub email : Text
  pub display_name : Text
  pub response_status : Text
  pub optional : Bool
  pub self : Bool

pub record GoogleEvent : Type 0 where
  pub id : Text
  pub summary : Text
  pub description : Text
  pub location : Text
  pub start : Option GoogleDateTime
  pub end : Option GoogleDateTime
  pub status : Text
  pub transparency : Text
  pub hangout_link : Text
  pub html_link : Text
  pub recurring_event_id : Text
  pub organizer : Option Text
  pub attendees : List GoogleAttendee

abbrev pub declines : GoogleAttendee → Bool
declines a = a.self && text_eq a.response_status (codes "declined")

unfoldable pub declined_by_self : GoogleEvent → Bool
declined_by_self ev = any declines ev.attendees

unfoldable pub keep : GoogleEvent → Bool
keep ev =
    not (text_eq ev.status (codes "cancelled"))
    && not (text_eq ev.transparency (codes "transparent"))
    && not (declined_by_self ev)

-- The instant and whether it is a date; `none` is an error.
unfoldable pub resolve : Option GoogleDateTime → Location → Option (Time × Bool)
resolve none loc = none
resolve (some dt) loc =
    if is_empty dt.date
    then (do t ← parse_rfc3339 dt.date_time; some (record { sec = t; loc = loc }, false))
    else (do t ← parse_in_location dt.date loc; some (t, true))

attendee : GoogleAttendee → Attendee
attendee a = record {
  email = a.email;
  display_name = a.display_name;
  response = a.response_status;
  optional = a.optional;
  self = a.self;
}

unfoldable pub convert : GoogleEvent → Location → Option Event
unfolding attendee
convert item loc = do
  (start, all_day) ← resolve item.start loc
  (end, _) ← resolve item.end loc
  some (record {
    id = item.id;
    summary = item.summary;
    description = item.description;
    location = item.location;
    start = start;
    end = end;
    all_day = all_day;
    status = item.status;
    organizer = elim item.organizer [ none ↦ [] | some e ↦ e ];
    attendees = map attendee item.attendees;
    conference_url = item.hangout_link;
    html_link = item.html_link;
    recurring = not (is_empty item.recurring_event_id);
  })

-- The loop's body: what an item adds.
pub convert_one : GoogleEvent → Location → List Event
convert_one item loc =
    if not (keep item) then [] else elim (convert item loc) [ none ↦ [] | some ev ↦ ev ∷ [] ]

unfoldable pub convert_all : List GoogleEvent → Location → List Event
unfolding convert_one
convert_all [] loc = []
convert_all (item ∷ items) loc = convert_one item loc ++ convert_all items loc

-- Converting page by page is converting the pages' items in one row, in their order.
pub convert_all-append :
    (xs ys : List GoogleEvent) (loc : Location)
    → convert_all (xs ++ ys) loc ≡ convert_all xs loc ++ convert_all ys loc
unfolding convert_all
convert_all-append [] ys loc = refl
convert_all-append (x ∷ xs) ys loc =
    ap (λ r. convert_one x loc ++ r) (convert_all-append xs ys loc)
    ∙ sym (append_assoc (convert_one x loc) (convert_all xs loc) (convert_all ys loc))

resolve_local :
    (dt : Option GoogleDateTime) (loc : Location) (t : Time) (d : Bool)
    → resolve dt loc ≡ some (t, d)
    → t.loc ≡ loc
unfolding resolve parse_in_location clock_on
resolve_local none loc t d h = cc
resolve_local (some dt) loc t d h = ground arith

-- Converted times are in the recipient's zone.
convert_local :
    (item : GoogleEvent) (loc : Location) (ev : Event)
    → convert item loc ≡ some ev
    → (ev.start.loc ≡ loc) × (ev.end.loc ≡ loc)
unfolding convert
convert_local item loc ev h = elim (Option-cases (resolve item.start loc)) [
  | inl n ↦ ground arith
  | inr ((start, all_day), s) ↦ elim (Option-cases (resolve item.end loc)) [
    | inl n ↦ ground arith
    | inr ((end, d), e) ↦
        ground
          (arith, resolve_local item.start loc start all_day s, resolve_local item.end loc end d e)
  ]
]
