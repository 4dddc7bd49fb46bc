-- ===== src/Calendar/Examples.antt =====
-- Examples of reading a day of a calendar.
use mathlib.Core.List.{flatten}
use calendar_digest.Prelude.{
  ℕ, ◌+◌, ◌-◌, ◌*◌, true, false, [], ◌∷◌, none, some, In, ◌≡◌, refl, arith, ◌↔◌,
}
use calendar_digest.Prelude.Chars.{Text, codes}
use calendar_digest.Clock.Civil.{civil, days_of, year_start, days_in_month, is_leap}
use calendar_digest.Clock.Layout.{
  format_date, parse_date, read_date, getnum, getyear, skip, at_end, check_date,
}
use calendar_digest.Clock.Zone.{Time, utc, clock_on, wall, instant, lookup, day_seconds}
use calendar_digest.Calendar.Event.{Event, day_window, parse_in_location, next_day}
use calendar_digest.Calendar.Event.Window.{day_window_meets, day_window_skips, skips_midnight}
use calendar_digest.Calendar.Convert.{GoogleEvent, convert, convert_all, resolve}
use calendar_digest.Calendar.Convert.Kept.{IsKept, convert_all_iff}
use calendar_digest.Calendar.Google.{ok, Pages, events_for_day, events_for_day_pages}

-- An all-day event, declined by a guest and not by the owner.
abbrev holiday : GoogleEvent
holiday = record {
  id = codes "e1";
  summary = codes "Holiday";
  description = [];
  location = [];
  start = some (record { date = codes "2026-08-05"; date_time = [] });
  end = some (record { date = codes "2026-08-06"; date_time = [] });
  status = codes "confirmed";
  transparency = codes "opaque";
  hangout_link = [];
  html_link = [];
  recurring_event_id = [];
  organizer = none;
  attendees =
      record {
        email = codes "b@y";
        display_name = codes "Ben";
        response_status = codes "declined";
        optional = false;
        self = false;
      }
      ∷ [];
}

-- 2026-08-05 and the next day, at UTC.
abbrev on_day : ℕ → Time
on_day n = record { sec = n * day_seconds; loc = utc }

abbrev holiday_event : Event
holiday_event = record {
  id = codes "e1";
  summary = codes "Holiday";
  description = [];
  location = [];
  start = on_day 739832;
  end = on_day 739833;
  all_day = true;
  status = codes "confirmed";
  organizer = [];
  attendees =
      record {
        email = codes "b@y";
        display_name = codes "Ben";
        response = codes "declined";
        optional = false;
        self = false;
      }
      ∷ [];
  conference_url = [];
  html_link = [];
  recurring = false;
}

holiday_converts : convert holiday utc ≡ some holiday_event
unfolding convert resolve parse_in_location parse_date read_date getnum getyear skip at_end
    check_date clock_on instant lookup days_of year_start days_in_month is_leap
holiday_converts = refl

convert_all_iff_example : In holiday_event (convert_all (holiday ∷ []) utc) ↔ (
    (item : GoogleEvent) × In item (holiday ∷ [])
    × IsKept item
    × (convert item utc ≡ some holiday_event))
convert_all_iff_example = convert_all_iff (holiday ∷ []) utc holiday_event

abbrev two_pages : Text → Time × Time → Pages
two_pages id day = record { items = (holiday ∷ []) ∷ (holiday ∷ []) ∷ []; failure = none }

wednesday_window : day_window (codes "2026-08-05") utc ≡ some (on_day 739832, on_day 739833)
unfolding day_window parse_in_location next_day parse_date read_date getnum getyear skip at_end
    check_date clock_on instant wall lookup days_of year_start days_in_month is_leap
wednesday_window = refl

events_for_day_pages_example :
    events_for_day two_pages (codes "a@x") (codes "2026-08-05") utc
    ≡ ok (convert_all (flatten ((holiday ∷ []) ∷ (holiday ∷ []) ∷ [])) utc)
events_for_day_pages_example =
    events_for_day_pages two_pages (codes "a@x") (codes "2026-08-05") utc
      (on_day 739832, on_day 739833) wednesday_window refl

midnight_shows : wall utc (clock_on utc (civil 739832) 0 0).sec ≡ 739832 * day_seconds
unfolding wall lookup clock_on instant civil days_of year_start
midnight_shows = refl

day_window_meets_example :
    (start meet end : Time) × (day_window (format_date (civil 739832)) utc ≡ some (start, meet))
    × (day_window (format_date (civil (739832 + 1))) utc ≡ some (meet, end))
day_window_meets_example = day_window_meets 739832 utc (omega arith) midnight_shows

day_window_skips_example :
    (start end : Time) × (day_window
        (format_date (civil 739832))
        (skips_midnight (codes "America/Santiago") 739832 14400 10800)
      ≡ some (start, end))
    × (start.sec + (14400 - 10800) ≡ 739832 * day_seconds + 14400)
    × (end.sec + (14400 - 10800)
        ≡ (clock_on
            (skips_midnight (codes "America/Santiago") 739832 14400 10800)
            (civil (739832 + 1))
            0
            0).sec)
day_window_skips_example =
    day_window_skips (codes "America/Santiago") 739832 14400 10800 (omega arith) (omega arith)
      (omega arith) (omega arith)
