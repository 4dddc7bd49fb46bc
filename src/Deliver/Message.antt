-- ===== src/Deliver/Message.antt =====
-- internal/deliver/deliver.go, notifier.go and digest.TimeRange of internal/digest/digest.go: what
-- the channels share. JSON is no code of the repository: `unmarshal` reads one field of a target's
-- config, the empty text where it is missing, and `none` is its error.
use calendar_digest.Prelude.{
  ℕ, ◌/◌, ◌%◌, ◌==◌, if◌then◌else◌, [], ◌++◌, Option, none, some, length, ◌≡◌, refl,
}
use calendar_digest.Prelude.Chars.{Text, codes, decimal}
use calendar_digest.Prelude.Words.{is_empty, trim_suffix}
use calendar_digest.Clock.Civil.{days_of, year_start, days_in_month, is_leap}
use calendar_digest.Clock.Layout.{
  parse_date, format_clock, read_date, getnum, getyear, skip, at_end, check_date,
}
use calendar_digest.Clock.Zone.{Time, wall, day_seconds}
use calendar_digest.Calendar.Event.{Event}
use calendar_digest.Jobs.Deps.{Digest}

unfoldable pub detail_url : Text → Text → Text
detail_url base_url token =
    if is_empty base_url
    then []
    else if is_empty token
    then []
    else trim_suffix b'/' base_url ++ (codes "/d/" ++ token)

-- `time.Weekday` and `time.Month` as Go prints them; day 0 is a Monday.
abbrev pub weekday : ℕ → Text
weekday n =
    let k = n % 7 in
    if k == 0
    then codes "Monday"
    else if k == 1
    then codes "Tuesday"
    else if k == 2
    then codes "Wednesday"
    else if k == 3
    then codes "Thursday"
    else if k == 4
    then codes "Friday"
    else if k == 5
    then codes "Saturday"
    else codes "Sunday"

abbrev pub month_name : ℕ → Text
month_name m =
    if m == 1
    then codes "January"
    else if m == 2
    then codes "February"
    else if m == 3
    then codes "March"
    else if m == 4
    then codes "April"
    else if m == 5
    then codes "May"
    else if m == 6
    then codes "June"
    else if m == 7
    then codes "July"
    else if m == 8
    then codes "August"
    else if m == 9
    then codes "September"
    else if m == 10
    then codes "October"
    else if m == 11
    then codes "November"
    else codes "December"

unfoldable pub headline : Text → Text
headline date = elim (parse_date date) [
  | none ↦ date
  | some d ↦
      weekday (days_of d) ++ (codes ", " ++ (decimal d.day ++ (codes " " ++ month_name d.month)))
]

-- `t.Format("15:04")`.
unfoldable pub clock_text : Time → Text
clock_text t = let s = wall t.loc t.sec % day_seconds in format_clock (s / 3600) (s % 3600 / 60)

unfoldable pub time_range : Event → Text
time_range ev =
    if ev.all_day then codes "All day" else clock_text ev.start ++ (codes "–" ++ clock_text ev.end)

unfoldable pub event_count : Digest → Text
event_count d =
    if length d.events == 0
    then codes "nothing on"
    else if length d.events == 1
    then codes "1 event"
    else decimal (length d.events) ++ codes " events"

-- The address in a target's config: `none` is `ErrTargetConfig`.
unfoldable pub decode_target : (Text → Text → Option Text) → Text → Text → Option Text
decode_target unmarshal config field = elim (unmarshal field config) [
  | none ↦ none
  | some address ↦ if is_empty address then none else some address
]

headline_test : headline (codes "2026-08-05") ≡ codes "Wednesday, 5 August"
unfolding headline parse_date read_date getnum getyear skip at_end check_date days_in_month is_leap
    days_of year_start decimal
headline_test = refl
