-- ===== src/Ui/Forms.antt =====
-- internal/ui/recipients.go and home.go: what a form may hold, and how rows are shown. `addresses`
-- decodes a target's config, where a missing value is empty; JSON is no code of the repository.
use calendar_digest.Prelude.{if◌then◌else◌, List, [], ◌∷◌, ◌++◌, Option, none, some}
use calendar_digest.Prelude.Chars.{Text, codes, text_eq}
use calendar_digest.Prelude.Words.{is_empty}
use calendar_digest.Clock.Layout.{parse_clock}
use calendar_digest.Clock.Zone.{Location}
use calendar_digest.Store.Models.{Recipients, NotificationTargets}
use calendar_digest.Store.Recipients.{RecipientFields, telegram, email, sms}
use calendar_digest.Calendar.Ids.{ids}
use calendar_digest.Ui.Views.{
  TzProblem, no_tz, unknown_tz, Problem, no_name, no_calendar, bad_time, bad_tz, TargetFormRow,
  untried,
}

-- `addressKey`: the value of a config that each kind needs.
unfoldable pub address_key : Text → Option Text
address_key kind =
    if text_eq kind telegram
    then some (codes "chat_id")
    else if text_eq kind email
    then some (codes "address")
    else if text_eq kind sms
    then some (codes "phone")
    else none

pub record Addresses : Type 0 where
  pub chat_id : Text
  pub address : Text
  pub phone : Text

unfoldable pub target_address : (Text → Option Addresses) → Text → Text → Text
target_address addresses kind config = elim (addresses config) [
  | none ↦ config
  | some a ↦
      if text_eq kind telegram
      then a.chat_id
      else if text_eq kind email
      then a.address
      else if text_eq kind sms
      then a.phone
      else config
]

unfoldable pub target_row : (Text → Option Addresses) → NotificationTargets → TargetFormRow
target_row addresses t = record {
  id = t.id;
  kind = t.kind;
  address = target_address addresses t.kind t.config;
  enabled = t.enabled;
  status = untried;
}

unfoldable pub notify_time_problem : Text → Option Problem
notify_time_problem notify_time = elim (parse_clock notify_time) [
  | none ↦ some (bad_time notify_time)
  | some t ↦ none
]

abbrev pub listed : Option Problem → List Problem
listed none = []
listed (some p) = p ∷ []

module _ (load_location : Text → Option Location) where
  unfoldable pub tz_problem : Text → Option TzProblem
  tz_problem tz =
      if is_empty tz
      then some no_tz
      else elim (load_location tz) [ none ↦ some (unknown_tz tz) | some loc ↦ none ]

  abbrev pub of_tz : Option TzProblem → Option Problem
  of_tz none = none
  of_tz (some p) = some (bad_tz p)

  unfoldable pub schedule_problem : Recipients → Option Problem
  schedule_problem r = elim (tz_problem r.tz) [
    | some p ↦ some (bad_tz p)
    | none ↦ notify_time_problem r.notify_time
  ]

  -- `problems`: the map's entries, one for each field with a problem.
  unfoldable pub problems : RecipientFields → List Problem
  problems s =
      (if is_empty s.name then no_name ∷ [] else [])
      ++ ((if is_empty (ids s.calendar_id) then no_calendar ∷ [] else [])
          ++ (listed (notify_time_problem s.notify_time) ++ listed (of_tz (tz_problem s.tz))))
