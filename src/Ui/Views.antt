-- ===== src/Ui/Views.antt =====
-- internal/ui/templates/views.go: what the pages show. The sentences that name a problem or the
-- outcome of a try are constructors here, with the values that they quote.
use calendar_digest.Prelude.{ℕ, Bool, List, Option}
use calendar_digest.Prelude.Chars.{Text}

pub data TzProblem : Type 0 where
  no_tz : TzProblem
  unknown_tz : Text → TzProblem

-- The problems of a recipient, each of a field of the form.
pub data Problem : Type 0 where
  no_name no_calendar : Problem
  bad_time : Text → Problem
  bad_tz : TzProblem → Problem

pub data TargetStatus : Type 0 where
  untried failed sent : TargetStatus
  not_wired : Text → TargetStatus

pub data CaptureStatus : Type 0 where
  no_runner bad_zone failed : CaptureStatus
  queued : Text → CaptureStatus

pub record TargetRow : Type 0 where
  pub id : ℕ
  pub kind : Text
  pub address : Text
  pub enabled : Bool

pub record TargetFormRow : Type 0 where
  pub id : ℕ
  pub kind : Text
  pub address : Text
  pub enabled : Bool
  pub status : TargetStatus

-- A new recipient has no id yet, `none`.
pub record RecipientFormView : Type 0 where
  pub title : Text
  pub id : Option ℕ
  pub name : Text
  pub calendar_id : Text
  pub notify_time : Text
  pub tz : Text
  pub enabled : Bool
  pub problems : List Problem
  pub targets : List TargetFormRow

pub record RecipientRow : Type 0 where
  pub id : ℕ
  pub name : Text
  pub schedule : Text
  pub enabled : Bool
  pub next_run : Text
  pub schedule_problem : Option Problem
  pub targets : List TargetRow
  pub last_digest : Text
  pub last_digest_url : Text
  pub delivered : Bool

pub record UndeliveredRow : Type 0 where
  pub recipient_name : Text
  pub digest_date : Text
  pub age : Text
  pub url : Text

pub record HomeView : Type 0 where
  pub flash : Text
  pub recipients : List RecipientRow
  pub undelivered : List UndeliveredRow
  pub base_url : Text

pub record AttendeeView : Type 0 where
  pub name : Text
  pub response : Text
  pub optional : Bool

pub record EventView : Type 0 where
  pub time : Text
  pub summary : Text
  pub tentative : Bool
  pub recurring : Bool
  pub location : Text
  pub description : Text
  pub conference_url : Text
  pub calendar_url : Text
  pub organizer : Text
  pub attendees : List AttendeeView

pub record DigestView : Type 0 where
  pub title : Text
  pub recipient_name : Text
  pub zone : Text
  pub date : Text
  pub events : List EventView
  pub captured_at : Text

-- What a request is answered with: an error, a page, a redirect, or the part of the page that is
-- replaced. `silent` is an answer with nothing in it; `broken` is a panic, after which the server
-- answers for the handler.
pub data Response : Type 0 where
  not_found bad_request server_error silent broken : Response
  home_page : HomeView → Response
  digest_page : DigestView → Response
  form_page : RecipientFormView → Response
  patch_form : RecipientFormView → Response
  patch_targets : ℕ → List TargetFormRow → Bool → Response
  patch_row : TargetFormRow → Response
  patch_capture : ℕ → CaptureStatus → Response
  remove_row : ℕ → Response
  redirect : Text → Response
