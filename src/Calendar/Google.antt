-- ===== src/Calendar/Google.antt =====
-- internal/calendar/google.go: reading a day through the Google client. What the service answers is
-- an argument: the pages that were delivered, and the error that ended them, if one did.
use mathlib.Core.List.{flatten}
use calendar_digest.Prelude.{
  ℕ, Bool, true, false, ◌||◌, ◌==◌, if◌then◌else◌, List, [], ◌∷◌, ◌++◌, Option, none, some, ◌≡◌, ap,
  sym, ◌∙◌, ◌↔◌, ◌⊎◌, append_assoc, append-nil, arith,
}
use calendar_digest.Prelude.Chars.{Text}
use calendar_digest.Clock.Zone.{Location, Time}
use calendar_digest.Calendar.Event.{Event, day_window}
use calendar_digest.Calendar.Convert.{GoogleEvent, convert_all, convert_all-append}

-- What `errors.As` finds in an error of the client: the status of an API error, and whether the
-- token exchange was rejected.
pub record ServiceError : Type 0 where
  pub api_code : Option ℕ
  pub token_rejected : Bool

-- A fetch that failed: on a date that cannot be read, with `ErrAccess`, or for another reason.
pub data FetchError : Type 0 where
  bad_date access other : FetchError

pub data Fetched {ℓ} (A : Type ℓ) : Type ℓ where
  ok : A → Fetched A
  err : FetchError → Fetched A

abbrev refuses : ℕ → Bool
refuses code = (code == 401) || (code == 403) || (code == 404)

unfoldable pub classify : ServiceError → FetchError
classify e =
    if elim e.api_code [ none ↦ false | some code ↦ refuses code ]
    then access
    else if e.token_rejected
    then access
    else other

pub record Pages : Type 0 where
  pub items : List (List GoogleEvent)
  pub failure : Option ServiceError

-- The callback of `call.Pages`, for each page in turn.
append_pages : List Event → List (List GoogleEvent) → Location → List Event
append_pages out [] loc = out
append_pages out (page ∷ pages) loc = append_pages (out ++ convert_all page loc) pages loc

-- `list` is the service: it is asked for a calendar and a window.
unfoldable pub events_for_day :
    (Text → Time × Time → Pages) → Text → Text → Location → Fetched (List Event)
unfolding append_pages
events_for_day list calendar_id date loc = elim (day_window date loc) [
  | none ↦ err bad_date
  | some window ↦
      let pages = list calendar_id window in
      elim pages.failure [ some e ↦ err (classify e) | none ↦ ok (append_pages [] pages.items loc) ]
]

-- `probe` is the smallest request for a calendar.
unfoldable pub verify_access : (Text → Option ServiceError) → Text → Fetched (Unit {0})
verify_access probe calendar_id = elim (probe calendar_id) [
  | none ↦ ok tt
  | some e ↦ err (classify e)
]

-- An error is one of access exactly if the API answered 401, 403 or 404 or the token exchange was
-- rejected.
pub classify_iff :
    (e : ServiceError)
    → (classify e ≡ access) ↔ (
        ((e.api_code ≡ some 401) ⊎ ((e.api_code ≡ some 403) ⊎ (e.api_code ≡ some 404)))
        ⊎ (e.token_rejected ≡ true))
unfolding classify
classify_iff e = ground arith

append_pages-flat :
    (out : List Event) (pages : List (List GoogleEvent)) (loc : Location)
    → append_pages out pages loc ≡ out ++ convert_all (flatten pages) loc
unfolding append_pages flatten convert_all
append_pages-flat out [] loc = sym (append-nil out)
append_pages-flat out (p ∷ ps) loc =
    append_pages-flat (out ++ convert_all p loc) ps loc
    ∙ append_assoc out (convert_all p loc) (convert_all (flatten ps) loc)
    ∙ ap (λ r. out ++ r) (sym (convert_all-append p (flatten ps) loc))

-- On a date that can be read, if the service delivers all pages, the events are those of the pages'
-- items in one row, in the service's order.
pub events_for_day_pages :
    (list : Text → Time × Time → Pages) (calendar_id date : Text) (loc : Location)
    (window : Time × Time)
    → day_window date loc ≡ some window
    → (list calendar_id window).failure ≡ none
    → events_for_day list calendar_id date loc
      ≡ ok (convert_all (flatten (list calendar_id window).items) loc)
unfolding events_for_day
events_for_day_pages list calendar_id date loc window w f =
    rw (w, events_for_day)
      (rw (f, events_for_day) (ap ok (append_pages-flat [] (list calendar_id window).items loc)))
