-- ===== src/Deliver/Html.antt =====
-- `emailHTML` of internal/deliver/email.go: the HTML part of the email, as the texts and the actions
-- of the template in their order. The escapers behind the actions are those that html/template
-- chooses for their places.
pub mod Markup
pub mod Masked
pub mod Examples
use calendar_digest.Prelude.{Bool, if◌then◌else◌, List, [], ◌∷◌, ◌++◌, Option, some}
use calendar_digest.Prelude.Chars.{Text, codes}
use calendar_digest.Prelude.Words.{is_empty}
use calendar_digest.Deliver.Escape.{html_escape, href_escape}

pub record EmailEvent : Type 0 where
  pub time : Text
  pub summary : Text
  pub tentative : Bool
  pub recurring : Bool
  pub location : Text
  pub description : Text
  pub conference_url : Text
  pub organizer : Text
  pub with : Text

pub record EmailView : Type 0 where
  pub headline : Text
  pub count : Text
  pub events : List EmailEvent
  pub detail_url : Text

-- A text of the template, an action between tags, and one that is the URL of an `href`.
pub data Piece : Type 0 where
  raw shown link : Text → Piece

unfoldable pub write : List Piece → Text
write [] = []
write (raw t ∷ ps) = t ++ write ps
write (shown s ∷ ps) = html_escape s ++ write ps
write (link s ∷ ps) = href_escape s ++ write ps

-- An `if` on a string, with the string between two texts.
pub part : Text → Text → Text → List Piece
part before s after = if is_empty s then [] else raw before ∷ shown s ∷ raw after ∷ []

pub link_part : Text → Text → Text → List Piece
link_part before s after = if is_empty s then [] else raw before ∷ link s ∷ raw after ∷ []

pub flag : Bool → Text → List Piece
flag b t = if b then raw t ∷ [] else []

abbrev pub div_end : Text
div_end = codes "</div>"

abbrev pub note_style : Text
note_style = codes "<div style=\"color:#6b6b6b;font-size:13px"

abbrev pub spaced_style : Text
spaced_style = codes "<div style=\"color:#6b6b6b;font-size:13px;margin-top:2px\">"

abbrev pub row_start : Text
row_start =
    codes "\n<tr>\n<td style=\"padding:0 14px 18px 0;vertical-align:top;white-space:nowrap;"
    ++ codes "color:#6b6b6b;font-variant-numeric:tabular-nums\">"

abbrev pub summary_start : Text
summary_start =
    codes "</td>\n<td style=\"padding:0 0 18px;vertical-align:top\">\n"
    ++ codes "<strong style=\"font-weight:600\">"

abbrev pub row_end : Text
row_end = codes "\n</td>\n</tr>"

abbrev pub table_start : Text
table_start = codes "\n<table style=\"border-collapse:collapse;width:100%\">"

-- What stands behind the summary of an event.
pub event_parts : EmailEvent → List Piece
unfolding part link_part flag
event_parts ev =
    flag ev.tentative (codes " <span style=\"color:#9a6b00;font-size:13px\">(tentative)</span>")
    ++ (part (codes "<div style=\"color:#4a4a4a\">") ev.location div_end
        ++ (part spaced_style ev.description div_end
            ++ (link_part (codes "<div style=\"margin-top:2px\"><a href=\"") ev.conference_url
                  (codes "\" style=\"color:#1a5fb4\">Join</a></div>")
                ++ (part (spaced_style ++ codes "With: ") ev.with div_end
                    ++ (part (note_style ++ codes "\">Organiser: ") ev.organizer div_end
                        ++ flag ev.recurring (note_style ++ codes "\">Repeats</div>"))))))

-- The range over the events.
pub event_rows : List EmailEvent → List Piece
unfolding event_parts
event_rows [] = []
event_rows (ev ∷ evs) =
    raw row_start
    ∷ shown ev.time
    ∷ raw summary_start
    ∷ shown ev.summary
    ∷ raw (codes "</strong>")
    ∷ (event_parts ev ++ (raw row_end ∷ event_rows evs))

pub event_table : List EmailEvent → List Piece
unfolding event_rows
event_table evs =
    if is_empty evs
    then []
    else raw table_start ∷ (event_rows evs ++ (raw (codes "\n</table>") ∷ []))

abbrev pub page_start : Text
page_start =
    codes "<div style=\"font-family:-apple-system,Segoe UI,Roboto,Helvetica,Arial,sans-serif;"
    ++ codes "font-size:15px;line-height:1.5;color:#1a1a1a;max-width:640px\">\n"
    ++ codes "<h1 style=\"font-size:19px;font-weight:600;margin:0 0 2px\">"

abbrev pub count_start : Text
count_start = codes "</h1>\n<p style=\"margin:0 0 20px;color:#6b6b6b;font-size:13px\">"

abbrev pub detail_start : Text
detail_start = codes "\n<p style=\"margin:20px 0 0\"><a href=\""

abbrev pub detail_label : Text
detail_label = codes "\" style=\"color:#1a5fb4\">Full detail</a></p>"

abbrev pub page_end : Text
page_end = codes "\n</div>\n"

unfoldable pub email_template : EmailView → List Piece
unfolding event_table link_part
email_template view =
    raw page_start
    ∷ shown view.headline
    ∷ raw count_start
    ∷ shown view.count
    ∷ raw (codes "</p>")
    ∷ (event_table view.events
        ++ (link_part detail_start view.detail_url detail_label ++ (raw page_end ∷ [])))

-- `emailHTML.Execute` into a `strings.Builder`, which takes every write: there is no error.
unfoldable pub execute_email : EmailView → Option Text
execute_email view = some (write (email_template view))
