-- ===== src/Deliver/Html/Masked.antt =====
-- The HTML part of an email with its texts masked: the tags are the same.
use calendar_digest.Prelude.{
  Bool, true, false, List, [], ◌∷◌, ◌++◌, map, ◌≡◌, refl, sym, ◌∙◌, ap, subst,
}
use calendar_digest.Prelude.Chars.{Text, codes}
use calendar_digest.Deliver.Html.{
  EmailEvent, EmailView, Piece, raw, shown, write, part, link_part, flag, event_parts, event_rows,
  event_table, email_template, row_start, summary_start, page_start, count_start, table_start,
  row_end,
}
use calendar_digest.Deliver.Html.Markup.{
  outside_tags, markup, bare, email_template-bare, masked_text, masked_piece, bare-masked,
}

abbrev pub masked_event : EmailEvent → EmailEvent
masked_event ev = record {
  time = masked_text ev.time;
  summary = masked_text ev.summary;
  tentative = ev.tentative;
  recurring = ev.recurring;
  location = masked_text ev.location;
  description = masked_text ev.description;
  conference_url = masked_text ev.conference_url;
  organizer = masked_text ev.organizer;
  with = masked_text ev.with;
}

-- The view with each text replaced by one letter.
abbrev pub masked : EmailView → EmailView
masked view = record {
  headline = masked_text view.headline;
  count = masked_text view.count;
  events = map masked_event view.events;
  detail_url = masked_text view.detail_url;
}

part-masked : (b s a : Text) → map masked_piece (part b s a) ≡ part b (masked_text s) a
unfolding part
part-masked b [] a = refl
part-masked b (c ∷ s) a = refl

link_part-masked :
    (b s a : Text) → map masked_piece (link_part b s a) ≡ link_part b (masked_text s) a
unfolding link_part
link_part-masked b [] a = refl
link_part-masked b (c ∷ s) a = refl

flag-masked : (b : Bool) (t : Text) → map masked_piece (flag b t) ≡ flag b t
unfolding flag
flag-masked true t = refl
flag-masked false t = refl

map_join :
    (ps qs ps' qs' : List Piece)
    → map masked_piece ps ≡ ps'
    → map masked_piece qs ≡ qs'
    → map masked_piece (ps ++ qs) ≡ ps' ++ qs'
map_join [] qs ps' qs' e f = subst (λ x. map masked_piece qs ≡ x ++ qs') e f
map_join (p ∷ ps) qs ps' qs' e f =
    ap (λ x. masked_piece p ∷ x) (map_join ps qs _ qs' refl f) ∙ ap (λ x. x ++ qs') e

event_parts-masked :
    (ev : EmailEvent) → map masked_piece (event_parts ev) ≡ event_parts (masked_event ev)
unfolding event_parts
event_parts-masked ev = map_join _ _ _ _ (flag-masked ev.tentative _) (
    map_join _ _ _ _ (part-masked _ ev.location _) (
      map_join _ _ _ _ (part-masked _ ev.description _) (
        map_join _ _ _ _ (link_part-masked _ ev.conference_url _) (
          map_join _ _ _ _ (part-masked _ ev.with _)
            (map_join _ _ _ _ (part-masked _ ev.organizer _) (flag-masked ev.recurring _))))))

event_rows-masked :
    (evs : List EmailEvent) → map masked_piece (event_rows evs) ≡ event_rows (map masked_event evs)
unfolding event_rows
event_rows-masked [] = refl
event_rows-masked (ev ∷ evs) =
    let m = masked_event ev in
    ap
      (λ x.
        raw row_start
        ∷ shown m.time
        ∷ raw summary_start
        ∷ shown m.summary
        ∷ raw (codes "</strong>")
        ∷ x)
      (map_join (event_parts ev) (raw row_end ∷ event_rows evs) _ _ (event_parts-masked ev)
        (ap (λ x. raw row_end ∷ x) (event_rows-masked evs)))

event_table-masked :
    (evs : List EmailEvent)
    → map masked_piece (event_table evs) ≡ event_table (map masked_event evs)
unfolding event_table
event_table-masked [] = refl
event_table-masked (ev ∷ evs) =
    ap (λ x. raw table_start ∷ x)
      (map_join (event_rows (ev ∷ evs)) _ _ _ (event_rows-masked (ev ∷ evs)) refl)

email_template-masked :
    (view : EmailView) → map masked_piece (email_template view) ≡ email_template (masked view)
unfolding email_template
email_template-masked view =
    ap
      (λ x.
        raw page_start
        ∷ shown (masked_text view.headline)
        ∷ raw count_start
        ∷ shown (masked_text view.count)
        ∷ raw (codes "</p>")
        ∷ x)
      (map_join (event_table view.events) _ _ _ (event_table-masked view.events)
        (map_join _ _ _ _ (link_part-masked _ view.detail_url _) refl))

-- The tags of the HTML body, with the names of their attributes, do not depend on what the texts of
-- the digest say, only on which of them are empty.
pub email_template-markup :
    (view : EmailView)
    → markup outside_tags (write (email_template view))
      ≡ markup outside_tags (write (email_template (masked view)))
email_template-markup view =
    email_template-bare view
    ∙ sym (bare-masked outside_tags (email_template view))
    ∙ ap (bare outside_tags) (email_template-masked view)
    ∙ sym (email_template-bare (masked view))
