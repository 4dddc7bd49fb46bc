-- ===== src/Deliver/Html/Markup.antt =====
-- The tags of the HTML part of an email: a scan over the body that keeps what stands in tags, less
-- the values of attributes.
use calendar_digest.Prelude.{
  ℕ, Bool, true, false, ◌==◌, if◌then◌else◌, List, [], ◌∷◌, ◌++◌, map, ◌≡◌, refl, sym, ◌∙◌, ap,
  subst, arith, Bool-cases, inl, inr,
}
use calendar_digest.Prelude.Chars.{Text, codes}
use calendar_digest.Prelude.Words.{is_empty, Lacks}
use calendar_digest.Deliver.Escape.{
  html_escape, href_escape, html_escape-less, html_escape-quote, url_normalize, url_filter,
}
use calendar_digest.Deliver.Html.{
  EmailEvent, EmailView, Piece, raw, shown, link, write, part, link_part, flag, event_parts,
  event_rows, event_table, email_template, detail_start, detail_label, page_end,
}

-- Where a scan of HTML is: between tags, in a tag, or in a quoted value in a tag.
pub data Place : Type 0 where
  outside_tags in_tag in_value : Place

step : Place → ℕ → Place
step outside_tags c = if c == b'<' then in_tag else outside_tags
step in_tag c = if c == b'"' then in_value else if c == b'>' then outside_tags else in_tag
step in_value c = if c == b'"' then in_tag else in_value

keep_char : Place → ℕ → Text → Text
keep_char outside_tags c s = if c == b'<' then c ∷ s else s
keep_char in_tag c s = c ∷ s
keep_char in_value c s = if c == b'"' then c ∷ s else s

after : Place → Text → Place
unfolding step
after w [] = w
after w (c ∷ s) = after (step w c) s

-- What a scan from a place keeps.
unfoldable pub markup : Place → Text → Text
unfolding step keep_char
markup w [] = []
markup w (c ∷ s) = keep_char w c (markup (step w c) s)

silent_outside : (s t : Text) → Lacks b'<' s → markup outside_tags (s ++ t) ≡ markup outside_tags t
unfolding markup step keep_char
silent_outside [] t h = refl
silent_outside (c ∷ s) t h = ground (arith, silent_outside s t)

silent_value : (s t : Text) → Lacks b'"' s → markup in_value (s ++ t) ≡ markup in_value t
unfolding markup step keep_char
silent_value [] t h = refl
silent_value (c ∷ s) t h = ground (arith, silent_value s t)

keep_char-append : (w : Place) (c : ℕ) (s t : Text) → keep_char w c (s ++ t) ≡ keep_char w c s ++ t
unfolding keep_char
keep_char-append outside_tags c s t = ground arith
keep_char-append in_tag c s t = refl
keep_char-append in_value c s t = ground arith

markup-append : (w : Place) (s t : Text) → markup w (s ++ t) ≡ markup w s ++ markup (after w s) t
unfolding markup after step keep_char
markup-append w [] t = refl
markup-append w (c ∷ s) t =
    ap (keep_char w c) (markup-append (step w c) s t)
    ∙ keep_char-append w c (markup (step w c) s) (markup (after (step w c) s) t)

-- The pieces lead a scan from one place to the other, with each action where its escaper is for.
Goes : Place → List Piece → Place → Type 0
Goes w [] v = w ≡ v
Goes w (raw t ∷ ps) v = Goes (after w t) ps v
Goes w (shown s ∷ ps) v = (w ≡ outside_tags) × Goes w ps v
Goes w (link s ∷ ps) v = (w ≡ in_value) × Goes w ps v

-- What a scan keeps of the template's own texts.
pub bare : Place → List Piece → Text
bare w [] = []
bare w (raw t ∷ ps) = markup w t ++ bare (after w t) ps
bare w (shown s ∷ ps) = bare w ps
bare w (link s ∷ ps) = bare w ps

markup-write : (w v : Place) (ps : List Piece) → Goes w ps v → markup w (write ps) ≡ bare w ps
unfolding markup write bare Goes href_escape
markup-write w v [] h = refl
markup-write w v (raw t ∷ ps) h =
    markup-append w t (write ps) ∙ ap (λ x. markup w t ++ x) (markup-write (after w t) v ps h)
markup-write w v (shown s ∷ ps) (e, h) =
    subst (λ x. markup x (html_escape s ++ write ps) ≡ markup x (write ps)) (sym e)
      (silent_outside (html_escape s) (write ps) (html_escape-less s))
    ∙ markup-write w v ps h
markup-write w v (link s ∷ ps) (e, h) =
    subst (λ x. markup x (href_escape s ++ write ps) ≡ markup x (write ps)) (sym e)
      (silent_value (href_escape s) (write ps) (html_escape-quote (url_normalize (url_filter s))))
    ∙ markup-write w v ps h

Goes-append : (w v u : Place) (ps qs : List Piece) → Goes w ps v → Goes v qs u → Goes w (ps ++ qs) u
unfolding Goes
Goes-append w v u [] qs h k = subst (λ x. Goes x qs u) (sym h) k
Goes-append w v u (raw t ∷ ps) qs h k = Goes-append (after w t) v u ps qs h k
Goes-append w v u (shown s ∷ ps) qs (e, h) k = (e, Goes-append w v u ps qs h k)
Goes-append w v u (link s ∷ ps) qs (e, h) k = (e, Goes-append w v u ps qs h k)

part-Goes :
    (before s behind : Text)
    → after outside_tags before ≡ outside_tags
    → after outside_tags behind ≡ outside_tags
    → Goes outside_tags (part before s behind) outside_tags
unfolding part Goes
part-Goes before s behind e f = elim (Bool-cases (is_empty s)) [
  | inl h ↦ rw h refl
  | inr h ↦ rw h (e, rw e f)
]

link_part-Goes :
    (before s behind : Text)
    → after outside_tags before ≡ in_value
    → after in_value behind ≡ outside_tags
    → Goes outside_tags (link_part before s behind) outside_tags
unfolding link_part Goes
link_part-Goes before s behind e f = elim (Bool-cases (is_empty s)) [
  | inl h ↦ rw h refl
  | inr h ↦ rw h (e, rw e f)
]

flag-Goes :
    (b : Bool) (t : Text)
    → after outside_tags t ≡ outside_tags
    → Goes outside_tags (flag b t) outside_tags
unfolding flag Goes
flag-Goes true t e = e
flag-Goes false t e = refl

Level : List Piece → Type 0
Level ps = Goes outside_tags ps outside_tags

Level-append : (ps qs : List Piece) → Level ps → Level qs → Level (ps ++ qs)
unfolding Level
Level-append ps qs = Goes-append outside_tags outside_tags outside_tags ps qs

event_parts-Level : (ev : EmailEvent) → Level (event_parts ev)
unfolding Level event_parts after step
event_parts-Level ev = Level-append _ _ (flag-Goes ev.tentative _ refl) (
    Level-append _ _ (part-Goes _ ev.location _ refl refl) (
      Level-append _ _ (part-Goes _ ev.description _ refl refl) (
        Level-append _ _ (link_part-Goes _ ev.conference_url _ refl refl) (
          Level-append _ _ (part-Goes _ ev.with _ refl refl) (
            Level-append _ _ (part-Goes _ ev.organizer _ refl refl)
              (flag-Goes ev.recurring _ refl))))))

event_rows-Level : (evs : List EmailEvent) → Level (event_rows evs)
unfolding Level Goes event_rows after step
event_rows-Level [] = refl
event_rows-Level (ev ∷ evs) =
    (refl, (refl, Level-append (event_parts ev) _ (event_parts-Level ev) (event_rows-Level evs)))

event_table-Level : (evs : List EmailEvent) → Level (event_table evs)
unfolding Level Goes event_table after step
event_table-Level [] = refl
event_table-Level (ev ∷ evs) =
    Level-append (event_rows (ev ∷ evs)) _ (event_rows-Level (ev ∷ evs)) refl

email_template-Level : (view : EmailView) → Level (email_template view)
unfolding Level Goes email_template after step
email_template-Level view = (
  refl,
  (
    refl,
    Level-append (event_table view.events) _ (event_table-Level view.events) (
        Level-append (link_part detail_start view.detail_url detail_label) (raw page_end ∷ [])
          (link_part-Goes detail_start view.detail_url detail_label refl refl) refl),
  ),
)

pub email_template-bare :
    (view : EmailView)
    → markup outside_tags (write (email_template view)) ≡ bare outside_tags (email_template view)
unfolding Level
email_template-bare view =
    markup-write outside_tags outside_tags (email_template view) (email_template-Level view)

-- A text of one letter, or none where there is none.
abbrev pub masked_text : Text → Text
masked_text s = if is_empty s then [] else codes "x"

abbrev pub masked_piece : Piece → Piece
masked_piece (raw t) = raw t
masked_piece (shown s) = shown (masked_text s)
masked_piece (link s) = link (masked_text s)

pub bare-masked : (w : Place) (ps : List Piece) → bare w (map masked_piece ps) ≡ bare w ps
unfolding bare
bare-masked w [] = refl
bare-masked w (raw t ∷ ps) = ap (λ x. markup w t ++ x) (bare-masked (after w t) ps)
bare-masked w (shown s ∷ ps) = bare-masked w ps
bare-masked w (link s ∷ ps) = bare-masked w ps
