-- ===== src/Ui/Accepts.antt =====
-- Which forms are accepted, and that an accepted one has a schedule the due check reads.
use calendar_digest.Prelude.{
  ℕ, Bool, true, false, if◌then◌else◌, [], ◌∷◌, Option, some, ◌≡◌, refl, ◌↔◌, inl, inr, Bool-cases,
  Option-cases,
}
use calendar_digest.Prelude.Chars.{Text}
use calendar_digest.Prelude.Words.{is_empty, both-empty, append-empty}
use calendar_digest.Clock.Layout.{parse_clock}
use calendar_digest.Clock.Zone.{Location}
use calendar_digest.Store.Recipients.{RecipientFields, with_fields}
use calendar_digest.Calendar.Ids.{ids}
use calendar_digest.Digest.Due.{Checked, schedule}
use calendar_digest.Digest.Due.Schedule.{schedule-ok}
use calendar_digest.Ui.Views.{Problem, no_name, no_calendar}
use calendar_digest.Ui.Forms.{problems, listed, of_tz, notify_time_problem, tz_problem}

module _ (load_location : Text → Option Location) where
  -- A form without a problem: a name, a calendar ID, a notify time, and a zone that is known.
  pub record IsAccepted (f : RecipientFields) : Type 0 where
    pub named : is_empty f.name ≡ false
    pub calendars : is_empty (ids f.calendar_id) ≡ false
    pub time : (t : ℕ × ℕ) × (parse_clock f.notify_time ≡ some t)
    pub zone_given : is_empty f.tz ≡ false
    pub zone : (loc : Location) × (load_location f.tz ≡ some loc)

  time-ok :
      (s : Text)
      → (is_empty (listed (notify_time_problem s)) ≡ true)
        ↔ ((t : ℕ × ℕ) × (parse_clock s ≡ some t))
  unfolding notify_time_problem
  time-ok s = elim (Option-cases (parse_clock s)) [
    | inl e ↦ rw (e, notify_time_problem) (λ h. cc, λ (t, q). cc)
    | inr (t, e) ↦ rw (e, notify_time_problem) (λ h. (t, refl), λ q. refl)
  ]

  zone-ok :
      (tz : Text)
      → (is_empty (listed (of_tz load_location (tz_problem load_location tz))) ≡ true)
        ↔ ((is_empty tz ≡ false) × ((loc : Location) × (load_location tz ≡ some loc)))
  unfolding tz_problem
  zone-ok tz = elim (Bool-cases (is_empty tz)) [
    | inl e ↦ rw e (λ h. cc, λ (n, q). cc)
    | inr e ↦ elim (Option-cases (load_location tz)) [
      | inl l ↦ rw (e, l, tz_problem) (λ h. cc, λ (n, (loc, q)). cc)
      | inr (loc, l) ↦ rw (e, l, tz_problem) (λ h. (refl, (loc, refl)), λ q. refl)
    ]
  ]

  named-ok : (b : Bool) (p : Problem) → (is_empty (if b then p ∷ [] else []) ≡ true) ↔ (b ≡ false)
  named-ok true p = (λ h. cc, λ h. cc)
  named-ok false p = (λ h. refl, λ h. refl)

  -- The form reports no problem exactly if it has a name, at least one calendar ID, a notify time
  -- that reads as a clock, and a zone that is not empty and is known.
  pub problems-IsAccepted :
      (f : RecipientFields) → (is_empty (problems load_location f) ≡ true) ↔ IsAccepted f
  unfolding problems
  problems-IsAccepted f =
      let name = named-ok (is_empty f.name) no_name in
      let calendar = named-ok (is_empty (ids f.calendar_id)) no_calendar in
      let time = time-ok f.notify_time in
      let zone = zone-ok f.tz in
      (
        λ h.
            let (h1, k1) = both-empty _ _ h in
            let (h2, k2) = both-empty _ _ k1 in
            let (h3, h4) = both-empty _ _ k2 in
            let (given, known) = zone.0 h4 in
            record {
              named = name.0 h1;
              calendars = calendar.0 h2;
              time = time.0 h3;
              zone_given = given;
              zone = known;
            },
        λ a. append-empty _ _ (name.1 a.named) (
            append-empty _ _ (calendar.1 a.calendars)
              (append-empty _ _ (time.1 a.time) (zone.1 (a.zone_given, a.zone)))),
      )

  -- An accepted form makes a recipient whose schedule can be read.
  pub IsAccepted-schedule :
      (f : RecipientFields) (id : ℕ)
      → IsAccepted f
      → (s : Location × (ℕ × ℕ)) × (schedule load_location (with_fields id f) ≡ Checked.ok s)
  IsAccepted-schedule f id a =
      let (t, c) = a.time in
      let (loc, l) = a.zone in ((loc, t), schedule-ok load_location (with_fields id f) loc t l c)
