-- ===== src/Digest/Due/Schedule.antt =====
-- Which schedules can be read.
use calendar_digest.Prelude.{
  ℕ, Bool, true, false, sym, ap, ◌∙◌, Option, none, some, ◌≡◌, refl, ◌⊎◌, inl, inr, Option-cases,
}
use calendar_digest.Prelude.Chars.{Text}
use calendar_digest.Clock.Layout.{parse_clock}
use calendar_digest.Clock.Zone.{Location, Time}
use calendar_digest.Store.Models.{Recipients}
use calendar_digest.Digest.Due.{
  Checked, ok, err, ScheduleError, schedule, parse_notify_time, next_run,
}

module _ (load_location : Text → Option Location) (r : Recipients) where
  pub schedule-ok :
      (loc : Location) (t : ℕ × ℕ)
      → load_location r.tz ≡ some loc
      → parse_clock r.notify_time ≡ some t
      → schedule load_location r ≡ ok (loc, t)
  unfolding schedule parse_notify_time
  schedule-ok loc t l c = rw (l, schedule) (rw (c, parse_notify_time) refl)

  abbrev is_told : Checked Time → Bool
  is_told (ok t) = true
  is_told (err e) = false

  next_run-is_told :
      (now : Time) (loc : Location) (t : ℕ × ℕ)
      → schedule load_location r ≡ ok (loc, t)
      → is_told (next_run load_location now r) ≡ true
  unfolding next_run
  next_run-is_told now loc t h = rw (h, next_run) refl

  -- A next run that cannot be told is that of a recipient whose zone or notify time cannot be read.
  pub next_run-err :
      (now : Time) (e : ScheduleError)
      → next_run load_location now r ≡ err e
      → (load_location r.tz ≡ none) ⊎ (parse_clock r.notify_time ≡ none)
  next_run-err now e h = elim (Option-cases (load_location r.tz)) [
    | inl l ↦ inl l
    | inr (loc, l) ↦ elim (Option-cases (parse_clock r.notify_time)) [
      | inl c ↦ inr c
      | inr (t, c) ↦
          let told = next_run-is_told now loc t (schedule-ok loc t l c) in
          let bad : true ≡ false = sym told ∙ ap is_told h in cc
    ]
  ]
