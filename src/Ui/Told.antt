-- ===== src/Ui/Told.antt =====
-- The overview says when a recipient is next due, or why it never is.
use calendar_digest.Prelude.{
  List, [], Option, none, some, ◌≡◌, refl, ap, ◌∙◌, ◌⊎◌, inl, inr, Bool-cases, Option-cases,
}
use calendar_digest.Prelude.Chars.{Text}
use calendar_digest.Prelude.Words.{is_empty}
use calendar_digest.Clock.Layout.{parse_clock}
use calendar_digest.Clock.Zone.{Time, Location}
use calendar_digest.Store.Models.{Recipients, NotificationTargets, DigestSnapshots}
use calendar_digest.Digest.Due.{Checked, ScheduleError, next_run}
use calendar_digest.Digest.Due.Owed.{Checked-cases}
use calendar_digest.Digest.Due.Schedule.{next_run-err}
use calendar_digest.Ui.Views.{Problem, TzProblem, bad_tz, bad_time, no_tz, unknown_tz}
use calendar_digest.Ui.Forms.{tz_problem, schedule_problem, notify_time_problem}
use calendar_digest.Ui.Pages.{Pages}
use calendar_digest.Ui.Home.{recipient_row, problem_of, read_now, next_run_text}

module _ (load_location : Text → Option Location) where
  tz_problem-none :
      (tz : Text)
      → load_location tz ≡ none
      → (x : TzProblem) × (tz_problem load_location tz ≡ some x)
  unfolding tz_problem
  tz_problem-none tz e = elim (Bool-cases (is_empty tz)) [
    | inl n ↦ (no_tz, rw n refl)
    | inr n ↦ (unknown_tz tz, rw (n, e, tz_problem) refl)
  ]

  schedule_problem-some :
      (r : Recipients)
      → (load_location r.tz ≡ none) ⊎ (parse_clock r.notify_time ≡ none)
      → (x : Problem) × (schedule_problem load_location r ≡ some x)
  unfolding schedule_problem notify_time_problem
  schedule_problem-some r (inl e) =
      let (x, q) = tz_problem-none r.tz e in (bad_tz x, rw (q, schedule_problem) refl)
  schedule_problem-some r (inr e) = elim (Option-cases (tz_problem load_location r.tz)) [
    | inr (x, q) ↦ (bad_tz x, rw (q, schedule_problem) refl)
    | inl q ↦ (bad_time r.notify_time, rw (q, schedule_problem) (rw (e, notify_time_problem) refl))
  ]

-- A recipient's row shows either the next run, which `NextRun` gives, and no problem, or no next run
-- and a problem, where `NextRun` fails.
pub recipient_row-told :
    (p : Pages) (r : Recipients) (targets : List NotificationTargets)
    (last : Option DigestSnapshots)
    → ((next : Time) × (next_run p.load_location (read_now p) r ≡ Checked.ok next)
        × ((recipient_row p r targets last).next_run ≡ next_run_text p (Checked.ok next))
        × ((recipient_row p r targets last).schedule_problem ≡ none))
      ⊎ ((e : ScheduleError) × (x : Problem) × (next_run p.load_location (read_now p) r
            ≡ Checked.err e)
          × ((recipient_row p r targets last).next_run ≡ [])
          × ((recipient_row p r targets last).schedule_problem ≡ some x))
unfolding recipient_row problem_of next_run_text
recipient_row-told p r targets last =
    elim (Checked-cases (next_run p.load_location (read_now p) r)) [
      | inl (next, e) ↦ inl (next, e, ap (next_run_text p) e, ap (problem_of p r) e)
      | inr (x, e) ↦
          let (y, q) =
            schedule_problem-some p.load_location r
              (next_run-err p.load_location r (read_now p) x e) in
          inr (x, y, e, ap (next_run_text p) e, ap (problem_of p r) e ∙ q)
    ]
