-- ===== src/System/Runs.antt =====
-- The steps of the program: a request is answered, a worker runs one job, or River changes its
-- queue. The zone database is one for the whole run; the clock, the calendars, the channels and the
-- connection may differ from step to step.
use calendar_digest.Prelude.{
  ℕ, Bool, List, [], ◌∷◌, All-In, In, In-keep_if-elim, Option, none, some, Bool-cases, inl, inr,
  ◌≡◌, refl, sym, ◌∙◌,
}
use calendar_digest.Prelude.Chars.{Text}
use calendar_digest.Prelude.Sorting.{In-sort_by-elim}
use calendar_digest.Clock.Zone.{Location, Time}
use calendar_digest.Store.Models.{Recipients, SnapshotKey}
use calendar_digest.Store.Tables.{empty}
use calendar_digest.Store.Recipients.{by_name}
use calendar_digest.Digest.Due.{Checked, due}
use calendar_digest.Digest.Due.Skips.{skipped_iff}
use calendar_digest.Jobs.Deps.{Deps, World, Job, DigestArgs, SendArgs, AlertArgs, Worker}
use calendar_digest.Jobs.Alert.{alert_work}
use calendar_digest.Jobs.Scan.{scan, enabled}
use calendar_digest.Jobs.Capture.{capture}
use calendar_digest.Jobs.Send.{send_work}
use calendar_digest.Jobs.Purge.{purge}
use calendar_digest.Jobs.Verify.{verify}
use calendar_digest.Jobs.Preserves.{
  capture-Preserves, send_work-Preserves, purge-Preserves, scan-Preserves,
}
use calendar_digest.Jobs.Verify.Preserves.{verify-Preserves}
use calendar_digest.Ui.Pages.{Pages, Site}
use calendar_digest.Ui.Serve.{Request, serve}
use calendar_digest.System.Sound.{IsScheduled, IsSound}
use calendar_digest.System.Kept.{IsSound-IsKept, purge-IsSound}
use calendar_digest.System.Served.{serve-KeepsSound}

empty-In : {A : Type 0} (xs : List A) → ((x : A) → In x xs → ⊥) → xs ≡ []
empty-In [] h = refl
empty-In (x ∷ xs) h = absurd (h x (inl refl))

-- The jobs of River's workers; the alert's is with its alerter.
pub data Task : Type 0 where
  scan_due purge_old verify_access : Task
  capture_day : DigestArgs → Task
  send_digest : SendArgs → Task
  tell : Option (AlertArgs → Bool) → AlertArgs → Task

unfoldable pub work : Deps → Task → Worker
work d scan_due = scan d
work d purge_old = purge d
work d verify_access = verify d
work d (capture_day a) = capture d a
work d (send_digest a) = send_work d a
work d (tell alerter a) = alert_work alerter a

module _ (load_location : Text → Option Location) where
  pub data Step : Site → Site → Type 0 where
    request :
        (p : Pages) (r : Request) (s : Site)
        → Step s (serve (record p { load_location = load_location }) r s).1
    job : (d : Deps) (t : Task) (s : Site) → Step s (record s { world = (work d t s.world).1 })
    river :
        (queue : List Job) (s : Site)
        → Step s (record s { world = record s.world { queue = queue } })

  -- The program starts on the migrated, empty database.
  abbrev pub start : Site
  start = record { world = record { tables = empty; queue = [] }; flash = [] }

  pub data Reachable : Site → Type 0 where
    here : Reachable start
    next : {s s' : Site} → Reachable s → Step s s' → Reachable s'

  work-IsSound :
      (d : Deps) (t : Task) (w : World)
      → IsSound load_location w.tables
      → IsSound load_location (work d t w).1.tables
  unfolding work alert_work
  work-IsSound d scan_due w h = scan-Preserves _ (IsSound-IsKept load_location) d w h
  work-IsSound d purge_old w h =
      purge-Preserves _ (IsSound-IsKept load_location) d (purge-IsSound load_location _) w h
  work-IsSound d verify_access w h = verify-Preserves _ (IsSound-IsKept load_location) d w h
  work-IsSound d (capture_day a) w h = capture-Preserves _ (IsSound-IsKept load_location) d a w h
  work-IsSound d (send_digest a) w h = send_work-Preserves _ (IsSound-IsKept load_location) d a w h
  work-IsSound d (tell none a) w h = h
  work-IsSound d (tell (some deliver) a) w h = elim (Bool-cases (deliver a)) [
    | inl e ↦ rw e h
    | inr e ↦ rw e h
  ]

  -- In every state that requests, jobs and changes of the queue reach from the empty database, a
  -- recipient has one snapshot for a date, a token opens one snapshot, every snapshot and every
  -- target belongs to a recipient, and every recipient has a schedule that can be read.
  pub Reachable-IsSound : (s : Site) → Reachable s → IsSound load_location s.world.tables
  Reachable-IsSound s here = record {
    consistent = record { keys = tt; tokens = tt; ids = tt; owned = tt };
    scheduled = tt;
    targets = tt;
  }
  Reachable-IsSound s (next r (request p q s0)) =
      serve-KeepsSound (record p { load_location = load_location }) q s0 (Reachable-IsSound s0 r)
  Reachable-IsSound s (next r (job d t s0)) = work-IsSound d t s0.world (Reachable-IsSound s0 r)
  Reachable-IsSound s (next r (river queue s0)) = Reachable-IsSound s0 r

  -- In every state that the program reaches, the due check reports no recipient as skipped.
  pub due-Reachable :
      (s : Site) (now : Time) (keys : List SnapshotKey)
      → Reachable s
      → (due load_location now (enabled s.world.tables) keys).1 ≡ []
  due-Reachable s now keys r =
      let sound = Reachable-IsSound s r in
      empty-In _ (λ x m.
        let (q, listed, v) = (skipped_iff load_location now keys (enabled s.world.tables) x).0 m in
        let (there, on) =
          In-keep_if-elim (λ (o : Recipients). o.enabled) q s.world.tables.recipients
            (In-sort_by-elim by_name q _ listed) in
        let (read, e) =
          All-In (IsScheduled load_location) q s.world.tables.recipients sound.scheduled there in
        let bad : ◌≡◌ {A = Checked (Location × (ℕ × ℕ))} (Checked.ok read) (Checked.err x.err) =
          sym e ∙ v.fails in
        cc)
