-- ===== src/Ui/Home.antt =====
-- internal/ui/home.go: the overview.
use calendar_digest.Prelude.{
  ℕ, ◌-◌, ◌*◌, ◌/◌, ◌==◌, ltb, Bool, true, false, if◌then◌else◌, List, [], ◌∷◌, ◌++◌, map, keep_if,
  any, take, Option, none, some,
}
use calendar_digest.Prelude.Chars.{Text, codes, decimal, pad4}
use calendar_digest.Prelude.Words.{is_empty}
use calendar_digest.Clock.Civil.{days_of}
use calendar_digest.Clock.Zone.{Location, Time, utc, date_of_time}
use calendar_digest.Store.Models.{Recipients, NotificationTargets, DigestSnapshots}
use calendar_digest.Store.Times.{format_time, parse_time}
use calendar_digest.Store.Recipients.{list_recipients, list_all_targets}
use calendar_digest.Store.Snapshots.{list_latest_snapshots, list_unnotified_snapshots_before}
use calendar_digest.Digest.Due.{Checked, next_run}
use calendar_digest.Deliver.Message.{weekday, month_name, clock_text}
use calendar_digest.Ui.Views.{Problem, TargetRow, RecipientRow, UndeliveredRow, HomeView, home_page}
use calendar_digest.Ui.Forms.{target_address, schedule_problem}
use calendar_digest.Ui.Pages.{Pages, Handler, query_or, with_flash}

-- "2 Jan 2006, 15:04 MST".
unfoldable pub long_time : (Location → ℕ → Text) → Time → Text
long_time zone_name t =
    let d = date_of_time t in
    decimal d.day
    ++ (codes " "
        ++ (take 3 (month_name d.month)
            ++ (codes " "
                ++ (pad4 d.year
                    ++ (codes ", " ++ (clock_text t ++ (codes " " ++ zone_name t.loc t.sec)))))))

-- `age`: a time to come has a negative age, cut towards zero.
unfoldable pub whole : ℕ → ℕ → ℕ → Text
whole unit now at =
    if ltb now at
    then (if (at - now) / unit == 0 then codes "0" else b'-' ∷ decimal ((at - now) / unit))
    else decimal ((now - at) / unit)

unfoldable pub age : ℕ → Text → Text
age now stored = elim (parse_time stored) [
  | none ↦ []
  | some at ↦
      if ltb (now - at) (2 * 3600)
      then whole 60 now at ++ codes " minutes"
      else if ltb (now - at) (48 * 3600)
      then whole 3600 now at ++ codes " hours"
      else whole 86400 now at ++ codes " days"
]

-- `byRecipient`, `lastFor` and `names`: of two rows of one recipient, a map keeps the later.
abbrev pub targets_of : ℕ → List NotificationTargets → List NotificationTargets
targets_of id = keep_if (λ t. t.recipient_id == id)

unfoldable pub last_for : ℕ → List DigestSnapshots → Option DigestSnapshots
last_for id [] = none
last_for id (s ∷ rest) = elim (last_for id rest) [
  | some later ↦ some later
  | none ↦ if s.recipient_id == id then some s else none
]

unfoldable pub name_of : ℕ → List Recipients → Text
name_of id [] = []
name_of id (r ∷ rest) =
    let later = name_of id rest in
    if any (λ (q : Recipients). q.id == id) rest then later else if r.id == id then r.name else []

module _ (p : Pages) where
  unfoldable pub detail_url : Text → Text
  detail_url token = if is_empty token then [] else p.base_url ++ (codes "/d/" ++ token)

  unfoldable pub home_target : NotificationTargets → TargetRow
  home_target t = record {
    id = t.id;
    kind = t.kind;
    address = target_address p.addresses t.kind t.config;
    enabled = t.enabled;
  }

  unfoldable pub next_run_text : Checked Time → Text
  next_run_text (Checked.err e) = []
  next_run_text (Checked.ok next) =
      take 3 (weekday (days_of (date_of_time next))) ++ (codes " " ++ long_time p.zone_name next)

  unfoldable pub problem_of : Recipients → Checked Time → Option Problem
  problem_of r (Checked.err e) = schedule_problem p.load_location r
  problem_of r (Checked.ok next) = none

  abbrev pub read_now : Time
  read_now = record { sec = p.now; loc = utc }

  -- A recipient with no snapshot has the zero row.
  abbrev pub last_date : Option DigestSnapshots → Text
  last_date none = []
  last_date (some s) = s.digest_date

  abbrev pub last_url : Option DigestSnapshots → Text
  last_url none = []
  last_url (some s) = if is_empty s.digest_date then [] else detail_url s.token

  abbrev pub was_delivered : Option DigestSnapshots → Bool
  was_delivered none = false
  was_delivered (some s) =
      if is_empty s.digest_date then false else elim s.notified_at [ none ↦ false | some at ↦ true ]

  unfoldable pub recipient_row :
      Recipients → List NotificationTargets → Option DigestSnapshots → RecipientRow
  recipient_row r targets last =
      let next = next_run p.load_location read_now r in
      record {
        id = r.id;
        name = r.name;
        schedule = r.notify_time ++ (codes " " ++ r.tz);
        enabled = r.enabled;
        next_run = next_run_text next;
        schedule_problem = problem_of r next;
        targets = map home_target targets;
        last_digest = last_date last;
        last_digest_url = last_url last;
        delivered = was_delivered last;
      }

  unfoldable pub undelivered_row : List Recipients → DigestSnapshots → UndeliveredRow
  undelivered_row recipients s = record {
    recipient_name = name_of s.recipient_id recipients;
    digest_date = s.digest_date;
    age = age p.now s.created_at;
    url = detail_url s.token;
  }

  unfoldable pub home_view :
      Text
      → List Recipients
      → List NotificationTargets
      → List DigestSnapshots
      → List DigestSnapshots
      → HomeView
  home_view flash recipients targets latest stale = record {
    flash = flash;
    recipients =
        map (λ r. recipient_row r (targets_of r.id targets) (last_for r.id latest)) recipients;
    undelivered = map (undelivered_row recipients) stale;
    base_url = p.base_url;
  }

  abbrev pub undelivered_after : ℕ
  undelivered_after = 3600

  -- `handleHome`: the flash is shown once.
  unfoldable pub home : Handler
  home s = query_or (list_recipients s.world.tables) s λ recipients. λ s1.
      query_or (list_all_targets s1.world.tables) s1 λ targets. λ s2.
        query_or (list_latest_snapshots s2.world.tables) s2 λ latest. λ s3.
          query_or
            (list_unnotified_snapshots_before (format_time (p.now - undelivered_after))
              s3.world.tables)
            s3
            λ stale. λ s4.
              (home_page (home_view s4.flash recipients targets latest stale), with_flash s4 [])
