-- ===== src/Ui/Captures.antt =====
-- The button "digest now" of internal/ui/recipients.go, down to the worker of internal/jobs/digest.go.
use calendar_digest.Prelude.{ℕ, ◌≡◌, refl, subst, inl, inr, Option-cases}
use calendar_digest.Prelude.Chars.{Text}
use calendar_digest.Prelude.Ints.{pos, negsuc, parse_int}
use calendar_digest.Store.Models.{Recipients}
use calendar_digest.Store.Recipients.{get_recipient}
use calendar_digest.Store.Tx.{
  Outcome, ok, err, panic, no_rows, constraint, begin_failed, commit_failed, enqueue_failed,
}
use calendar_digest.Jobs.Deps.{Deps, World, DigestArgs, WorkResult, done, retry, cancel, crashed}
use calendar_digest.Jobs.Capture.Stored.{HasSnapshot, capture_done}
use calendar_digest.Ui.Views.{Response, patch_capture, queued}
use calendar_digest.Ui.Pages.{Pages, Site, loaded, recipient_from_path, run_digest_now}
use calendar_digest.Ui.Recipients.{tomorrow, reported, digest_now_loaded, recipient_digest_now}

-- Where the page says that a digest of a date is queued, its snapshot is there.
abbrev IsTruthful : Response × Site → Type 0
IsTruthful r =
    (n : ℕ) (date : Text) → r.0 ≡ patch_capture n (queued date) → HasSnapshot n date r.1.world

run_digest_now-done :
    (d : Deps) (a : DigestArgs) (w : World)
    → (run_digest_now d a w).0 ≡ done
    → HasSnapshot a.recipient_id a.digest_date (run_digest_now d a w).1
unfolding run_digest_now
run_digest_now-done d a w h = elim (Option-cases d.calendar) [
  | inl e ↦ let bad : retry ≡ done = rw (e, run_digest_now) at h in cc
  | inr (client, e) ↦ rw (e, run_digest_now) (capture_done d a w (rw (e, run_digest_now) at h))
]

module _ (p : Pages) where
  reported-IsTruthful :
      (id : ℕ) (date : Text) (s : Site) (r : WorkResult × World)
      → (r.0 ≡ done → HasSnapshot id date r.1)
      → IsTruthful (reported p id date s r)
  unfolding reported
  reported-IsTruthful id date s (done, w) h n day e =
      subst (λ i. HasSnapshot i day w) (cc) (subst (λ x. HasSnapshot id x w) (cc) (h refl))
  reported-IsTruthful id date s (retry, w) h n day e = cc
  reported-IsTruthful id date s (cancel, w) h n day e = cc
  reported-IsTruthful id date s (crashed, w) h n day e = cc

  digest_now_loaded-IsTruthful : (r : Recipients) (s : Site) → IsTruthful (digest_now_loaded p r s)
  unfolding digest_now_loaded
  digest_now_loaded-IsTruthful r s = elim (Option-cases p.runner) [
    | inl e ↦ rw (e, digest_now_loaded) (λ n day q. cc)
    | inr (d, e) ↦ elim (Option-cases (p.load_location r.tz)) [
      | inl l ↦ rw (e, l, digest_now_loaded) (λ n day q. cc)
      | inr (loc, l) ↦
          rw (e, l, digest_now_loaded)
            (reported-IsTruthful r.id (tomorrow p loc) s _ (run_digest_now-done d _ s.world))
    ]
  ]

  loaded-IsTruthful :
      (o : Outcome Recipients) (s : Site) → IsTruthful (loaded o (digest_now_loaded p) s)
  loaded-IsTruthful (ok r) s n day q = digest_now_loaded-IsTruthful r s n day q
  loaded-IsTruthful (err no_rows) s n day q = cc
  loaded-IsTruthful (err constraint) s n day q = cc
  loaded-IsTruthful (err begin_failed) s n day q = cc
  loaded-IsTruthful (err commit_failed) s n day q = cc
  loaded-IsTruthful (err enqueue_failed) s n day q = cc
  loaded-IsTruthful panic s n day q = cc

  now-IsTruthful : (id : Text) (s : Site) → IsTruthful (recipient_digest_now p id s)
  unfolding recipient_digest_now recipient_from_path
  now-IsTruthful id s = elim (Option-cases (parse_int id)) [
    | inl e ↦ rw (e, recipient_from_path) (λ n day q. cc)
    | inr (pos k, e) ↦
        rw (e, recipient_from_path) (loaded-IsTruthful (get_recipient k s.world.tables).0 s)
    | inr (negsuc k, e) ↦ rw (e, recipient_from_path) (λ n day q. cc)
  ]

  -- Where the answer to "digest now" says that the digest of a recipient and date is queued, there is
  -- a snapshot for that recipient and date.
  pub recipient_digest_now-HasSnapshot :
      (id : Text) (s : Site) (n : ℕ) (date : Text)
      → (recipient_digest_now p id s).0 ≡ patch_capture n (queued date)
      → HasSnapshot n date (recipient_digest_now p id s).1.world
  recipient_digest_now-HasSnapshot id s n date e = now-IsTruthful id s n date e
