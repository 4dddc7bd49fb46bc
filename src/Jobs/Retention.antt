-- ===== src/Jobs/Retention.antt =====
-- The retention pass of internal/jobs/purge.go beside the due check.
use calendar_digest.Prelude.{
  ℕ, ◌+◌, ◌/◌, ◌≤◌, ◌<◌, ◌==◌, ltb, ltb→lt, Bool, false, ◌||◌, List, [], ◌∷◌, ◌++◌, any, map, refl,
  keep_if, some, ◌≡◌, sym, ap, subst, ◌∙◌, arith, Bool-cases, inl, inr,
}
use calendar_digest.Prelude.Chars.{Text, TextLe, TextLe-trans, TextLe-lt, text_lt_irrefl}
use calendar_digest.Clock.Civil.{civil}
use calendar_digest.Clock.Layout.{format_date}
use calendar_digest.Clock.Layout.Order.{format-civil_lt}
use calendar_digest.Clock.Zone.{Location, Time, utc, in_zone, wall, lookup, day_seconds}
use calendar_digest.Clock.Zone.Offsets.{civil-date_of_time, date_of_time-wall}
use calendar_digest.Store.Models.{Recipients, DigestSnapshots, SnapshotKey}
use calendar_digest.Store.Snapshots.{purge_snapshots_before, key_of, is_since}
use calendar_digest.Store.Snapshots.Keys.{any-map, is_listed, since_key}
use calendar_digest.Digest.Due.{date_of, due, snapshot_floor, is_done}
use calendar_digest.Digest.Due.Floor.{AgreeFrom, due-snapshot_floor, today}
use calendar_digest.Digest.Due.FloorDate.{snapshot_floor-cases}
use calendar_digest.Jobs.Deps.{Deps, World}
use calendar_digest.Jobs.Scan.{history}
use calendar_digest.Jobs.Purge.{cutoff, purge, purged}

format_le : (m n : ℕ) → m ≤ n → n < 3652058 → TextLe (format_date (civil m)) (format_date (civil n))
format_le m n le small = elim (Bool-cases (ltb m n)) [
  | inl lt ↦ TextLe-lt _ _ (format-civil_lt m n (ltb→lt m n lt) small)
  | inr ge ↦
      subst (λ k. TextLe (format_date (civil m)) (format_date (civil k))) (ground arith)
        (text_lt_irrefl (format_date (civil m)))
]

today_day :
    (loc : Location) (now : Time) → format_date (civil (date_of (in_zone loc now))) ≡ today loc now
unfolding date_of
today_day loc now = ap format_date (civil-date_of_time (in_zone loc now))

utc_day : (now : Time) → date_of (in_zone utc now) ≡ now.sec / day_seconds
unfolding date_of wall lookup
utc_day now = date_of_time-wall (in_zone utc now) ∙ ground arith

any-join :
    (p : SnapshotKey → Bool) (xs ys : List SnapshotKey) → any p (xs ++ ys) ≡ (any p xs || any p ys)
any-join p [] ys = refl
any-join p (x ∷ xs) ys = ground (arith, any-join p xs ys)

module _ (d : Deps) (later : Time) (kept : 1 ≤ d.snapshot_retention_days)
    (after : d.now ≤ later.sec)
    (timely : (tz : Text) (loc : Location)
      → d.load_location tz ≡ some loc
      → (1 ≤ date_of (in_zone loc later)) × (date_of (in_zone loc later) < 3652057))
    (near : (tz : Text) (loc : Location)
      → d.load_location tz ≡ some loc
      → later.sec / day_seconds ≤ date_of (in_zone loc later) + 1)
    (small : later.sec / day_seconds < 3652057) where
  cutoff_floor :
      (rs : List Recipients) → TextLe (cutoff d) (snapshot_floor d.load_location later rs)
  cutoff_floor rs = elim (snapshot_floor-cases d.load_location later rs) [
    | inl e ↦
        subst (TextLe (cutoff d)) (today_day utc later ∙ sym e)
          (format_le _ _ (omega (arith, utc_day later)) (omega (arith, utc_day later)))
    | inr (tz, loc, l, e) ↦
        let n = near tz loc l in
        let t = timely tz loc l in
        subst (TextLe (cutoff d)) (today_day loc later ∙ sym e)
          (format_le _ _ (omega arith) (omega arith))
  ]

  purged-AgreeFrom :
      (rs : List Recipients) (xs : List DigestSnapshots) (captured : List SnapshotKey)
      → AgreeFrom
          (snapshot_floor d.load_location later rs)
          (map key_of (keep_if (is_since (cutoff d)) xs) ++ captured)
          (map key_of xs ++ captured)
  unfolding is_done
  purged-AgreeFrom rs xs captured id date le =
      any-join (is_listed id date) (map key_of (keep_if (is_since (cutoff d)) xs)) captured
      ∙ ap (λ b. b || any (is_listed id date) captured)
          (any-map (is_listed id date) key_of (keep_if (is_since (cutoff d)) xs)
            ∙ since_key (cutoff d) date id xs (TextLe-trans (cutoff d) _ date (cutoff_floor rs) le)
            ∙ sym (any-map (is_listed id date) key_of xs))
      ∙ sym (any-join (is_listed id date) (map key_of xs) captured)

  -- With a retention of a day or more, for a check at the time of the purge or later, before
  -- 9999-12-30 and with zones whose local date is then from 0001-01-02 on and at most a day behind
  -- that of UTC: whatever snapshots are captured in between, the check answers as if nothing had been
  -- purged, so it does not owe a digest again because its snapshot was removed.
  pub purge-due :
      (rs : List Recipients) (captured : List SnapshotKey) (w : World)
      → due d.load_location later rs (history (purge d w).1.tables ++ captured)
        ≡ due d.load_location later rs (history w.tables ++ captured)
  unfolding purge purge_snapshots_before purged
  purge-due rs captured w =
      let positive : (d.snapshot_retention_days == 0) ≡ false = ground arith in
      rw positive (
        due-snapshot_floor d.load_location later
          (map key_of (keep_if (is_since (cutoff d)) w.tables.snapshots) ++ captured)
          (history w.tables ++ captured) timely rs
          (purged-AgreeFrom rs w.tables.snapshots captured))
