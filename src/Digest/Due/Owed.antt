-- ===== src/Digest/Due/Owed.antt =====
-- What `Due` returns first: the digests owed.
use calendar_digest.Prelude.{
  ℕ, ◌+◌, ◌-◌, ◌≤◌, ◌≡◌, refl, sym, subst, ◌↔◌, ◌⊎◌, inl, inr, arith, List, [], ◌∷◌, true, false,
  Option, some, In, In-append-left, In-append-right, In-append-split, Bool-cases,
}
use calendar_digest.Prelude.Chars.{Text}
use calendar_digest.Clock.Civil.{civil}
use calendar_digest.Clock.Layout.{format_date}
use calendar_digest.Clock.Zone.{Location, Time, in_zone}
use calendar_digest.Store.Models.{Recipients, SnapshotKey}
use calendar_digest.Digest.Due.{
  DueDigest, ScheduleError, Checked, ok, err, date_of, at, candidates, is_done, owed_dates,
  schedule, due_one, due,
}
use calendar_digest.Digest.Due.Candidates.{candidates_sound, candidates_complete}

owed_dates_sound :
    (snapshots : List SnapshotKey) (id : ℕ) (dates : List Text) (d : DueDigest)
    → In d (owed_dates snapshots id dates)
    → (d.recipient_id ≡ id) × In d.digest_date dates × (is_done snapshots id d.digest_date ≡ false)
unfolding owed_dates
owed_dates_sound snapshots id [] d m = absurd m
owed_dates_sound snapshots id (x ∷ xs) d m = ground (arith, owed_dates_sound snapshots id xs d)

owed_dates_complete :
    (snapshots : List SnapshotKey) (id : ℕ) (dates : List Text) (d : DueDigest)
    → d.recipient_id ≡ id
    → In d.digest_date dates
    → is_done snapshots id d.digest_date ≡ false
    → In d (owed_dates snapshots id dates)
unfolding owed_dates
owed_dates_complete snapshots id [] d e m u = m
owed_dates_complete snapshots id (x ∷ xs) d e m u =
    ground (arith, owed_dates_complete snapshots id xs d e)

-- The recipient `r` is owed the digest `d`, which is that of the day `day`: it is today or tomorrow
-- where the recipient is, the notify instant on the day before has passed, and there is no
-- snapshot.
pub record Owes (load_location : Text → Option Location) (now : Time) (snapshots : List SnapshotKey)
    (r : Recipients) (d : DueDigest) : Type 0 where
  pub enabled : r.enabled ≡ true
  pub loc : Location
  pub hh : ℕ
  pub mm : ℕ
  pub reads : schedule load_location r ≡ ok (loc, (hh, mm))
  pub addressed : d.recipient_id ≡ r.id
  pub day : ℕ
  pub dated : d.digest_date ≡ format_date (civil day)
  pub not_past : date_of (in_zone loc now) ≤ day
  pub soon : day ≤ date_of (in_zone loc now) + 1
  pub notified : (at (day - 1) hh mm loc).sec ≤ now.sec
  pub undone : is_done snapshots r.id d.digest_date ≡ false

pub Checked-cases {ℓ} :
    {A : Type ℓ} (c : Checked A) → ((a : A) × (c ≡ ok a)) ⊎ ((e : ScheduleError) × (c ≡ err e))
Checked-cases (ok a) = inl (a, refl)
Checked-cases (err e) = inr (e, refl)

module _ (load_location : Text → Option Location) where
  pub loads :
      (r : Recipients) (loc : Location) (t : ℕ × ℕ)
      → schedule load_location r ≡ ok (loc, t)
      → load_location r.tz ≡ some loc
  unfolding schedule
  loads r loc t h = ground arith

module _ (load_location : Text → Option Location) (now : Time) (snapshots : List SnapshotKey) where
  pub due_one_off :
      (r : Recipients) → r.enabled ≡ false → due_one load_location now snapshots r ≡ ([], [])
  unfolding due_one
  due_one_off r h = ground arith

  pub due_one_err :
      (r : Recipients) (e : ScheduleError)
      → r.enabled ≡ true
      → schedule load_location r ≡ err e
      → due_one load_location now snapshots r ≡ ([], record { recipient_id = r.id; err = e } ∷ [])
  unfolding due_one
  due_one_err r e h k = ground arith

  pub due_one_ok :
      (r : Recipients) (loc : Location) (hh mm : ℕ)
      → r.enabled ≡ true
      → schedule load_location r ≡ ok (loc, (hh, mm))
      → due_one load_location now snapshots r
        ≡ (owed_dates snapshots r.id (candidates (in_zone loc now) hh mm), [])
  unfolding due_one
  due_one_ok r loc hh mm h k = ground arith

  due-split :
      (rs : List Recipients) (d : DueDigest)
      → In d (due load_location now rs snapshots).0
      → (r : Recipients) × In r rs × In d (due_one load_location now snapshots r).0
  unfolding due
  due-split [] d m = absurd m
  due-split (r ∷ rs) d m =
      elim (In-append-split d (due_one load_location now snapshots r).0
        (due load_location now rs snapshots).0 m) [
          | inl h ↦ (r, inl refl, h)
          | inr t ↦ let (q, mq, h) = due-split rs d t in (q, inr mq, h)
        ]

  due-join :
      (rs : List Recipients) (r : Recipients) (d : DueDigest)
      → In r rs
      → In d (due_one load_location now snapshots r).0
      → In d (due load_location now rs snapshots).0
  unfolding due
  due-join [] r d m h = absurd m
  due-join (q ∷ rs) r d (inl e) h =
      In-append-left d (due_one load_location now snapshots q).0
        (due load_location now rs snapshots).0
        (subst (λ x. In d (due_one load_location now snapshots x).0) e h)
  due-join (q ∷ rs) r d (inr m) h =
      In-append-right d (due_one load_location now snapshots q).0
        (due load_location now rs snapshots).0 (due-join rs r d m h)

module _ (load_location : Text → Option Location) (now : Time) (snapshots : List SnapshotKey)
    (late : (tz : Text) (loc : Location)
      → load_location tz ≡ some loc
      → 1 ≤ date_of (in_zone loc now)) where
  due_one-Owes :
      (r : Recipients) (d : DueDigest)
      → In d (due_one load_location now snapshots r).0
      → Owes load_location now snapshots r d
  due_one-Owes r d m = elim (Bool-cases r.enabled) [
    | inr e ↦ absurd (subst (λ x. In d x.0) (due_one_off load_location now snapshots r e) m)
    | inl e ↦ elim (Checked-cases (schedule load_location r)) [
      | inr (x, q) ↦
          absurd (subst (λ x. In d x.0) (due_one_err load_location now snapshots r x e q) m)
      | inl ((loc, (hh, mm)), q) ↦
          let t = in_zone loc now in
          let (to, c, u) =
            owed_dates_sound snapshots r.id (candidates t hh mm) d
              (subst (λ x. In d x.0) (due_one_ok load_location now snapshots r loc hh mm e q) m) in
          let (n, dated, lo, hi, p) =
            candidates_sound t hh mm (late r.tz loc (loads load_location r loc (hh, mm) q))
              d.digest_date c in
          record {
            enabled = e;
            loc = loc;
            hh = hh;
            mm = mm;
            reads = q;
            addressed = to;
            day = n;
            dated = dated;
            not_past = lo;
            soon = hi;
            notified = p;
            undone = u;
          }
    ]
  ]

  Owes-due_one :
      (r : Recipients) (d : DueDigest)
      → Owes load_location now snapshots r d
      → In d (due_one load_location now snapshots r).0
  Owes-due_one r d o =
      let t = in_zone o.loc now in
      let c =
        candidates_complete t o.hh o.mm
          (late r.tz o.loc (loads load_location r o.loc (o.hh, o.mm) o.reads)) o.day o.not_past
          o.soon o.notified in
      rw (due_one_ok load_location now snapshots r o.loc o.hh o.mm o.enabled o.reads) (
        owed_dates_complete snapshots r.id (candidates t o.hh o.mm) d o.addressed
          (subst (λ x. In x (candidates t o.hh o.mm)) (sym o.dated) c) o.undone)

  -- For a time after 0001-01-01 in every zone: `Due` returns exactly the digests that some
  -- recipient is owed.
  pub due_iff :
      (rs : List Recipients) (d : DueDigest)
      → In d (due load_location now rs snapshots).0
        ↔ ((r : Recipients) × In r rs × Owes load_location now snapshots r d)
  due_iff rs d = (
    λ m.
        let (r, mr, h) = due-split load_location now snapshots rs d m in
        (r, mr, due_one-Owes r d h),
    λ h. due-join load_location now snapshots rs h.0 d h.1 (Owes-due_one h.0 d h.2),
  )
