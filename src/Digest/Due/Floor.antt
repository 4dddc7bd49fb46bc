-- ===== src/Digest/Due/Floor.antt =====
-- `SnapshotFloor` reaches back far enough: keys of earlier dates make no difference to `Due`.
use calendar_digest.Prelude.{
  ℕ, ◌≤◌, ◌<◌, ◌≡◌, refl, sym, ap, subst, inl, inr, arith, List, [], ◌∷◌, true, false, ltb, ltb→lt,
  Option, some, In, Bool-cases, Option-cases,
}
use calendar_digest.Prelude.Chars.{Text, text_eq, text_lt_irrefl, TextLe, TextLe-trans, TextLe-lt}
use calendar_digest.Clock.Civil.{civil, days_of}
use calendar_digest.Clock.Layout.{format_date}
use calendar_digest.Clock.Layout.Order.{format_date-ne, format-civil_lt}
use calendar_digest.Clock.Zone.{Location, Time, in_zone, date_of_time}
use calendar_digest.Clock.Zone.Offsets.{civil-date_of_time}
use calendar_digest.Store.Models.{Recipients, SnapshotKey}
use calendar_digest.Digest.Due.{
  date_of, candidates, is_done, owed_dates, schedule, due_one, due, floor_step, floor_from,
  snapshot_floor,
}
use calendar_digest.Digest.Due.Candidates.{candidates_sound}
use calendar_digest.Digest.Due.Owed.{Checked-cases, loads, due_one_off, due_one_err, due_one_ok}

-- The local date of a time, as text.
abbrev pub today : Location → Time → Text
today loc now = format_date (date_of_time (in_zone loc now))

module _ (load_location : Text → Option Location) (now : Time) where
  step_keeps :
      (floor : Text) (r : Recipients)
      → text_eq floor [] ≡ false
      → (text_eq (floor_step load_location now floor r) [] ≡ false)
        × TextLe (floor_step load_location now floor r) floor
  unfolding floor_step
  step_keeps floor r h = elim (Bool-cases r.enabled) [
    | inr e ↦ ground (arith, text_lt_irrefl floor)
    | inl e ↦ elim (Option-cases (load_location r.tz)) [
      | inl n ↦ ground (arith, text_lt_irrefl floor)
      | inr (loc, l) ↦ ground (
        arith,
        format_date-ne (date_of_time (in_zone loc now)),
        text_lt_irrefl floor,
        TextLe-lt (today loc now) floor,
      )
    ]
  ]

  step_reaches :
      (floor : Text) (r : Recipients) (loc : Location)
      → r.enabled ≡ true
      → load_location r.tz ≡ some loc
      → (text_eq (floor_step load_location now floor r) [] ≡ false)
        × TextLe (floor_step load_location now floor r) (today loc now)
  unfolding floor_step
  step_reaches floor r loc e l =
      ground
        (arith, format_date-ne (date_of_time (in_zone loc now)), text_lt_irrefl (today loc now))

  -- The floor is not after the local date of any recipient that `Due` can evaluate.
  floor_from_reaches :
      (rs : List Recipients) (floor : Text)
      → (text_eq floor [] ≡ false
          → (text_eq (floor_from load_location now floor rs) [] ≡ false)
            × TextLe (floor_from load_location now floor rs) floor)
        × ((r : Recipients) (loc : Location)
            → In r rs
            → r.enabled ≡ true
            → load_location r.tz ≡ some loc
            → (text_eq (floor_from load_location now floor rs) [] ≡ false)
              × TextLe (floor_from load_location now floor rs) (today loc now))
  unfolding floor_from
  floor_from_reaches [] floor = (λ h. (h, text_lt_irrefl floor), λ r loc m e l. absurd m)
  floor_from_reaches (q ∷ rs) floor =
      let s = floor_step load_location now floor q in
      let f = floor_from load_location now s rs in
      let (keeps, reaches) = floor_from_reaches rs s in
      (
        λ h.
            let (n, le) = step_keeps floor q h in
            let (n', le') = keeps n in (n', TextLe-trans f s floor le' le),
        λ r loc m e l. elim m [
          | inl same ↦
              let (n, le) =
                step_reaches floor q loc (subst (λ x. x.enabled ≡ true) same e)
                  (subst (λ x. load_location x.tz ≡ some loc) same l) in
              let (n', le') = keeps n in (n', TextLe-trans f s (today loc now) le' le)
          | inr later ↦ reaches r loc later e l
        ],
      )

  pub snapshot_floor_reaches :
      (rs : List Recipients) (r : Recipients) (loc : Location)
      → In r rs
      → r.enabled ≡ true
      → load_location r.tz ≡ some loc
      → TextLe (snapshot_floor load_location now rs) (today loc now)
  unfolding snapshot_floor
  snapshot_floor_reaches rs r loc m e l =
      let (n, le) = (floor_from_reaches rs []).1 r loc m e l in rw n le

-- The date of a day that is not before today is not before today's as text.
today-le :
    (loc : Location) (now : Time) (n : ℕ)
    → date_of (in_zone loc now) ≤ n
    → n < 3652058
    → TextLe (today loc now) (format_date (civil n))
unfolding date_of
today-le loc now n lo hi =
    let day = days_of (date_of_time (in_zone loc now)) in
    subst (λ x. TextLe (format_date x) (format_date (civil n)))
      (civil-date_of_time (in_zone loc now))
      (elim (Bool-cases (ltb day n)) [
        | inl lt ↦ TextLe-lt _ _ (format-civil_lt day n (ltb→lt day n lt) hi)
        | inr ge ↦
            subst (λ k. TextLe (format_date (civil k)) (format_date (civil n))) (ground arith)
              (text_lt_irrefl (format_date (civil n)))
      ])

-- The two key lists hold the same keys from the date `floor` on.
abbrev pub AgreeFrom : Text → List SnapshotKey → List SnapshotKey → Type 0
AgreeFrom floor xs ys =
    (id : ℕ) (date : Text) → TextLe floor date → is_done xs id date ≡ is_done ys id date

owed_dates-agree :
    (xs ys : List SnapshotKey) (id : ℕ) (dates : List Text)
    → ((d : Text) → In d dates → is_done xs id d ≡ is_done ys id d)
    → owed_dates xs id dates ≡ owed_dates ys id dates
unfolding owed_dates
owed_dates-agree xs ys id [] h = refl
owed_dates-agree xs ys id (d ∷ ds) h =
    rw (h d (inl refl), owed_dates-agree xs ys id ds (λ e m. h e (inr m)))

module _ (load_location : Text → Option Location) (now : Time) (xs ys : List SnapshotKey)
    (timely : (tz : Text) (loc : Location)
      → load_location tz ≡ some loc
      → (1 ≤ date_of (in_zone loc now)) × (date_of (in_zone loc now) < 3652057)) where
  due_one-agree :
      (floor : Text) (r : Recipients)
      → AgreeFrom floor xs ys
      → ((loc : Location)
          → r.enabled ≡ true
          → load_location r.tz ≡ some loc
          → TextLe floor (today loc now))
      → due_one load_location now xs r ≡ due_one load_location now ys r
  due_one-agree floor r agree low = elim (Bool-cases r.enabled) [
    | inr e ↦ rw (due_one_off load_location now xs r e) (sym (due_one_off load_location now ys r e))
    | inl e ↦ elim (Checked-cases (schedule load_location r)) [
      | inr (x, q) ↦
          rw (due_one_err load_location now xs r x e q)
            (sym (due_one_err load_location now ys r x e q))
      | inl ((loc, (hh, mm)), q) ↦
          let l = loads load_location r loc (hh, mm) q in
          let t = timely r.tz loc l in
          let dates = candidates (in_zone loc now) hh mm in
          let same : owed_dates xs r.id dates ≡ owed_dates ys r.id dates =
            owed_dates-agree xs ys r.id dates (λ d m.
              let (n, dated, lo, hi, p) = candidates_sound (in_zone loc now) hh mm t.0 d m in
              agree r.id d (
                TextLe-trans floor (today loc now) d (low loc e l) (
                  subst (TextLe (today loc now)) (sym dated)
                    (today-le loc now n lo (omega arith))))) in
          rw (due_one_ok load_location now xs r loc hh mm e q)
            (rw (due_one_ok load_location now ys r loc hh mm e q) (ap (λ o. (o, [])) same))
    ]
  ]

  due-agree :
      (floor : Text) (rs : List Recipients)
      → AgreeFrom floor xs ys
      → ((r : Recipients) (loc : Location)
          → In r rs
          → r.enabled ≡ true
          → load_location r.tz ≡ some loc
          → TextLe floor (today loc now))
      → due load_location now rs xs ≡ due load_location now rs ys
  unfolding due
  due-agree floor [] agree low = refl
  due-agree floor (r ∷ rs) agree low = rw (
    due_one-agree floor r agree (λ loc. low r loc (inl refl)),
    due-agree floor rs agree (λ q loc m. low q loc (inr m)),
  )

  -- For a time between 0001-01-02 and 9999-12-30 in every zone: two key lists that agree from
  -- `SnapshotFloor` on give the same digests owed.
  pub due-snapshot_floor :
      (rs : List Recipients)
      → AgreeFrom (snapshot_floor load_location now rs) xs ys
      → due load_location now rs xs ≡ due load_location now rs ys
  due-snapshot_floor rs agree =
      due-agree (snapshot_floor load_location now rs) rs agree
        (snapshot_floor_reaches load_location now rs)
