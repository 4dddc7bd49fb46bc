-- ===== src/Digest/Due/FloorDate.antt =====
-- Which dates `SnapshotFloor` returns.
use calendar_digest.Prelude.{
  ◌≡◌, refl, ◌∙◌, ◌⊎◌, inl, inr, ◌||◌, arith, List, [], ◌∷◌, Option, some, Bool-cases, Option-cases,
}
use calendar_digest.Prelude.Chars.{Text, text_eq, text_eq_complete, text_lt}
use calendar_digest.Clock.Zone.{Location, Time, utc}
use calendar_digest.Store.Models.{Recipients}
use calendar_digest.Digest.Due.{floor_step, floor_from, snapshot_floor}
use calendar_digest.Digest.Due.Floor.{today}

module _ (load_location : Text → Option Location) (now : Time) where
  -- The floor is one that was there before, or the local date of a zone that loads.
  abbrev IsFloor : Text → Text → Type 0
  IsFloor f g =
      (g ≡ f)
      ⊎ ((tz : Text) × (loc : Location) × (load_location tz ≡ some loc) × (g ≡ today loc now))

  floor_step-IsFloor : (f : Text) (r : Recipients) → IsFloor f (floor_step load_location now f r)
  unfolding floor_step
  floor_step-IsFloor f r = elim (Bool-cases r.enabled) [
    | inr e ↦ rw e (inl refl)
    | inl e ↦ elim (Option-cases (load_location r.tz)) [
      | inl n ↦ rw (e, n) (inl refl)
      | inr (loc, l) ↦ elim (Bool-cases (text_eq f [] || text_lt (today loc now) f)) [
        | inl c ↦ rw (e, l, c) (inr (r.tz, loc, l, refl))
        | inr c ↦ rw (e, l, c) (inl refl)
      ]
    ]
  ]

  floor_from-IsFloor :
      (f : Text) (rs : List Recipients) → IsFloor f (floor_from load_location now f rs)
  unfolding floor_from
  floor_from-IsFloor f [] = inl refl
  floor_from-IsFloor f (r ∷ rs) = elim (floor_from-IsFloor (floor_step load_location now f r) rs) [
    | inr x ↦ inr x
    | inl e ↦ elim (floor_step-IsFloor f r) [
      | inl same ↦ inl (e ∙ same)
      | inr (tz, loc, l, q) ↦ inr (tz, loc, l, e ∙ q)
    ]
  ]

  pub snapshot_floor-cases :
      (rs : List Recipients)
      → (snapshot_floor load_location now rs ≡ today utc now)
        ⊎ ((tz : Text) × (loc : Location) × (load_location tz ≡ some loc)
            × (snapshot_floor load_location now rs ≡ today loc now))
  unfolding snapshot_floor
  snapshot_floor-cases rs = elim (Bool-cases (text_eq (floor_from load_location now [] rs) [])) [
    | inl e ↦ inl (rw e refl)
    | inr e ↦ elim (floor_from-IsFloor [] rs) [
      | inl none_found ↦
          absurd
            (ground (arith, text_eq_complete (floor_from load_location now [] rs) [] none_found))
      | inr (tz, loc, l, q) ↦ inr (tz, loc, l, rw e q)
    ]
  ]
