-- ===== src/Digest/Due/Skips.antt =====
-- What `Due` returns second: the recipients that it could not evaluate.
use calendar_digest.Prelude.{
  ◌≡◌, refl, subst, ◌↔◌, inl, inr, arith, List, [], ◌∷◌, true, Option, In, In-append-left,
  In-append-right, In-append-split, Bool-cases,
}
use calendar_digest.Prelude.Chars.{Text}
use calendar_digest.Clock.Zone.{Location, Time}
use calendar_digest.Store.Models.{Recipients, SnapshotKey}
use calendar_digest.Digest.Due.{Skipped, err, schedule, due_one, due}
use calendar_digest.Digest.Due.Owed.{Checked-cases, due_one_off, due_one_err, due_one_ok}

-- The recipient `r` is enabled and its schedule cannot be read.
pub record IsSkipped (load_location : Text → Option Location) (r : Recipients) (s : Skipped)
    : Type 0 where
  pub enabled : r.enabled ≡ true
  pub fails : schedule load_location r ≡ err s.err
  pub addressed : s.recipient_id ≡ r.id

module _ (load_location : Text → Option Location) (now : Time) (snapshots : List SnapshotKey) where
  due_one-IsSkipped :
      (r : Recipients) (s : Skipped)
      → In s (due_one load_location now snapshots r).1
      → IsSkipped load_location r s
  due_one-IsSkipped r s m = elim (Bool-cases r.enabled) [
    | inr e ↦ absurd (subst (λ x. In s x.1) (due_one_off load_location now snapshots r e) m)
    | inl e ↦ elim (Checked-cases (schedule load_location r)) [
      | inl ((loc, (hh, mm)), q) ↦
          absurd (subst (λ x. In s x.1) (due_one_ok load_location now snapshots r loc hh mm e q) m)
      | inr (x, q) ↦
          elim (subst (λ x. In s x.1) (due_one_err load_location now snapshots r x e q) m) [
            | inl same ↦ rw same (record { enabled = e; fails = q; addressed = refl })
            | inr none' ↦ absurd none'
          ]
    ]
  ]

  IsSkipped-due_one :
      (r : Recipients) (s : Skipped)
      → IsSkipped load_location r s
      → In s (due_one load_location now snapshots r).1
  IsSkipped-due_one r s k =
      rw (due_one_err load_location now snapshots r s.err k.enabled k.fails)
        (inl (ground (arith, k.addressed)))

  skipped-split :
      (rs : List Recipients) (s : Skipped)
      → In s (due load_location now rs snapshots).1
      → (r : Recipients) × In r rs × In s (due_one load_location now snapshots r).1
  unfolding due
  skipped-split [] s m = absurd m
  skipped-split (r ∷ rs) s m =
      elim (In-append-split s (due_one load_location now snapshots r).1
        (due load_location now rs snapshots).1 m) [
          | inl h ↦ (r, inl refl, h)
          | inr t ↦ let (q, mq, h) = skipped-split rs s t in (q, inr mq, h)
        ]

  skipped-join :
      (rs : List Recipients) (r : Recipients) (s : Skipped)
      → In r rs
      → In s (due_one load_location now snapshots r).1
      → In s (due load_location now rs snapshots).1
  unfolding due
  skipped-join [] r s m h = absurd m
  skipped-join (q ∷ rs) r s (inl e) h =
      In-append-left s (due_one load_location now snapshots q).1
        (due load_location now rs snapshots).1
        (subst (λ x. In s (due_one load_location now snapshots x).1) e h)
  skipped-join (q ∷ rs) r s (inr m) h =
      In-append-right s (due_one load_location now snapshots q).1
        (due load_location now rs snapshots).1 (skipped-join rs r s m h)

  -- `Due` reports exactly the enabled recipients whose zone or notify time cannot be read, each
  -- with its error.
  pub skipped_iff :
      (rs : List Recipients) (s : Skipped)
      → In s (due load_location now rs snapshots).1
        ↔ ((r : Recipients) × In r rs × IsSkipped load_location r s)
  skipped_iff rs s = (
    λ m. let (r, mr, h) = skipped-split rs s m in (r, mr, due_one-IsSkipped r s h),
    λ h. skipped-join rs h.0 s h.1 (IsSkipped-due_one h.0 s h.2),
  )
