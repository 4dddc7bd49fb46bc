-- ===== src/Boot/Wait.antt =====
-- The wait of `prepareMigrationDB`: in which round it ends, and how.
use calendar_digest.Prelude.{
  ℕ, zero, suc, ◌+◌, ◌-◌, ◌≤◌, ◌<◌, ◌==◌, true, false, List, [], ◌∷◌, ◌++◌, ◌≡◌, refl, subst, ◌⊎◌,
  inl, inr, arith, Bool-cases,
}
use calendar_digest.Boot.Effects.{
  Effect, close_handle, ping, sleep, wait_cancelled, unreachable, ok, err, Act,
}
use calendar_digest.Boot.Database.{Disk, wait, after_round, migration_handle}

-- So many rounds without an answer.
abbrev pub rounds : ℕ → List Effect
rounds zero = []
rounds (suc n) = ping migration_handle ∷ sleep ∷ rounds n

module _ (d : Disk) where
  -- The attempts from `a` to `k`, that one left out, get no answer, and the context is not done.
  abbrev pub QuietUntil : ℕ → ℕ → Type 0
  QuietUntil a k = (j : ℕ) → a ≤ j → j < k → (d.pings j ≡ false) × (d.is_done j ≡ false)

  -- An attempt is answered, the context is done after an attempt, or no attempt is left.
  abbrev pub Answered : ℕ → ℕ → Act ℕ → Type 0
  Answered left a r =
      (k : ℕ) × (a ≤ k)
      × (k < a + left)
      × QuietUntil a k
      × (d.pings k ≡ true)
      × (r ≡ (ok migration_handle, rounds (k - a) ++ ping migration_handle ∷ []))

  abbrev pub Stopped : ℕ → ℕ → Act ℕ → Type 0
  Stopped left a r =
      (k : ℕ) × (a ≤ k)
      × (k < a + left)
      × QuietUntil a k
      × (d.pings k ≡ false)
      × (d.is_done k ≡ true)
      × (r ≡ (
        err wait_cancelled,
        rounds (k - a) ++ ping migration_handle ∷ close_handle migration_handle ∷ [],
      ))

  abbrev pub Exhausted : ℕ → ℕ → Act ℕ → Type 0
  Exhausted left a r =
      QuietUntil a (a + left)
      × (r ≡ (err unreachable, rounds left ++ close_handle migration_handle ∷ []))

  abbrev pub HasWaited : ℕ → ℕ → Act ℕ → Type 0
  HasWaited left a r = Answered left a r ⊎ (Stopped left a r ⊎ Exhausted left a r)

  quiet_more :
      (a k : ℕ) → d.pings a ≡ false → d.is_done a ≡ false → QuietUntil (a + 1) k → QuietUntil a k
  quiet_more a k p q quiet j le lt = elim (Bool-cases (j == a)) [
    | inl e ↦
        let same : a ≡ j = ground arith in
        subst (λ i. (d.pings i ≡ false) × (d.is_done i ≡ false)) same (p, q)
    | inr e ↦ quiet j (ground arith) lt
  ]

  round_more :
      (a k : ℕ) → a + 1 ≤ k → rounds (k - a) ≡ ping migration_handle ∷ sleep ∷ rounds (k - (a + 1))
  round_more a k le = let more : k - a ≡ suc (k - (a + 1)) = omega arith in rw more refl

  sub_self : (a : ℕ) → a - a ≡ 0
  sub_self a = omega arith

  longer :
      (left a : ℕ) (r : Act ℕ)
      → d.pings a ≡ false
      → d.is_done a ≡ false
      → HasWaited left (a + 1) r
      → HasWaited (suc left) a (after_round d r)
  longer left a r p q (inl (k, le, lt, quiet, hit, e)) =
      inl
        (k, omega arith, omega arith, quiet_more a k p q quiet, hit, rw (e, round_more a k le) refl)
  longer left a r p q (inr (inl (k, le, lt, quiet, miss, over, e))) = inr (
      inl (
        k,
        omega arith,
        omega arith,
        quiet_more a k p q quiet,
        miss,
        over,
        rw (e, round_more a k le) refl,
      ))
  longer left a r p q (inr (inr (quiet, e))) =
      inr (inr (λ j lo hi. quiet_more a (a + 1 + left) p q quiet j lo (omega arith), rw e refl))

  -- With `left` attempts from number `a` on, the wait ends in the first round whose ping is answered,
  -- with the handle; or, if earlier, in the first after whose ping the context is done, with the handle
  -- closed; or after the last round, with the handle closed. Every round before has pinged and slept
  -- once.
  pub wait-HasWaited : (left a : ℕ) → HasWaited left a (wait d left a)
  unfolding wait
  wait-HasWaited zero a = inr (inr ((λ j lo hi. absurd (omega arith)), refl))
  wait-HasWaited (suc left) a = elim (Bool-cases (d.pings a)) [
    | inl hit ↦ rw hit (
        inl (
          a,
          omega arith,
          omega arith,
          (λ j lo hi. absurd (omega arith)),
          hit,
          rw (sub_self a) refl,
        ))
    | inr miss ↦ elim (Bool-cases (d.is_done a)) [
      | inl over ↦
          rw (miss, over)
            (inr (
              inl (
                a,
                omega arith,
                omega arith,
                (λ j lo hi. absurd (omega arith)),
                miss,
                over,
                rw (sub_self a) refl,
              )))
      | inr alive ↦
          rw (miss, alive)
            (longer left a (wait d left (a + 1)) miss alive (wait-HasWaited left (a + 1)))
    ]
  ]
