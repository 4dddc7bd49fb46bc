-- ===== src/Store/Tx.antt =====
-- internal/store/tx.go: transactions over any state, and what the driver decides (whether a
-- transaction begins and whether it commits) as a record. A panic is an outcome of its own.
use calendar_digest.Prelude.{Bool, true, false, ◌≡◌, refl, ap, subst, ◌⊎◌, inl, inr, if◌then◌else◌}

-- The errors of database calls: no row for a `:one` query, a violated constraint, a transaction
-- that does not begin or commit, and a failure of the job queue's insert.
pub data SqlError : Type 0 where
  no_rows constraint begin_failed commit_failed enqueue_failed : SqlError

pub data Outcome {ℓ} (A : Type ℓ) : Type ℓ where
  ok : A → Outcome A
  err : SqlError → Outcome A
  panic : Outcome A

-- A body that reads and writes the state. What it wrote before it failed is in the state that it
-- returns; only a transaction takes it back.
abbrev pub Body : Type 0 → Type 0 → Type 0
Body S A = S → Outcome A × S

abbrev pub pure : {S A : Type 0} → A → Body S A
pure a s = (ok a, s)

abbrev pub fail : {S A : Type 0} → SqlError → Body S A
fail e s = (err e, s)

abbrev pub continue : {S A B : Type 0} → Outcome A × S → (A → Body S B) → Outcome B × S
continue (ok a, s) f = f a s
continue (err e, s) f = (err e, s)
continue (panic, s) f = (panic, s)

infixl 5 ◌>>=◌ ◌>>◌
abbrev pub ◌>>=◌ : {S A B : Type 0} → Body S A → (A → Body S B) → Body S B
◌>>=◌ m f s = continue (m s) f

abbrev pub ◌>>◌ : {S A B : Type 0} → Body S A → Body S B → Body S B
m >> n = m >>= λ _. n

pub record Conn : Type 0 where
  pub begins : Bool
  pub commits : Bool

-- The deferred function of `beginFunc`: roll back, or commit. `s` is the state before.
close : {S : Type 0} → Bool → S → Outcome (Unit {0}) × S → Outcome (Unit {0}) × S
close commits s (panic, s') = (panic, s)
close commits s (err e, s') = (err e, s)
close commits s (ok u, s') = if commits then (ok u, s') else (err commit_failed, s)

unfoldable pub begin_func : {S : Type 0} → Conn → Body S (Unit {0}) → Body S (Unit {0})
unfolding close
begin_func c fn s = if c.begins then close c.commits s (fn s) else (err begin_failed, s)

-- The value that the body leaves in `out`, beside the outcome of the transaction.
with_out : {S A : Type 0} → Outcome A → Outcome (Unit {0}) × S → Outcome A × S
with_out (ok a) (ok u, s) = (ok a, s)
with_out (err e) (ok u, s) = (err e, s)
with_out panic (ok u, s) = (panic, s)
with_out out (err e, s) = (err e, s)
with_out out (panic, s) = (panic, s)

forget : {S A : Type 0} → Body S A → Body S (Unit {0})
forget fn s = continue (fn s) (λ _ s'. (ok tt, s'))

unfoldable pub in_tx : {S A : Type 0} → Conn → Body S A → Body S A
unfolding begin_func with_out forget
in_tx c fn s = with_out (fn s).0 (begin_func c (forget fn) s)

unfoldable pub with_tx : {S : Type 0} → Conn → Body S (Unit {0}) → Body S (Unit {0})
unfolding in_tx
with_tx c fn = in_tx c fn

-- `bound` says whether the queries are bound to a transaction already.
unfoldable pub ensure_tx : {S A : Type 0} → Bool → Conn → Body S A → Body S A
unfolding in_tx
ensure_tx bound c fn = if bound then fn else in_tx c fn

-- What a transaction ends in, in the terms of its body.
abbrev pub IsAtomic : {S A : Type 0} → Conn → Body S A → S → Outcome A × S → Type 0
IsAtomic c fn s (ok a, s') = (fn s ≡ (ok a, s')) × (c.begins ≡ true) × (c.commits ≡ true)
IsAtomic c fn s (err e, s') =
    (s' ≡ s)
    × (((c.begins ≡ false) × (e ≡ begin_failed))
        ⊎ (((fn s).0 ≡ err e) ⊎ ((c.commits ≡ false) × (e ≡ commit_failed))))
IsAtomic c fn s (panic, s') = (s' ≡ s) × ((fn s).0 ≡ panic)

close-IsAtomic :
    {S A : Type 0} (c : Conn) (fn : Body S A) (s : S) (r : Outcome A × S) (b d : Bool)
    → fn s ≡ r
    → c.begins ≡ b
    → c.commits ≡ d
    → IsAtomic c fn s (
        with_out r.0
          (if b then close d s (continue r (λ _ s'. (ok tt, s'))) else (err begin_failed, s)))
unfolding close with_out
close-IsAtomic c fn s (ok a, s') false d e hb hd = (refl, inl (hb, refl))
close-IsAtomic c fn s (ok a, s') true true e hb hd = (e, hb, hd)
close-IsAtomic c fn s (ok a, s') true false e hb hd = (refl, inr (inr (hd, refl)))
close-IsAtomic c fn s (err x, s') false d e hb hd = (refl, inl (hb, refl))
close-IsAtomic c fn s (err x, s') true d e hb hd = (refl, inr (inl (ap (λ p. p.0) e)))
close-IsAtomic c fn s (panic, s') false d e hb hd = (refl, inl (hb, refl))
close-IsAtomic c fn s (panic, s') true d e hb hd = (refl, ap (λ p. p.0) e)

-- A transaction returns a value only when its body did, began and committed, and the state is then
-- the body's. On an error, which comes back as the body gave it or is that of the begin or commit,
-- and on a panic, the state is the one before.
pub in_tx-IsAtomic :
    {S A : Type 0} (c : Conn) (fn : Body S A) (s : S) → IsAtomic c fn s (in_tx c fn s)
unfolding in_tx
in_tx-IsAtomic c fn s = close-IsAtomic c fn s (fn s) c.begins c.commits refl refl refl

-- Where a transaction begins and commits, a body that succeeds is the whole of it.
pub in_tx-ok :
    {S A : Type 0} (c : Conn) (fn : Body S A) (s : S) (a : A) (s' : S)
    → c.begins ≡ true
    → c.commits ≡ true
    → fn s ≡ (ok a, s')
    → in_tx c fn s ≡ (ok a, s')
unfolding in_tx begin_func close with_out forget
in_tx-ok c fn s a s' b d e = rw (e, b, d) refl

-- A transaction ends in the state before, or as its body, which then succeeded.
pub IsAtomic-cases :
    {S A : Type 0} (c : Conn) (fn : Body S A) (s : S) (r : Outcome A × S)
    → IsAtomic c fn s r
    → (r.1 ≡ s) ⊎ ((a : A) × (r ≡ (ok a, r.1)) × (fn s ≡ r))
IsAtomic-cases c fn s (ok a, s') (e, b, d) = inr (a, refl, e)
IsAtomic-cases c fn s (err x, s') (e, h) = inl e
IsAtomic-cases c fn s (panic, s') (e, h) = inl e

-- A transaction that returns a value ran its body to that value.
pub in_tx-done :
    {S A : Type 0} (c : Conn) (fn : Body S A) (s : S) (a : A) (s' : S)
    → in_tx c fn s ≡ (ok a, s')
    → fn s ≡ (ok a, s')
in_tx-done c fn s a s' h = (subst (IsAtomic c fn s) h (in_tx-IsAtomic c fn s)).0
