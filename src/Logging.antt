-- ===== src/Logging.antt =====
-- internal/logging/logging.go: the handler that stamps records with the trace of their request. The
-- handlers of slog and slogcolor are no code of the repository; `Sink` is what they offer.
use calendar_digest.Prelude.{
  Bool, if◌then◌else◌, List, [], ◌∷◌, ◌++◌, Option, none, some, ◌≡◌, refl, ℕ, ◌⊎◌, inl, inr,
}
use calendar_digest.Prelude.Chars.{Text, codes}
use calendar_digest.Prelude.Words.{is_empty}
use calendar_digest.Prelude.Ints.{ℤ}
use calendar_digest.Config.{Conf}

-- What a context carries: the id of `WithTraceID`, and the one of the request middleware, which is
-- empty where there is none.
pub record Context : Type 0 where
  pub trace : Option Text
  pub request_id : Text

-- A record of the log, by its message and its attributes.
pub record Record : Type 0 where
  pub message : Text
  pub attrs : List (Text × Text)

unfoldable pub with_trace_id : Context → Text → Context
with_trace_id ctx id = record ctx { trace = some id }

unfoldable pub trace_id : Context → Text
trace_id ctx = elim ctx.trace [ none ↦ [] | some id ↦ id ]

-- How a logger is derived, by `WithAttrs` or `WithGroup`.
pub data Derivation : Type 0 where
  attrs : List (Text × Text) → Derivation
  group : Text → Derivation

-- A handler of type `H`: the level that it is enabled from, what it does with a record, and the
-- handlers derived from it.
pub record Sink (H : Type 0) (Out : Type 0) : Type 0 where
  pub json : ℤ → H
  pub colour : ℤ → H
  pub enabled : H → ℤ → Bool
  pub handle : H → Record → Out
  pub with_attrs : H → List (Text × Text) → H
  pub with_group : H → Text → H

-- `SlogHandler`.
pub record SlogHandler (H : Type 0) : Type 0 where
  pub inner : H

module _ {H Out : Type 0} (k : Sink H Out) where
  unfoldable pub enabled : SlogHandler H → ℤ → Bool
  enabled h level = k.enabled h.inner level

  unfoldable pub handle : SlogHandler H → Context → Record → Out
  handle h ctx r =
      let own = trace_id ctx in
      let id = if is_empty own then ctx.request_id else own in
      k.handle h.inner
        (if is_empty id then r else record r { attrs = r.attrs ++ (codes "trace_id", id) ∷ [] })

  unfoldable pub with_attrs : SlogHandler H → List (Text × Text) → SlogHandler H
  with_attrs h xs = record { inner = k.with_attrs h.inner xs }

  unfoldable pub with_group : SlogHandler H → Text → SlogHandler H
  with_group h name = record { inner = k.with_group h.inner name }

  -- `SetupLogger`.
  unfoldable pub setup_logger : Conf → SlogHandler H
  setup_logger c = record {
    inner =
        if c.app_conf.log_json then k.json c.app_conf.log_level else k.colour c.app_conf.log_level;
  }

  abbrev pub derive : SlogHandler H → List Derivation → SlogHandler H
  derive h [] = h
  derive h (attrs xs ∷ ds) = derive (with_attrs h xs) ds
  derive h (group name ∷ ds) = derive (with_group h name) ds

  -- The same derivations of the handler inside.
  abbrev pub derive_inner : H → List Derivation → H
  derive_inner h [] = h
  derive_inner h (attrs xs ∷ ds) = derive_inner (k.with_attrs h xs) ds
  derive_inner h (group name ∷ ds) = derive_inner (k.with_group h name) ds

  derived :
      (h : SlogHandler H) (ds : List Derivation) → (derive h ds).inner ≡ derive_inner h.inner ds
  unfolding with_attrs with_group
  derived h [] = refl
  derived h (attrs xs ∷ ds) = derived (with_attrs h xs) ds
  derived h (group name ∷ ds) = derived (with_group h name) ds

  -- The id that a record is stamped with: the one put on the context, or that of the request.
  abbrev pub IsTrace : Context → Text → Type 0
  IsTrace ctx id = (ctx.trace ≡ some id) ⊎ ((ctx.trace ≡ none) × (ctx.request_id ≡ id))

  -- However a logger was derived, a record that is logged under a context with a trace reaches the
  -- handler inside, derived in the same way, with its own attributes and the trace behind them.
  pub handle-derive :
      (h : SlogHandler H) (ds : List Derivation) (ctx : Context) (r : Record) (c : ℕ) (id : Text)
      → IsTrace ctx (c ∷ id)
      → handle (derive h ds) ctx r
        ≡ k.handle
            (derive_inner h.inner ds)
            (record r { attrs = r.attrs ++ (codes "trace_id", c ∷ id) ∷ [] })
  unfolding handle trace_id
  handle-derive h ds ctx r c id (inl e) = rw (← derived h ds, e) refl
  handle-derive h ds ctx r c id (inr (n, e)) = rw (← derived h ds, n, e) refl

  -- A record without a trace reaches it as it is.
  handle-untraced :
      (h : SlogHandler H) (ds : List Derivation) (ctx : Context) (r : Record)
      → ctx.trace ≡ none
      → ctx.request_id ≡ []
      → handle (derive h ds) ctx r ≡ k.handle (derive_inner h.inner ds) r
  unfolding handle trace_id
  handle-untraced h ds ctx r n e = rw (← derived h ds, n, e) refl
