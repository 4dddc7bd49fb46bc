-- ===== src/Boot/Orderly.antt =====
-- The order in which the process may open, use and close what it holds, stated without the code, and
-- rules for actions that keep to it.
use calendar_digest.Prelude.{
  ℕ, ◌==◌, Bool, true, false, not, ◌&&◌, any, if◌then◌else◌, keep_if, List, [], ◌∷◌, ◌++◌, Option,
  none, some, ◌≡◌, refl, sym, subst, ◌∙◌, Option-cases, inl, inr,
}
use calendar_digest.Boot.Effects.{
  Effect, make_context, cancel_context, make_dir, open_handle, close_handle, ping, migrate,
  migrate_river, start_river, stop_river, sleep, start_dashboard, serve_http, BootError, Result, ok,
  err, crash, Act, ◌>>=◌, deferring,
}

-- The open handles; whether the schema is migrated, River runs, and the context is live.
pub record Held : Type 0 where
  pub handles : List ℕ
  pub migrated : Bool
  pub running : Bool
  pub live : Bool

abbrev pub has : ℕ → Held → Bool
has n h = any (λ k. k == n) h.handles

abbrev allow : Bool → Held → Option Held
allow b h = if b then some h else none

-- A handle is opened once, used only while it is open, and not closed while River runs. River's
-- migrations and River itself come after the migrations of the program; River starts and stops under
-- a live context, and requests are served while it runs.
unfoldable pub follow_one : Effect → Held → Option Held
follow_one make_context h = allow (not h.live) (record h { live = true })
follow_one cancel_context h = allow h.live (record h { live = false })
follow_one (make_dir dir) h = some h
follow_one sleep h = some h
follow_one (open_handle n) h = allow (not (has n h)) (record h { handles = n ∷ h.handles })
follow_one (ping n) h = allow (has n h) h
follow_one (migrate n) h = allow (has n h) (record h { migrated = true })
follow_one (migrate_river n) h = allow (has n h && h.migrated) h
follow_one start_dashboard h = allow h.live h
follow_one (start_river n) h =
    allow (has n h && (h.migrated && (h.live && not h.running))) (record h { running = true })
follow_one (stop_river n) h =
    allow (has n h && (h.live && h.running)) (record h { running = false })
follow_one serve_http h = allow h.running h
follow_one (close_handle n) h =
    allow (has n h && not h.running) (record h { handles = keep_if (λ k. not (k == n)) h.handles })

abbrev pub and_then : Option Held → (Held → Option Held) → Option Held
and_then none f = none
and_then (some h) f = f h

unfoldable pub follow : List Effect → Held → Option Held
follow [] h = some h
follow (e ∷ es) h = and_then (follow_one e h) (follow es)

follow-append :
    (xs ys : List Effect) (h : Held) → follow (xs ++ ys) h ≡ and_then (follow xs h) (follow ys)
unfolding follow
follow-append [] ys h = refl
follow-append (x ∷ xs) ys h = elim (Option-cases (follow_one x h)) [
  | inl e ↦ rw e refl
  | inr (h', e) ↦ rw e (follow-append xs ys h')
]

pub follow_both :
    (xs ys : List Effect) (h h' : Held) → follow xs h ≡ some h' → follow (xs ++ ys) h ≡ follow ys h'
follow_both xs ys h h' e = rw (follow-append xs ys h, e) refl

-- The effects keep to the order, and what is held then satisfies `P` with the result.
abbrev pub Ends : {A : Type 0} → Act A → Held → (Result A → Held → Type 0) → Type 0
Ends m h P = (h' : Held) × (follow m.1 h ≡ some h') × P m.0 h'

-- A success leads to one state, an error to another, and there is no panic.
abbrev pub Lands : {A : Type 0} → (A → Type 0) → Held → Held → Result A → Held → Type 0
Lands V good bad (ok a) h = V a × (h ≡ good)
Lands V good bad (err e) h = h ≡ bad
Lands V good bad crash h = ⊥

abbrev pub Any : {A : Type 0} → A → Type 0
Any a = Unit

-- Every end leads to the same state.
abbrev pub Leaves : {A : Type 0} → Held → Result A → Held → Type 0
Leaves s r h = h ≡ s

pub bind-Ends :
    {A B : Type 0} (m : Act A) (f : A → Act B) (h : Held) (P : Result A → Held → Type 0)
    (Q : Result B → Held → Type 0)
    → Ends m h P
    → ((a : A) (h' : Held) → P (ok a) h' → Ends (f a) h' Q)
    → ((e : BootError) (h' : Held) → P (err e) h' → Q (err e) h')
    → ((h' : Held) → P crash h' → Q crash h')
    → Ends (m >>= f) h Q
bind-Ends (ok a, es) f h P Q (h', e, p) next error panic =
    let (h'', e', q) = next a h' p in (h'', follow_both es (f a).1 h h' e ∙ e', q)
bind-Ends (err x, es) f h P Q (h', e, p) next error panic = (h', e, error x h' p)
bind-Ends (crash, es) f h P Q (h', e, p) next error panic = (h', e, panic h' p)

pub deferring-Ends :
    {A : Type 0} (after : List Effect) (m : Act A) (h : Held) (P Q : Result A → Held → Type 0)
    → Ends m h P
    → ((r : Result A) (h' : Held) → P r h' → (h'' : Held) × (follow after h' ≡ some h'') × Q r h'')
    → Ends (deferring after m) h Q
deferring-Ends after m h P Q (h', e, p) last =
    let (h'', e', q) = last m.0 h' p in (h'', follow_both m.1 after h h' e ∙ e', q)

-- The bind of an action that lands.
pub then-Ends :
    {A B : Type 0} (m : Act A) (f : A → Act B) (h : Held) (V : A → Type 0) (good bad : Held)
    (Q : Result B → Held → Type 0)
    → Ends m h (Lands V good bad)
    → ((a : A) → V a → Ends (f a) good Q)
    → ((e : BootError) → Q (err e) bad)
    → Ends (m >>= f) h Q
then-Ends m f h V good bad Q landed next error =
    bind-Ends m f h (Lands V good bad) Q landed
      (λ a h' p. subst (λ s. Ends (f a) s Q) (sym p.1) (next a p.0))
      (λ e h' p. subst (Q (err e)) (sym p) (error e)) (λ h' p. absurd p)

pub at-Ends :
    {A : Type 0} (m : Act A) (h s : Held) (P : Result A → Held → Type 0)
    → h ≡ s
    → Ends m s P
    → Ends m h P
at-Ends m h s P e p = subst (λ x. Ends m x P) (sym e) p
