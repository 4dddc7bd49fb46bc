-- ===== src/Store/Flags.antt =====
-- internal/store/app_state.sql.go and flags.go: the app_state table, by key.
use calendar_digest.Prelude.{
  Bool, false, if◌then◌else◌, List, [], ◌∷◌, Option, none, some, ◌≡◌, ap, subst, arith, Bool-cases,
  inl, inr,
}
use calendar_digest.Prelude.Chars.{Text, text_eq, text_eq_refl, text_eq_sound}
use calendar_digest.Store.Models.{AppState}
use calendar_digest.Store.Tables.{Tables, first_row, scan_one}
use calendar_digest.Store.Tx.{
  Body, Outcome, ok, err, panic, no_rows, pure, Conn, ensure_tx, ◌>>=◌, ◌>>◌,
}

abbrev pub has_name : Text → AppState → Bool
has_name key a = text_eq a.key key

abbrev value_of : Outcome AppState → Outcome Text
value_of (ok a) = ok a.value
value_of (err e) = err e
value_of panic = panic

unfoldable pub get_app_state : Text → Body Tables Text
get_app_state key t = (value_of (scan_one (first_row (has_name key) t.app_state)), t)

-- ON CONFLICT (key) DO UPDATE: the row of the key, or a new one.
put_state : AppState → List AppState → List AppState
put_state a [] = a ∷ []
put_state a (x ∷ xs) = let rest = put_state a xs in if has_name a.key x then a ∷ xs else x ∷ rest

unfoldable pub set_app_state : Text → Text → Text → Body Tables (Unit {0})
unfolding put_state
set_app_state key value updated_at t = (
  ok tt,
  record t {
    app_state =
        put_state (record { key = key; value = value; updated_at = updated_at }) t.app_state;
  },
)

-- The value before, or the empty text where the key was never written; any other error ends it.
missing_is_empty : Outcome Text × Tables → Outcome Text × Tables
missing_is_empty (err no_rows, t) = (ok [], t)
missing_is_empty (r, t) = (r, t)

unfoldable pub set_flag_body : Text → Text → Text → Body Tables Text
unfolding missing_is_empty
set_flag_body key value at = do
  previous ← (λ t. missing_is_empty (get_app_state key t))
  set_app_state key value at
  pure previous

-- `at` is the formatted time.
unfoldable pub set_flag : Bool → Conn → Text → Text → Text → Body Tables Text
set_flag bound c key value at = ensure_tx bound c (set_flag_body key value at)

put-same :
    (a : AppState) (xs : List AppState) → first_row (has_name a.key) (put_state a xs) ≡ some a
unfolding put_state
put-same a [] = ground (arith, text_eq_refl a.key)
put-same a (x ∷ xs) = ground (arith, text_eq_refl a.key, put-same a xs)

put-other :
    (a : AppState) (key : Text) (xs : List AppState)
    → text_eq a.key key ≡ false
    → first_row (has_name key) (put_state a xs) ≡ first_row (has_name key) xs
unfolding put_state
put-other a key [] h = ground arith
put-other a key (x ∷ xs) h = ground (arith, text_eq_sound x.key a.key, put-other a key xs h)

abbrev value_or_empty : Option AppState → Text
value_or_empty none = []
value_or_empty (some a) = a.value

-- What a flag holds; the empty text before it is first written.
abbrev pub flag_of : Text → Tables → Text
flag_of key t = value_or_empty (first_row (has_name key) t.app_state)

flag_of-put :
    (a : AppState) (other : Text) (t : Tables)
    → flag_of other (record t { app_state = put_state a t.app_state })
      ≡ (if text_eq a.key other then a.value else flag_of other t)
flag_of-put a other t = elim (Bool-cases (text_eq a.key other)) [
  | inl e ↦ rw e (
      subst (λ k. flag_of k (record t { app_state = put_state a t.app_state }) ≡ a.value)
        (text_eq_sound a.key other e) (ap value_or_empty (put-same a t.app_state)))
  | inr e ↦ rw e (ap value_or_empty (put-other a other t.app_state e))
]

-- `SetFlag` returns what the flag held, the empty text if it was never written; then the flag holds
-- the new value, and every other flag what it held.
pub set_flag_body_lem :
    (key value at other : Text) (t : Tables)
    → (t' : Tables) × (set_flag_body key value at t ≡ (ok (flag_of key t), t'))
      × (flag_of other t' ≡ (if text_eq key other then value else flag_of other t))
unfolding set_flag_body get_app_state set_app_state
set_flag_body_lem key value at other t =
    let a : AppState = record { key = key; value = value; updated_at = at } in
    (record t { app_state = put_state a t.app_state }, ground arith, flag_of-put a other t)

-- Setting a flag changes no other table.
pub set_flag_body-keeps :
    (key value at : Text) (t : Tables)
    → (set_flag_body key value at t).1
      ≡ record t { app_state = (set_flag_body key value at t).1.app_state }
unfolding set_flag_body get_app_state set_app_state
set_flag_body-keeps key value at t = ground arith
