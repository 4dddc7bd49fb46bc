-- ===== src/Jobs/Verify/Verdict.antt =====
-- How the daily check of internal/jobs/verify.go ends.
use calendar_digest.Prelude.{
  Bool, true, false, not, ◌||◌, ◌&&◌, if◌then◌else◌, List, [], ◌∷◌, any, Option, none, some, ◌≡◌,
  ◌⊎◌, inl, inr, refl, sym, ap, subst, ◌∙◌, arith,
}
use calendar_digest.Prelude.Chars.{Text, text_eq}
use calendar_digest.Store.Models.{Recipients}
use calendar_digest.Store.Tables.{Tables}
use calendar_digest.Store.Flags.{flag_of}
use calendar_digest.Store.Recipients.{list_enabled_recipients}
use calendar_digest.Calendar.Ids.{ids}
use calendar_digest.Calendar.Google.{Fetched, bad_date, access, other}
use calendar_digest.Jobs.Deps.{
  Deps, World, CalendarClient, WorkResult, done, retry, no_credential, not_readable,
  calendar_access, calendar_restored, recovered,
}
use calendar_digest.Jobs.Alert.{
  raise, record_calendar_access, raise_keeps, record_calendar_access_lem, flag_calendar_access,
  flag_ok, flag_failed,
}
use calendar_digest.Jobs.Scan.{enabled}
use calendar_digest.Jobs.Verify.{
  Verified, tried, stopped, and_then, verify_one, verify_ids, verify_all, record_verified,
  verify_for, verify_with, verify,
}

-- The calendar is refused.
abbrev pub is_refused : Fetched (Unit {0}) → Bool
is_refused (Fetched.ok u) = false
is_refused (Fetched.err access) = true
is_refused (Fetched.err bad_date) = false
is_refused (Fetched.err other) = false

-- One of the recipient's calendars is refused.
abbrev pub has_refused : CalendarClient → Recipients → Bool
has_refused client r = any (λ id. is_refused (client.verify_access id)) (ids r.calendar_id)

-- The calendar cannot be tried, for another reason than a refusal.
abbrev pub is_failing : Fetched (Unit {0}) → Bool
is_failing (Fetched.ok u) = false
is_failing (Fetched.err access) = false
is_failing (Fetched.err bad_date) = true
is_failing (Fetched.err other) = true

-- One of the recipient's calendars cannot be tried.
abbrev pub has_failing : CalendarClient → Recipients → Bool
has_failing client r = any (λ id. is_failing (client.verify_access id)) (ids r.calendar_id)

-- The tables are still `t`. Either all calendars were tried, and `b` says whether one was refused, or
-- the check ended early; `f` says which.
abbrev pub Keeps : Tables → Bool → Bool → Verified → Type 0
Keeps t b f (tried c w) = (c ≡ b) × (f ≡ false) × (w.tables ≡ t)
Keeps t b f (stopped w) = (f ≡ true) × (w.tables ≡ t)

and_then-Keeps :
    (t : Tables) (b c f g : Bool) (v : Verified) (next : Bool → World → Verified)
    → Keeps t b f v
    → ((w : World) → w.tables ≡ t → Keeps t c g (next b w))
    → Keeps t c (f || g) (and_then v next)
and_then-Keeps t b c f g (tried x w) next (e, n, h) k =
    subst (λ y. Keeps t c (y || g) (next x w)) (sym n)
      (subst (λ y. Keeps t c g (next y w)) (sym e) (k w h))
and_then-Keeps t b c f g (stopped w) next (n, h) k = (ground arith, h)

verify_one-Keeps :
    (d : Deps) (r : Recipients) (id : Text) (x : Fetched (Unit {0})) (refused : Bool) (w : World)
    → Keeps w.tables (refused || is_refused x) (is_failing x) (verify_one d r id x refused w)
unfolding verify_one
verify_one-Keeps d r id (Fetched.ok u) refused w = (ground arith, refl, refl)
verify_one-Keeps d r id (Fetched.err access) refused w =
    (ground arith, refl, (raise_keeps d calendar_access (not_readable r.name id) w).0)
verify_one-Keeps d r id (Fetched.err bad_date) refused w = (refl, refl)
verify_one-Keeps d r id (Fetched.err other) refused w = (refl, refl)

or_assoc : (a b c : Bool) → ((a || b) || c) ≡ (a || (b || c))
or_assoc a b c = ground arith

or_false : (a : Bool) → (a || false) ≡ a
or_false a = ground arith

-- The rest of a loop, after a step that kept the tables.
rest-Keeps :
    (t : Tables) (w : World) (a b c f : Bool) (v : Verified)
    → w.tables ≡ t
    → Keeps w.tables ((a || b) || c) f v
    → Keeps t (a || (b || c)) f v
rest-Keeps t w a b c f v h k =
    subst (λ x. Keeps x (a || (b || c)) f v) h
      (subst (λ x. Keeps w.tables x f v) (or_assoc a b c) k)

verify_ids-Keeps :
    (d : Deps) (client : CalendarClient) (r : Recipients) (xs : List Text) (refused : Bool)
    (w : World)
    → Keeps w.tables
        (refused || any (λ id. is_refused (client.verify_access id)) xs)
        (any (λ id. is_failing (client.verify_access id)) xs)
        (verify_ids d client r xs refused w)
unfolding verify_ids
verify_ids-Keeps d client r [] refused w = (sym (or_false refused), refl, refl)
verify_ids-Keeps d client r (id ∷ rest) refused w =
    let x = client.verify_access id in
    and_then-Keeps w.tables (refused || is_refused x) _ _ _ (verify_one d r id x refused w) _
      (verify_one-Keeps d r id x refused w)
      (λ v h.
        rest-Keeps w.tables v refused (is_refused x) _ _
          (verify_ids d client r rest (refused || is_refused x) v) h
          (verify_ids-Keeps d client r rest (refused || is_refused x) v))

pub verify_all-Keeps :
    (d : Deps) (client : CalendarClient) (rs : List Recipients) (refused : Bool) (w : World)
    → Keeps w.tables
        (refused || any (has_refused client) rs)
        (any (has_failing client) rs)
        (verify_all d client rs refused w)
unfolding verify_all
verify_all-Keeps d client [] refused w = (sym (or_false refused), refl, refl)
verify_all-Keeps d client (r ∷ rs) refused w =
    let x = has_refused client r in
    and_then-Keeps w.tables (refused || x) _ _ _
      (verify_ids d client r (ids r.calendar_id) refused w) _
      (verify_ids-Keeps d client r (ids r.calendar_id) refused w)
      (λ v h.
        rest-Keeps w.tables v refused x _ _ (verify_all d client rs (refused || x) v) h
          (verify_all-Keeps d client rs (refused || x) v))

-- How the check ends. Without a credential it is done, with the flag at failed. With one, if a calendar
-- of an enabled recipient cannot be tried, it is a retry and the tables are as before; otherwise it
-- is done, and the flag says whether one of them is refused.
abbrev pub IsVerified : Option CalendarClient → World → WorkResult × World → Type 0
IsVerified none w r = (r.0 ≡ done) × (flag_of flag_calendar_access r.1.tables ≡ flag_failed)
IsVerified (some client) w r =
    ((any (has_failing client) (enabled w.tables) ≡ true) × (r.0 ≡ retry) × (r.1.tables ≡ w.tables))
    ⊎ ((any (has_failing client) (enabled w.tables) ≡ false)
        × (r.0 ≡ done)
        × (flag_of flag_calendar_access r.1.tables
            ≡ (if any (has_refused client) (enabled w.tables) then flag_failed else flag_ok)))

kept_tables :
    (d : Deps) (b : Bool) (w : World)
    → (if b then raise d calendar_restored recovered w else w).tables ≡ w.tables
kept_tables d true w = (raise_keeps d calendar_restored recovered w).0
kept_tables d false w = refl

module _ (d : Deps) (begins : d.conn.begins ≡ true) (commits : d.conn.commits ≡ true) where
  recorded_flag :
      (healthy : Bool) (w : World)
      → flag_of flag_calendar_access (record_calendar_access d healthy w).tables
        ≡ (if healthy then flag_ok else flag_failed)
  recorded_flag healthy w =
      let (t, held, e) = record_calendar_access_lem d healthy w begins commits in
      ap (λ (v : World). flag_of flag_calendar_access v.tables) e
      ∙ ap (flag_of flag_calendar_access) (
          kept_tables d (healthy && text_eq (flag_of flag_calendar_access w.tables) flag_failed)
            (record w { tables = t }))
      ∙ held

  record_verified-IsVerified :
      (client : CalendarClient) (w : World) (v : Verified)
      → Keeps w.tables
          (any (has_refused client) (enabled w.tables))
          (any (has_failing client) (enabled w.tables))
          v
      → IsVerified (some client) w (record_verified d v)
  unfolding record_verified
  record_verified-IsVerified client w (tried refused v) (e, n, h) = inr (
    n,
    refl,
    recorded_flag (not refused) v
        ∙ subst
            (λ x.
              (if not refused then flag_ok else flag_failed) ≡ (if x then flag_failed else flag_ok))
            e (ground arith),
  )
  record_verified-IsVerified client w (stopped v) (n, h) = inl (n, refl, h)

  verify_with-IsVerified :
      (calendar : Option CalendarClient) (w : World)
      → IsVerified calendar w (verify_with d calendar w)
  unfolding verify_with verify_for list_enabled_recipients
  verify_with-IsVerified none w = (
    refl,
    ap (flag_of flag_calendar_access)
          (raise_keeps d calendar_access no_credential (record_calendar_access d false w)).0
        ∙ recorded_flag false w,
  )
  verify_with-IsVerified (some client) w =
      record_verified-IsVerified client w (verify_all d client (enabled w.tables) false w)
        (verify_all-Keeps d client (enabled w.tables) false w)

  -- With a database whose transactions begin and commit: a check without a credential is done and
  -- leaves the flag at failed. With one it is a retry that leaves the tables as they were if some
  -- calendar of an enabled recipient fails with another error than a refusal; otherwise it is done
  -- and leaves the flag at failed if one of these calendars is refused, and at ok if none is.
  pub verify-IsVerified : (w : World) → IsVerified d.calendar w (verify d w)
  unfolding verify
  verify-IsVerified w = verify_with-IsVerified d.calendar w
