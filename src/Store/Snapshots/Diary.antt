-- ===== src/Store/Snapshots/Diary.antt =====
-- The table digest_snapshots as what it stands for: a map from a recipient's date to its snapshot,
-- which forgets the order of the rows. Every query refines its operation on the map.
use calendar_digest.Prelude.{
  ℕ, ◌==◌, true, false, not, ◌&&◌, if◌then◌else◌, List, [], ◌∷◌, ◌++◌, any, any-elim, keep_if,
  Option, none, some, ◌≡◌, refl, ap, ◌∙◌, subst, ◌⊎◌, inl, inr, arith, Bool-cases,
}
use mathlib.Core.Option
use calendar_digest.Prelude.Chars.{Text, text_eq, text_eq_refl, text_eq_sound, text_lt}
use calendar_digest.Store.Models.{DigestSnapshots}
use calendar_digest.Store.Tables.{Tables, first_row, next_id}
use calendar_digest.Store.Tables.Rows.{Distinct-first_row, first_row-any, first_row-none}
use calendar_digest.Store.Tables.Finds.{
  first_row-update, first_row-keep_if, first_row-snoc, first_row-skip,
}
use calendar_digest.Store.Snapshots.{
  has_key, has_token, refreshed, is_untold, told, is_since, insert_snapshot_if_absent,
  replace_snapshot_events, set_notified_at, purge_snapshots_before,
}
use calendar_digest.Store.Recipients.{delete_recipient}
use calendar_digest.Store.Snapshots.Consistent.{IsConsistent, same_key, has_recipient}

abbrev pub Diary : Type 0
Diary = ℕ → Text → Option DigestSnapshots

-- What the table stands for.
abbrev pub diary : Tables → Diary
diary t id date = first_row (has_key id date) t.snapshots

-- Two maps that agree everywhere.
abbrev pub Agree : Diary → Diary → Type 0
Agree m m' = (id : ℕ) (date : Text) → m' id date ≡ m id date

-- The queries that write snapshots.
pub data Write : Type 0 where
  insert : ℕ → Text → Text → Text → Text → Write
  replace : Text → Text → ℕ → Text → Write
  tell : Text → ℕ → Write
  forget : Text → Write
  drop : ℕ → Write

unfoldable pub perform : Write → Tables → Tables
perform (insert id date token events at) t = (insert_snapshot_if_absent id date token events at t).1
perform (replace events at id date) t = (replace_snapshot_events events at id date t).1
perform (tell at id) t = (set_notified_at at id t).1
perform (forget date) t = (purge_snapshots_before date t).1
perform (drop id) t = (delete_recipient id t).1

-- A token that the map knows.
abbrev pub IsTaken : Text → Diary → Type 0
IsTaken token m =
    (id : ℕ) × (date : Text) × (s : DigestSnapshots) × (m id date ≡ some s)
    × (has_token token s ≡ true)

-- The map with a new entry, which holds what was given and was not told.
abbrev pub Adds : ℕ → Text → Text → Text → Text → Diary → Diary → Type 0
Adds id date token events at m m' =
    (m id date ≡ none)
    × ((s : DigestSnapshots) × (s.token ≡ token)
        × (s.events ≡ events)
        × (s.created_at ≡ at)
        × (s.notified_at ≡ none)
        × ((i : ℕ) (d : Text) → m' i d ≡ (if (id == i) && text_eq date d then some s else m i d)))

-- What each query does to the map. An insert adds an entry, or it finds one, a taken token or no
-- recipient, and adds nothing.
abbrev pub Writes : Tables → Write → Diary → Diary → Type 0
Writes t (insert id date token events at) m m' =
    Adds id date token events at m m'
    ⊎ (Agree m m'
        × (((s : DigestSnapshots) × (m id date ≡ some s))
            ⊎ (IsTaken token m ⊎ (has_recipient t id ≡ false))))
Writes t (replace events at id date) m m' =
    (i : ℕ) (d : Text)
    → m' i d ≡ Option.map (λ s. if has_key id date s then refreshed events at s else s) (m i d)
Writes t (tell at id) m m' =
    (i : ℕ) (d : Text) → m' i d ≡ Option.map (λ s. if is_untold id s then told at s else s) (m i d)
Writes t (forget date) m m' = (i : ℕ) (d : Text) → m' i d ≡ (if text_lt d date then none else m i d)
Writes t (drop id) m m' = (i : ℕ) (d : Text) → m' i d ≡ (if i == id then none else m i d)

has_key-date : (i : ℕ) (d : Text) (x : DigestSnapshots) → has_key i d x ≡ true → x.digest_date ≡ d
has_key-date i d x h = text_eq_sound x.digest_date d (ground arith)

has_key-owner : (i : ℕ) (d : Text) (x : DigestSnapshots) → has_key i d x ≡ true → x.recipient_id ≡ i
has_key-owner i d x h = ground arith

added :
    (xs : List DigestSnapshots) (y : DigestSnapshots) (i : ℕ) (d : Text)
    → any (has_key y.recipient_id y.digest_date) xs ≡ false
    → first_row (has_key i d) (xs ++ y ∷ [])
      ≡ (if has_key i d y then some y else first_row (has_key i d) xs)
added xs y i d h = elim (Bool-cases (has_key i d y)) [
  | inr e ↦ rw e (first_row-skip (has_key i d) xs y e)
  | inl e ↦
      let absent : any (has_key i d) xs ≡ false =
        subst (λ j. any (has_key j d) xs ≡ false) (has_key-owner i d y e)
          (subst (λ e'. any (has_key y.recipient_id e') xs ≡ false) (has_key-date i d y e) h) in
      first_row-snoc (has_key i d) xs y absent ∙ rw e refl
]

insert-Writes :
    (id : ℕ) (date token events at : Text) (t : Tables)
    → IsConsistent t
    → Writes t
        (insert id date token events at)
        (diary t)
        (diary (insert_snapshot_if_absent id date token events at t).1)
unfolding insert_snapshot_if_absent
insert-Writes id date token events at t c = elim (Bool-cases (any (has_key id date) t.snapshots)) [
  | inl old ↦
      let (s, e, p) = first_row-any (has_key id date) t.snapshots old in
      inr (rw old (λ i d. refl), inl (s, e))
  | inr new ↦ elim (Bool-cases (any (has_token token) t.snapshots)) [
    | inl taken ↦
        let (x, m, known) = any-elim (has_token token) t.snapshots taken in
        inr (
          rw (new, taken) (λ i d. refl),
          inr (
              inl (
                x.recipient_id,
                x.digest_date,
                x,
                Distinct-first_row same_key x t.snapshots
                    (ground (arith, text_eq_refl x.digest_date)) c.keys m,
                known,
              )),
        )
    | inr free ↦ elim (Bool-cases (has_recipient t id)) [
      | inr nobody ↦ inr (rw (new, free, nobody) (λ i d. refl), inr (inr nobody))
      | inl owner ↦
          let row : DigestSnapshots = record {
            id = next_id (λ (s : DigestSnapshots). s.id) t.snapshots;
            recipient_id = id;
            digest_date = date;
            token = token;
            events = events;
            created_at = at;
            notified_at = none;
          } in
          rw (new, free, owner)
            (inl (
              first_row-none (has_key id date) t.snapshots new,
              (row, refl, refl, refl, refl, λ i d. added t.snapshots row i d new),
            ))
    ]
  ]
]

kept_since :
    (date : Text) (i : ℕ) (d : Text) (xs : List DigestSnapshots)
    → first_row (has_key i d) (keep_if (is_since date) xs)
      ≡ (if text_lt d date then none else first_row (has_key i d) xs)
kept_since date i d xs =
    let e =
      first_row-keep_if (has_key i d) (is_since date) (not (text_lt d date)) xs
        (λ x h. ap (λ z. not (text_lt z date)) (has_key-date i d x h)) in
    elim (Bool-cases (text_lt d date)) [
      | inl b ↦ rw b (e ∙ rw b refl)
      | inr b ↦ rw b (e ∙ rw b refl)
    ]

kept_others :
    (id i : ℕ) (d : Text) (xs : List DigestSnapshots)
    → first_row (has_key i d) (keep_if (λ (s : DigestSnapshots). not (s.recipient_id == id)) xs)
      ≡ (if i == id then none else first_row (has_key i d) xs)
kept_others id i d xs =
    let e =
      first_row-keep_if (has_key i d) (λ (s : DigestSnapshots). not (s.recipient_id == id))
        (not (i == id)) xs (λ x h. ap (λ z. not (z == id)) (has_key-owner i d x h)) in
    elim (Bool-cases (i == id)) [ inl b ↦ rw b (e ∙ rw b refl) | inr b ↦ rw b (e ∙ rw b refl) ]

-- Every query that writes snapshots does to the table what its operation does to the map, in a
-- consistent database.
pub perform-Writes :
    (q : Write) (t : Tables) → IsConsistent t → Writes t q (diary t) (diary (perform q t))
unfolding perform replace_snapshot_events set_notified_at purge_snapshots_before delete_recipient
perform-Writes (insert id date token events at) t c = insert-Writes id date token events at t c
perform-Writes (replace events at id date) t c = λ i d.
    first_row-update (has_key i d) (has_key id date) (refreshed events at) t.snapshots (λ x. refl)
perform-Writes (tell at id) t c =
    λ i d. first_row-update (has_key i d) (is_untold id) (told at) t.snapshots (λ x. refl)
perform-Writes (forget date) t c = λ i d. kept_since date i d t.snapshots
perform-Writes (drop id) t c = λ i d. kept_others id i d t.snapshots
