-- ===== src/Store/Snapshots/Notified.antt =====
-- `MarkNotified`: the first caller wins, and the later ones change nothing.
use calendar_digest.Prelude.{
  ℕ, ◌==◌, Bool, true, false, List, [], ◌∷◌, none, some, any, ◌≡◌, refl, arith,
}
use calendar_digest.Prelude.Chars.{Text}
use calendar_digest.Store.Models.{DigestSnapshots}
use calendar_digest.Store.Tables.{Tables, first_row, update_rows, count_rows}
use calendar_digest.Store.Tables.Rows.{Distinct, count_rows-zero, update_rows-none}
use calendar_digest.Store.Tx.{ok}
use calendar_digest.Store.Snapshots.{is_untold, told, mark_notified}
use calendar_digest.Store.Snapshots.Consistent.{same_id, IsConsistent}

abbrev pub has_id : ℕ → DigestSnapshots → Bool
has_id id s = s.id == id

-- A call that finds no row still to be told.
mark_nobody :
    (id : ℕ) (at : Text) (t : Tables)
    → any (is_untold id) t.snapshots ≡ false
    → mark_notified id at t ≡ (ok false, t)
unfolding mark_notified
mark_nobody id at t h = rw (
  count_rows-zero (is_untold id) t.snapshots h,
  update_rows-none (is_untold id) (told at) t.snapshots h,
)

rest_told :
    (id : ℕ) (x : DigestSnapshots) (xs : List DigestSnapshots)
    → any (same_id x) xs ≡ false
    → x.id ≡ id
    → any (is_untold id) xs ≡ false
rest_told id x [] d e = refl
rest_told id x (y ∷ ys) d e = ground (arith, rest_told id x ys)

untold_count :
    (id : ℕ) (s : DigestSnapshots) (xs : List DigestSnapshots)
    → Distinct same_id xs
    → first_row (has_id id) xs ≡ some s
    → s.notified_at ≡ none
    → count_rows (is_untold id) xs ≡ 1
untold_count id s [] d h n = cc
untold_count id s (x ∷ xs) (dx, d) h n =
    ground (arith, rest_told id x xs dx, count_rows-zero (is_untold id) xs, untold_count id s xs d)

told_nobody :
    (id : ℕ) (at : Text) (xs : List DigestSnapshots)
    → any (is_untold id) (update_rows (is_untold id) (told at) xs) ≡ false
told_nobody id at [] = refl
told_nobody id at (x ∷ xs) = ground (arith, told_nobody id at xs)

no_untold :
    (id : ℕ) (s : DigestSnapshots) (at : Text) (xs : List DigestSnapshots)
    → Distinct same_id xs
    → first_row (has_id id) xs ≡ some s
    → s.notified_at ≡ some at
    → any (is_untold id) xs ≡ false
no_untold id s at [] d h n = refl
no_untold id s at (x ∷ xs) (dx, d) h n =
    ground (arith, rest_told id x xs dx, no_untold id s at xs d)

told_row :
    (id : ℕ) (s : DigestSnapshots) (at : Text) (xs : List DigestSnapshots)
    → first_row (has_id id) xs ≡ some s
    → s.notified_at ≡ none
    → first_row (has_id id) (update_rows (is_untold id) (told at) xs) ≡ some (told at s)
told_row id s at [] h n = cc
told_row id s at (x ∷ xs) h n = ground (arith, told_row id s at xs)

mark_first :
    (id : ℕ) (at : Text) (t : Tables) (s : DigestSnapshots)
    → IsConsistent t
    → first_row (has_id id) t.snapshots ≡ some s
    → s.notified_at ≡ none
    → mark_notified id at t
      ≡ (ok true, record t { snapshots = update_rows (is_untold id) (told at) t.snapshots })
unfolding mark_notified
mark_first id at t s c h n = rw (untold_count id s t.snapshots c.ids h n)

-- With distinct ids, on a snapshot that nobody was told of: the first call of `MarkNotified`
-- reports true and records its time, and a later call, at any time, reports false and leaves every
-- table as the first call left it.
pub mark_notified_once :
    (id : ℕ) (at later : Text) (t : Tables) (s : DigestSnapshots)
    → IsConsistent t
    → first_row (has_id id) t.snapshots ≡ some s
    → s.notified_at ≡ none
    → (t' : Tables) × (mark_notified id at t ≡ (ok true, t'))
      × (first_row (has_id id) t'.snapshots ≡ some (told at s))
      × (mark_notified id later t' ≡ (ok false, t'))
mark_notified_once id at later t s c h n =
    let t' = record t { snapshots = update_rows (is_untold id) (told at) t.snapshots } in
    (
      t',
      mark_first id at t s c h n,
      told_row id s at t.snapshots h n,
      mark_nobody id later t' (told_nobody id at t.snapshots),
    )

-- On a snapshot that somebody was told of, `MarkNotified` reports false and
-- changes nothing.
mark_notified_told :
    (id : ℕ) (at earlier : Text) (t : Tables) (s : DigestSnapshots)
    → IsConsistent t
    → first_row (has_id id) t.snapshots ≡ some s
    → s.notified_at ≡ some earlier
    → mark_notified id at t ≡ (ok false, t)
mark_notified_told id at earlier t s c h n =
    mark_nobody id at t (no_untold id s earlier t.snapshots c.ids h n)
