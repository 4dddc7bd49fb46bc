-- ===== src/Store/Tables.antt =====
-- The state of the database: the four tables of assets/migrations, each as the list of its rows in
-- the order of their ids.
pub mod Rows
pub mod Finds
use calendar_digest.Prelude.{ℕ, ◌+◌, List, [], ◌∷◌, ltb, if◌then◌else◌, Option, none, some, Bool}
use calendar_digest.Store.Models.{AppState, DigestSnapshots, NotificationTargets, Recipients}
use calendar_digest.Store.Tx.{Body, Outcome, SqlError, ok, err, no_rows}

pub record Tables : Type 0 where
  pub recipients : List Recipients
  pub targets : List NotificationTargets
  pub snapshots : List DigestSnapshots
  pub app_state : List AppState

abbrev pub empty : Tables
empty = record { recipients = []; targets = []; snapshots = []; app_state = [] }

module _ {A : Type 0} where
  -- One more than the largest id, as SQLite numbers the rows of an INTEGER PRIMARY KEY.
  abbrev pub next_id : (A → ℕ) → List A → ℕ
  next_id id [] = 1
  next_id id (x ∷ xs) = let n = next_id id xs in if ltb (id x) n then n else id x + 1

  -- The row of a `:one` query.
  abbrev pub first_row : (A → Bool) → List A → Option A
  first_row p [] = none
  first_row p (x ∷ xs) = let rest = first_row p xs in if p x then some x else rest

  -- UPDATE of the rows that pass a test, and how many there are.
  abbrev pub update_rows : (A → Bool) → (A → A) → List A → List A
  update_rows p f [] = []
  update_rows p f (x ∷ xs) = (if p x then f x else x) ∷ update_rows p f xs

  abbrev pub count_rows : (A → Bool) → List A → ℕ
  count_rows p [] = 0
  count_rows p (x ∷ xs) = (if p x then 1 else 0) + count_rows p xs

  -- `sql.ErrNoRows` where there is none.
  abbrev pub scan_one : Option A → Outcome A
  scan_one none = err no_rows
  scan_one (some a) = ok a
