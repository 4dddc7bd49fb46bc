-- ===== src/Boot/Handles.antt =====
-- The handles of a start: what the migrations and the pool leave open.
use calendar_digest.Prelude.{
  ℕ, zero, suc, ◌+◌, ◌&&◌, not, Bool, true, false, List, [], ◌∷◌, some, if◌then◌else◌, ◌≡◌, refl,
  inl, inr, Bool-cases,
}
use calendar_digest.Prelude.Chars.{Text, codes, text_eq}
use calendar_digest.Prelude.Words.{is_empty}
use calendar_digest.Boot.Effects.{
  close_handle, open_handle, not_opened, Result, ok, err, crash, ◌>>◌, emit, fail,
}
use calendar_digest.Boot.Database.{
  Disk, dsn, wait, make_parent, prepare_migration_db, run_migrations, migrate_with, goose_up,
  migrate_up, new_database_pool, migration_handle, pool_handle, ping_attempts,
}
use calendar_digest.Boot.Orderly.{
  Held, follow, follow_one, Ends, Lands, Any, then-Ends, deferring-Ends,
}

-- Under a live context: the open handles, whether the schema is migrated, and whether River runs.
abbrev pub held : List ℕ → Bool → Bool → Held
held hs migrated running = record {
  handles = hs;
  migrated = migrated;
  running = running;
  live = true;
}

abbrev pub IsHandle : ℕ → ℕ → Type 0
IsHandle n k = k ≡ n

module _ (d : Disk) where
  abbrev waiting : Held
  waiting = held (migration_handle ∷ []) false false

  abbrev closed : Held
  closed = held [] false false

  abbrev Prepared : Result ℕ → Held → Type 0
  Prepared = Lands (IsHandle migration_handle) waiting closed

  wait-Ends :
      (left a : ℕ)
      → Ends
          (wait d left a)
          waiting
          (Lands (IsHandle migration_handle) waiting (held [] false false))
  unfolding wait follow follow_one
  wait-Ends zero a = (held [] false false, refl, refl)
  wait-Ends (suc left) a = elim (Bool-cases (d.pings a)) [
    | inl hit ↦ rw hit (waiting, refl, (refl, refl))
    | inr miss ↦ elim (Bool-cases (d.is_done a)) [
      | inl over ↦ rw (miss, over) (held [] false false, refl, refl)
      | inr alive ↦ rw (miss, alive) (wait-Ends left (a + 1))
    ]
  ]

  make_parent-Ends : (dir : Text) (h : Held) → Ends (make_parent d dir) h (Lands Any h h)
  unfolding make_parent follow follow_one
  make_parent-Ends dir h = elim (Bool-cases (not (is_empty dir) && not (text_eq dir (codes ".")))) [
    | inr here ↦ rw here (h, refl, (tt, refl))
    | inl there ↦ elim (Bool-cases (d.makes_dir dir)) [
      | inl made ↦ rw (there, made) (h, refl, (tt, refl))
      | inr refused ↦ rw (there, refused) (h, refl, refl)
    ]
  ]

  open_and_wait-Ends :
      (name : Text)
      → Ends
          (if d.opens (dsn name)
            then emit (open_handle migration_handle) >> wait d ping_attempts 1
            else fail not_opened)
          closed
          Prepared
  unfolding follow follow_one
  open_and_wait-Ends name = elim (Bool-cases (d.opens (dsn name))) [
    | inl e ↦ rw e (wait-Ends ping_attempts 1)
    | inr e ↦ rw e (closed, refl, refl)
  ]

  prepare-Ends : (name : Text) → Ends (prepare_migration_db d name) closed Prepared
  unfolding prepare_migration_db
  prepare-Ends name =
      then-Ends (make_parent d (d.dir name)) _ closed Any closed closed Prepared
        (make_parent-Ends (d.dir name) closed) (λ u v. open_and_wait-Ends name) (λ e. refl)

  run_migrations-Ends :
      Ends
        (run_migrations d (goose_up d migration_handle))
        waiting
        (Lands Any (held (migration_handle ∷ []) true false) waiting)
  unfolding run_migrations goose_up follow follow_one
  run_migrations-Ends = elim (Bool-cases d.sets_dialect) [
    | inr e ↦ rw e (waiting, refl, refl)
    | inl e ↦ elim (Bool-cases d.migrates) [
      | inl m ↦ rw (e, m) (held (migration_handle ∷ []) true false, refl, (tt, refl))
      | inr m ↦ rw (e, m) (waiting, refl, refl)
    ]
  ]

  close_behind :
      (r : Result (Unit {0})) (h : Held)
      → Lands Any (held (migration_handle ∷ []) true false) waiting r h
      → (h' : Held) × (follow (close_handle migration_handle ∷ []) h ≡ some h')
        × Lands Any (held [] true false) closed r h'
  unfolding follow follow_one
  close_behind (ok u) h (v, e) = rw e (held [] true false, refl, (tt, refl))
  close_behind (err x) h e = rw e (closed, refl, refl)
  close_behind crash h e = absurd e

  pub migrate_up-Ends :
      (name : Text) → Ends (migrate_up d name) closed (Lands Any (held [] true false) closed)
  unfolding migrate_up migrate_with
  migrate_up-Ends name =
      then-Ends (prepare_migration_db d name) _ closed (IsHandle migration_handle) waiting closed
        (Lands Any (held [] true false) closed) (prepare-Ends name)
        (λ db same. rw same (
          deferring-Ends (close_handle migration_handle ∷ []) _ waiting _ _ run_migrations-Ends
            close_behind))
        (λ e. refl)

  pub new_database_pool-Ends :
      (name : Text)
      → Ends
          (new_database_pool d name)
          (held [] true false)
          (Lands (IsHandle pool_handle) (held (pool_handle ∷ []) true false) (held [] true false))
  unfolding new_database_pool follow follow_one
  new_database_pool-Ends name = elim (Bool-cases (d.opens (dsn name))) [
    | inr e ↦ rw e (held [] true false, refl, refl)
    | inl e ↦ elim (Bool-cases d.pool_pings) [
      | inl p ↦ rw (e, p) (held (pool_handle ∷ []) true false, refl, (refl, refl))
      | inr p ↦ rw (e, p) (held [] true false, refl, refl)
    ]
  ]
