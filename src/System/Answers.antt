-- ===== src/System/Answers.antt =====
-- How a handler that loads a row or queries leaves the database sound.
use calendar_digest.Prelude.{inl, inr, Option-cases}
use calendar_digest.Prelude.Chars.{Text}
use calendar_digest.Prelude.Ints.{pos, negsuc, parse_int}
use calendar_digest.Store.Models.{Recipients, NotificationTargets}
use calendar_digest.Store.Tables.{Tables}
use calendar_digest.Store.Tx.{
  Outcome, ok, err, panic, no_rows, constraint, begin_failed, commit_failed, enqueue_failed,
}
use calendar_digest.Ui.Pages.{
  Pages, Site, Handler, loaded, query_or, with_tables, recipient_from_path, target_from_path,
}
use calendar_digest.System.Sound.{IsSound}

-- The site is sound if its tables are.
abbrev pub IsSoundSite : Pages → Site → Type 0
IsSoundSite p s = IsSound p.load_location s.world.tables

-- A handler leaves a sound site sound.
abbrev pub KeepsSound : Pages → Handler → Type 0
KeepsSound p f = (s : Site) → IsSoundSite p s → IsSoundSite p (f s).1

module _ (p : Pages) where
  pub query_or-IsSoundSite :
      {A : Type 0} (r : Outcome A × Tables) (s : Site) (f : A → Handler)
      → IsSound p.load_location r.1
      → ((a : A) → KeepsSound p (f a))
      → IsSoundSite p (query_or r s f).1
  query_or-IsSoundSite (ok a, t) s f h k = k a (with_tables s t) h
  query_or-IsSoundSite (err e, t) s f h k = h
  query_or-IsSoundSite (panic, t) s f h k = h

  pub loaded-KeepsSound :
      {A : Type 0} (o : Outcome A) (f : A → Handler)
      → ((a : A) → KeepsSound p (f a))
      → KeepsSound p (loaded o f)
  loaded-KeepsSound (ok a) f k s h = k a s h
  loaded-KeepsSound (err no_rows) f k s h = h
  loaded-KeepsSound (err constraint) f k s h = h
  loaded-KeepsSound (err begin_failed) f k s h = h
  loaded-KeepsSound (err commit_failed) f k s h = h
  loaded-KeepsSound (err enqueue_failed) f k s h = h
  loaded-KeepsSound panic f k s h = h

  pub recipient_from_path-KeepsSound :
      (id : Text) (f : Recipients → Handler)
      → ((r : Recipients) → KeepsSound p (f r))
      → KeepsSound p (recipient_from_path id f)
  unfolding recipient_from_path
  recipient_from_path-KeepsSound id f k s h = elim (Option-cases (parse_int id)) [
    | inl e ↦ rw (e, recipient_from_path) h
    | inr (pos n, e) ↦ rw (e, recipient_from_path) (loaded-KeepsSound _ f k s h)
    | inr (negsuc n, e) ↦ rw (e, recipient_from_path) h
  ]

  pub target_from_path-KeepsSound :
      (id : Text) (f : NotificationTargets → Handler)
      → ((r : NotificationTargets) → KeepsSound p (f r))
      → KeepsSound p (target_from_path id f)
  unfolding target_from_path
  target_from_path-KeepsSound id f k s h = elim (Option-cases (parse_int id)) [
    | inl e ↦ rw (e, target_from_path) h
    | inr (pos n, e) ↦ rw (e, target_from_path) (loaded-KeepsSound _ f k s h)
    | inr (negsuc n, e) ↦ rw (e, target_from_path) h
  ]
