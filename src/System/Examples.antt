-- ===== src/System/Examples.antt =====
-- An example run: the first recipient is added.
use calendar_digest.Prelude.{[], some, ◌≡◌}
use calendar_digest.Prelude.Chars.{codes}
use calendar_digest.Clock.Zone.{Time, utc}
use calendar_digest.Store.Examples.{stored, stored-IsConsistent}
use calendar_digest.Store.Snapshots.Diary.{Writes, insert, diary, perform, perform-Writes}
use calendar_digest.Digest.Due.{due}
use calendar_digest.Jobs.Scan.{enabled}
use calendar_digest.Ui.Pages.{Site}
use calendar_digest.Ui.Serve.{post_recipient, serve}
use calendar_digest.Ui.Examples.{pages, bo}
use calendar_digest.System.Sound.{IsSound}
use calendar_digest.System.Runs.{
  start, Reachable, here, next, request, Reachable-IsSound, due-Reachable,
}

abbrev added : Site
added = (serve pages (post_recipient (some bo)) (start pages.load_location)).1

added-Reachable : Reachable pages.load_location added
added-Reachable = next here (request pages (post_recipient (some bo)) (start pages.load_location))

Reachable-IsSound_example : IsSound pages.load_location added.world.tables
Reachable-IsSound_example = Reachable-IsSound pages.load_location added added-Reachable

abbrev evening : Time
evening = record { sec = 63921562200; loc = utc }

due-Reachable_example : (due pages.load_location evening (enabled added.world.tables) []).1 ≡ []
due-Reachable_example = due-Reachable pages.load_location added evening [] added-Reachable

perform-Writes_example :
    Writes stored
      (insert 1 (codes "2026-08-06") (codes "t2") (codes "[]") (codes "2026-08-05T21:00:00Z"))
      (diary stored)
      (diary (
        perform
          (insert 1 (codes "2026-08-06") (codes "t2") (codes "[]") (codes "2026-08-05T21:00:00Z"))
          stored))
perform-Writes_example =
    perform-Writes
      (insert 1 (codes "2026-08-06") (codes "t2") (codes "[]") (codes "2026-08-05T21:00:00Z"))
      stored stored-IsConsistent
