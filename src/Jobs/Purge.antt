-- ===== src/Jobs/Purge.antt =====
-- internal/jobs/purge.go: the retention pass.
use calendar_digest.Prelude.{ℕ, ◌-◌, ◌/◌, ◌==◌, if◌then◌else◌}
use calendar_digest.Prelude.Chars.{Text}
use calendar_digest.Clock.Civil.{civil}
use calendar_digest.Clock.Layout.{format_date}
use calendar_digest.Clock.Zone.{day_seconds}
use calendar_digest.Store.Tables.{Tables}
use calendar_digest.Store.Tx.{Outcome, ok, err, panic}
use calendar_digest.Store.Snapshots.{purge_snapshots_before}
use calendar_digest.Jobs.Deps.{Deps, World, WorkResult, done, retry, crashed, Worker}

-- The UTC date, `SnapshotRetentionDays` days back; the model stops at 0001-01-01.
abbrev pub cutoff : Deps → Text
cutoff d = format_date (civil (d.now / day_seconds - d.snapshot_retention_days))

unfoldable pub purged : World → Outcome ℕ × Tables → WorkResult × World
purged w (ok n, t) = (done, record w { tables = t })
purged w (err e, t) = (retry, record w { tables = t })
purged w (panic, t) = (crashed, record w { tables = t })

-- `PurgeSnapshotsWorker.Work`.
unfoldable pub purge : Deps → Worker
purge d w =
    if d.snapshot_retention_days == 0
    then (retry, w)
    else purged w (purge_snapshots_before (cutoff d) w.tables)
