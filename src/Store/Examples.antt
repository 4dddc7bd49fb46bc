-- ===== src/Store/Examples.antt =====
-- Examples of the store: one recipient, one enabled target and one snapshot.
use calendar_digest.Prelude.{ℕ, true, [], ◌∷◌, none, some, ◌≡◌, refl, arith}
use calendar_digest.Prelude.Chars.{codes, text_lt, TextLe}
use calendar_digest.Store.Models.{DigestSnapshots, Recipients, NotificationTargets}
use calendar_digest.Store.Tables.{Tables}
use calendar_digest.Store.Tx.{Body, Conn, IsAtomic, in_tx, in_tx-IsAtomic, ◌>>◌}
use calendar_digest.Store.Times.{format_time, parse_time, format_time_lem}
use calendar_digest.Store.Snapshots.{insert_snapshot_if_absent}
use calendar_digest.Store.Snapshots.Consistent.{IsConsistent}

abbrev pub ana : Recipients
ana = record {
  id = 1;
  name = codes "Ana";
  calendar_id = codes "a@x";
  notify_time = codes "21:00";
  tz = codes "UTC";
  enabled = true;
}

abbrev pub ana_mail : NotificationTargets
ana_mail = record {
  id = 7;
  recipient_id = 1;
  kind = codes "email";
  config = codes "{}";
  enabled = true;
}

abbrev pub wednesday : DigestSnapshots
wednesday = record {
  id = 1;
  recipient_id = 1;
  digest_date = codes "2026-08-05";
  token = codes "t1";
  events = codes "[]";
  created_at = codes "2026-08-04T21:00:00Z";
  notified_at = none;
}

abbrev pub stored : Tables
stored = record {
  recipients = ana ∷ [];
  targets = ana_mail ∷ [];
  snapshots = wednesday ∷ [];
  app_state =
      record {
        key = codes "calendar_access";
        value = codes "failed";
        updated_at = codes "2026-08-04T21:00:00Z";
      }
      ∷ [];
}

pub stored-IsConsistent : IsConsistent stored
stored-IsConsistent = record {
  keys = (refl, tt);
  tokens = (refl, tt);
  ids = (refl, tt);
  owned = (refl, tt);
}

-- The body writes a row and then fails; the transaction begins.
abbrev torn : Body Tables ℕ
torn = do
  insert_snapshot_if_absent 1 (codes "2026-08-06") (codes "t2") (codes "[]")
      (codes "2026-08-05T21:00:00Z")
  insert_snapshot_if_absent 9 (codes "2026-08-06") (codes "t3") (codes "[]")
      (codes "2026-08-05T21:00:00Z")

abbrev sound : Conn
sound = record { begins = true; commits = true }

in_tx-IsAtomic_example : IsAtomic sound torn stored (in_tx sound torn stored)
in_tx-IsAtomic_example = in_tx-IsAtomic sound torn stored

earlier : TextLe (codes "2026-08-01") (codes "2026-08-05")
unfolding text_lt
earlier = refl

format_time_lem_example :
    (parse_time (format_time 63921087060) ≡ some 63921087060)
    × (text_lt (format_time 63921087000) (format_time 63921087060) ≡ true)
format_time_lem_example = format_time_lem 63921087000 63921087060 (omega arith) (omega arith)
