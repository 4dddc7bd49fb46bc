-- ===== src/Store/Models.antt =====
-- internal/store/models.go: the rows of the four tables. Row ids are positive, as SQLite gives
-- them out, and a NULL text is `none`.
use calendar_digest.Prelude.{ℕ, Bool, Option}
use calendar_digest.Prelude.Chars.{Text}

pub record AppState : Type 0 where
  pub key : Text
  pub value : Text
  pub updated_at : Text

pub record DigestSnapshots : Type 0 where
  pub id : ℕ
  pub recipient_id : ℕ
  pub digest_date : Text
  pub token : Text
  pub events : Text
  pub created_at : Text
  pub notified_at : Option Text

pub record NotificationTargets : Type 0 where
  pub id : ℕ
  pub recipient_id : ℕ
  pub kind : Text
  pub config : Text
  pub enabled : Bool

pub record Recipients : Type 0 where
  pub id : ℕ
  pub name : Text
  pub calendar_id : Text
  pub notify_time : Text
  pub tz : Text
  pub enabled : Bool

-- internal/store/snapshots.sql.go, `ListSnapshotKeysSinceRow`.
pub record SnapshotKey : Type 0 where
  pub recipient_id : ℕ
  pub digest_date : Text
