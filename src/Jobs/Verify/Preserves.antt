-- ===== src/Jobs/Verify/Preserves.antt =====
-- The daily check preserves what the queries preserve.
use calendar_digest.Prelude.{Bool, false, not, Option, none, some, sym, subst}
use calendar_digest.Store.Tables.{Tables}
use calendar_digest.Store.Preserves.{IsKept}
use calendar_digest.Store.Recipients.{list_enabled_recipients}
use calendar_digest.Jobs.Deps.{Deps, World, CalendarClient, no_credential, calendar_access}
use calendar_digest.Jobs.Alert.{raise_keeps}
use calendar_digest.Jobs.Preserves.{record-Preserves}
use calendar_digest.Jobs.Scan.{enabled}
use calendar_digest.Jobs.Verify.{
  Verified, tried, stopped, record_verified, verify_for, verify_with, verify, verify_all,
}
use calendar_digest.Jobs.Verify.Verdict.{Keeps, verify_all-Keeps}

module _ (P : Tables → Type 0) (k : IsKept P) (d : Deps) where
  record_verified-Preserves :
      (t : Tables) (b f : Bool) (v : Verified)
      → P t
      → Keeps t b f v
      → P (record_verified d v).1.tables
  unfolding record_verified
  record_verified-Preserves t b f (tried c w) h (e, n, same) =
      record-Preserves P k d (not c) w (subst P (sym same) h)
  record_verified-Preserves t b f (stopped w) h (n, same) = subst P (sym same) h

  pub verify-Preserves : (w : World) → P w.tables → P (verify d w).1.tables
  unfolding verify verify_with verify_for list_enabled_recipients
  verify-Preserves w h = from d.calendar
    where
      from : (o : Option CalendarClient) → P (verify_with d o w).1.tables
      from none =
          subst P (sym (raise_keeps d calendar_access no_credential _).0)
            (record-Preserves P k d false w h)
      from (some client) =
          record_verified-Preserves w.tables _ _ (verify_all d client (enabled w.tables) false w) h
            (verify_all-Keeps d client (enabled w.tables) false w)
