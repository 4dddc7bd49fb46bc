-- ===== src/Calendar.antt =====
-- internal/calendar: a recipient's events for one local day.
pub mod Ids
pub mod Event
pub mod Convert
pub mod Google
pub mod Fake
pub mod Examples
