-- ===== src/Clock.antt =====
-- The part of Go's package `time` that the program uses: civil dates, zones, `time.Date`,
-- `Time.In`, `AddDate` in days, the layouts "2006-01-02" and "15:04", and RFC3339 timestamps.
pub mod Civil
pub mod Zone
pub mod Layout
pub mod Stamp
