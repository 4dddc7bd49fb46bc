-- ===== src/Jobs.antt =====
-- internal/jobs: the workers that River runs.
pub mod Deps
pub mod Alert
pub mod Capture
pub mod Scan
pub mod Send
pub mod Preserves
pub mod Purge
pub mod Retention
pub mod Verify
pub mod Examples
