-- ===== src/Boot.antt =====
-- internal/cmd, with the parts of internal/store and internal/jobs that start the process.
pub mod Effects
pub mod Database
pub mod Client
pub mod App
pub mod Run
pub mod Orderly
pub mod Wait
pub mod Handles
pub mod Started
pub mod Released
pub mod Retention
pub mod Health
pub mod Examples
