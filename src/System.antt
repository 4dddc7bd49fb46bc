-- ===== src/System.antt =====
-- The program as a whole: the pages and the workers on one database.
pub mod Sound
pub mod Kept
pub mod Answers
pub mod Served
pub mod Runs
pub mod Examples
