-- ===== src/Server.antt =====
-- internal/server: the HTTP server.
pub mod Origins
pub mod Routes
pub mod Guards
pub mod Denied
pub mod Writes
pub mod Examples
