-- ===== src/Store.antt =====
-- internal/store: the rows, the queries over them, transactions, and the helpers that pair queries.
pub mod Models
pub mod Tx
pub mod Preserves
pub mod Tables
pub mod Times
pub mod Snapshots
pub mod Flags
pub mod Recipients
pub mod Examples
