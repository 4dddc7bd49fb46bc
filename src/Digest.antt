-- ===== src/Digest.antt =====
-- internal/digest: which digests are owed, and when the next one is.
pub mod Due
