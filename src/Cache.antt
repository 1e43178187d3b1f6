-- ===== src/Cache.antt =====
-- The cache: the in-memory backend, and the read-through load.
pub mod Memory
pub mod Entries
pub mod Json
pub mod ReadThrough
mod Tests
