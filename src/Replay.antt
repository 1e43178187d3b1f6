-- ===== src/Replay.antt =====
-- The replay of dead letters.
pub mod Channel
pub mod Queue
pub mod Effect
mod Tests
