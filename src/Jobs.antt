-- ===== src/Jobs.antt =====
-- The jobs that operators run by hand.
pub mod Bootstrap
pub mod BootstrapEffect
pub mod BootstrapOutcome
mod Tests
