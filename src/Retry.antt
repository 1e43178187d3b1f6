-- ===== src/Retry.antt =====
-- app/core/resilience.py: the calls that are tried again.
pub mod Call
pub mod Policies
pub mod Attempts
mod Tests
