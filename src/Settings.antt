-- ===== src/Settings.antt =====
-- The settings that a deployment must not start with.
pub mod Validation
pub mod Deployable
mod Tests
