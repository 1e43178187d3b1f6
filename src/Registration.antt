-- ===== src/Registration.antt =====
-- Registration: a new user with an account and the events that tell of it, all or nothing.
pub mod Create
pub mod Stored
pub mod Effect
pub mod Outcome
mod Tests
