-- ===== src/Api.antt =====
-- What stands between a request and the services: who is let in.
pub mod Access
pub mod Bearer
pub mod Errors
pub mod Login
pub mod Guessing
mod Tests
