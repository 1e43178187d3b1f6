-- ===== src/Outbox.antt =====
-- The outbox: events that are stored with the rows they tell of, and published later by a job.
pub mod Events
pub mod Dispatch
pub mod Report
pub mod Batch
pub mod Page
pub mod BatchEffect
pub mod Retries
mod Tests
