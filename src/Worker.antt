-- ===== src/Worker.antt =====
-- The background worker: idempotency records, retry policies, deliveries, the outbox and replays.
pub mod Idempotency
pub mod Tasks
pub mod Runner
pub mod Steps
pub mod Deliveries
pub mod Duplicates
mod Tests
