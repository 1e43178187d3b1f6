-- ===== src/Billing.antt =====
-- Metered features: entitlements, reservations, usage events and the two services over them.
pub mod Entitlements
pub mod Reservations
pub mod Usage
pub mod Enforcement
pub mod Grants
pub mod Effects
pub mod Settlement
pub mod Ledger
pub mod GrantEffect
pub mod Books
pub mod Run
pub mod Lifecycle
pub mod Charges
pub mod Quota
pub mod Pages
pub mod Decisions
pub mod Release
pub mod Reserve
pub mod Pending
mod Tests
