-- ===== src/Items.antt =====
-- Items: create, archive, restore and list, with the quota that each write costs.
pub mod Rows
pub mod Service
pub mod Guards
pub mod Charge
pub mod Charged
pub mod Writes
pub mod Changes
mod Tests
