-- ===== src/Auth.antt =====
-- Accounts and tokens: sign-in with lockout, refresh rotation, and the confirmations by token.
pub mod Users
pub mod Tokens
pub mod Login
pub mod Effects
pub mod LoginEffect
pub mod Rotation
pub mod RotationEffect
pub mod Reuse
mod Tests
pub mod Password
pub mod Links
pub mod Confirm
pub mod ConfirmEffect
pub mod ConfirmOutcome
