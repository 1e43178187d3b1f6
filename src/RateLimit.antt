-- ===== src/RateLimit.antt =====
-- app/core/rate_limit.py: the in-memory and Redis limiters and the limits on sign-in and token requests.
pub mod Memory
pub mod Window
pub mod Requests
mod Tests
pub mod Redis
pub mod Expiry
