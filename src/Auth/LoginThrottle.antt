-- ===== src/Auth/LoginThrottle.antt =====
-- backend/src/auth/login_throttle.rs: the login brute-force tracker.
pub mod State
pub mod Slots
pub mod Outcome
pub mod Invariant
pub mod Steps
mod Bans
mod Flight
pub mod Release
pub mod Caps
mod Tests
