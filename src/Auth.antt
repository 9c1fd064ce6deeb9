-- ===== src/Auth.antt =====
-- backend/src/auth
pub mod RateLimit
pub mod LoginThrottle
pub mod Users
pub mod UserStore
pub mod Invites
pub mod Revocations
