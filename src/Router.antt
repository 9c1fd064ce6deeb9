-- ===== src/Router.antt =====
-- backend/src/router: the guards of requests.
pub mod Sessions
pub mod Login
pub mod Reauth
pub mod Shares
pub mod Tokens
