-- ===== src/Login.antt =====
-- components/login: sign-in by OAuth2 with a state that ties the callback to the session.
pub mod Handlers
pub mod Redeems
pub mod SignIn
mod Tests
