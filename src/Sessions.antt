-- ===== src/Sessions.antt =====
-- components/sessions and components/cookies: sessions behind a cookie.
pub mod Session
pub mod Codec
pub mod Storage
pub mod Memory
pub mod Kube
pub mod Context
pub mod Cookies
pub mod Filter
pub mod Tests
