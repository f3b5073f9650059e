-- ===== src/Users.antt =====
-- components/users: the current user of a request, kept in the session.
pub mod Current
pub mod Accounts
mod Tests
