-- ===== src/Github.antt =====
-- components/github: the tokens of the GitHub application.
pub mod Token
mod Tests
