-- ===== src/Mustache.antt =====
-- templates/mustache: texts with expressions in double braces.
pub mod Lexer
pub mod Parser
pub mod Eval
mod Tests
