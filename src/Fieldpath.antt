-- ===== src/Fieldpath.antt =====
-- templates/mustache/fieldpath: the language of paths and conditions in the templates.
pub mod Lexer
pub mod Syntax
pub mod Parser
pub mod Eval
mod Tests
