-- ===== src/Lexparse.antt =====
-- templates/lexparse: the shared base of the lexers and of the recursive descent parsers.
pub mod Lexer
pub mod Token
pub mod Parser
pub mod Lexing
