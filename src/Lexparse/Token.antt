-- ===== src/Lexparse/Token.antt =====
-- templates/lexparse/token.go: token types and tokens.
use kweb.Base.{ℕ, Bool, true, false, ◌==◌, Text, [], ◌≡◌, refl, ◌↔◌, arith}

-- A token type is an int in the source: the code of a character, TokenTypeEOF (-1) or
-- TokenTypeError (-2).
pub data TokenType : Type 0 where
  kind : ℕ → TokenType
  eof error : TokenType

pub record Token : Type 0 where
  pub token_type : TokenType
  pub value : Text

abbrev pub same_type : TokenType → TokenType → Bool
same_type (kind a) (kind b) = a == b
same_type eof eof = true
same_type error error = true
same_type _ _ = false

pub same_type_iff : (a b : TokenType) → (same_type a b ≡ true) ↔ (a ≡ b)
same_type_iff (kind a) b = ground arith
same_type_iff eof b = ground arith
same_type_iff error b = ground arith

pub same_type_refl : (a : TokenType) → same_type a a ≡ true
same_type_refl a = (same_type_iff a a).1 refl

abbrev pub error_token : Token
error_token = record { token_type = error; value = [] }
