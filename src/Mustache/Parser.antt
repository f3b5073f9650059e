-- ===== src/Mustache/Parser.antt =====
-- templates/mustache/parser.go and helpers.go: a list of literal texts and braced expressions.
pub mod Items
pub mod Lossless
use kweb.Base.{
  ℕ, zero, suc, ◌||◌, if◌then◌else◌, List, [], ◌∷◌, ◌++◌, none, some, Text, codes, length, Result,
  ok, err,
}
use kweb.Lexparse.Lexer.{BaseLexer, init as init_lexer}
use kweb.Lexparse.Token.{TokenType, eof, same_type}
use kweb.Lexparse.Parser.{
  ParseError, out_of_fuel, BaseParser, init, ◌>>=◌, ◌>>◌, ◌>>=!◌, Parsed, completed, pure,
  peek_token_type, expect, unexpected, complete,
}
use kweb.Mustache.Lexer.{next, left_mustache, right_mustache, other}

-- The expressions of expression.go.
pub data Expression : Type 0 where
  literal : Text → Expression
  mustache : Text → Expression

abbrev pub Method : Type 0 → Type 0
Method A = BaseParser BaseLexer → A × BaseParser BaseLexer

abbrev refuse : {A : Type 0} → Method (Parsed A)
refuse = do e ← unexpected next; pure (err e)

unfoldable pub parse_mustache_expression : Method (Parsed Expression)
parse_mustache_expression = do
  tt ← peek_token_type next
  if same_type tt left_mustache
      then (do
        expect next left_mustache
        t ← expect next other
        expect next right_mustache
        pure (ok (mustache t.value)))
      else refuse

unfoldable pub parse_literal_expression : Method (Parsed Expression)
parse_literal_expression = do
  tt ← peek_token_type next
  if same_type tt other then (do t ← expect next other; pure (ok (literal t.value))) else refuse

unfoldable pub parse_expression : Method (Parsed Expression)
unfolding parse_mustache_expression parse_literal_expression
parse_expression = do
  tt ← peek_token_type next
  if same_type tt other
      then parse_literal_expression
      else if same_type tt left_mustache
      then parse_mustache_expression
      else refuse

-- The loop of `ParseExpressionList`, on the expressions read so far.
unfoldable pub parse_more : ℕ → List Expression → Method (Parsed (List Expression))
parse_more zero es = pure (err out_of_fuel)
parse_more (suc n) es = do
  tt ← peek_token_type next
  let another = parse_expression >>=! λ e. parse_more n (es ++ e ∷ [])
  if same_type tt left_mustache || same_type tt other
      then another
      else if same_type tt eof
      then pure (ok es)
      else refuse

unfoldable pub parse_expression_list : ℕ → Method (Parsed (List Expression))
parse_expression_list n = parse_expression >>=! λ first. parse_more n (first ∷ [])

abbrev pub parser_of : Text → BaseParser BaseLexer
parser_of s = init (init_lexer s)

-- Each round of the loop takes a token, and a token takes a rune; the last round finds none.
abbrev pub fuel_for : Text → ℕ
fuel_for s = suc (suc (length s))

-- helpers.go
unfoldable pub parse_expression_list_text : Text → Parsed (List Expression)
unfolding completed
parse_expression_list_text s = completed next (parse_expression_list (fuel_for s) (parser_of s))
