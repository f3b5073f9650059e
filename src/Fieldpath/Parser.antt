-- ===== src/Fieldpath/Parser.antt =====
-- templates/mustache/fieldpath/parser.go and helpers.go: recursive descent over the tokens.
pub mod Printed
pub mod RoundTrip
pub mod Conditions
pub mod States
pub mod Total
pub mod Ends
pub mod Accepts
use kweb.Base.{ℕ, zero, suc, ◌||◌, if◌then◌else◌, none, some, Text, codes, length, Result, ok, err}
use kweb.Lexparse.Lexer.{BaseLexer, init as init_lexer}
use kweb.Lexparse.Token.{TokenType, eof, error, same_type}
use kweb.Lexparse.Parser.{
  ParseError, expected_identifier, unexpected_start, out_of_fuel, BaseParser, init, ◌>>=◌, ◌>>◌,
  ◌>>=!◌, Parsed, completed, pure, peek_token_type, expect, unexpected, complete,
}
use kweb.Fieldpath.Lexer.{
  identifier as identifier_type, next, quoted_string, dot, left_square_bracket,
  right_square_bracket, negation, equals,
}
use kweb.Fieldpath.Syntax.{
  Expression, nil, literal, identifier, index, dotted, bracketed, Condition, binary, truthy, negate,
}

abbrev pub Method : Type 0 → Type 0
Method A = BaseParser BaseLexer → A × BaseParser BaseLexer

-- The loop of `ParseExpression`, on the expression read so far. A type TokenTypeError makes it
-- return a nil expression and no error.
unfoldable pub parse_steps : ℕ → Expression → Method (Parsed Expression)
parse_steps zero e = pure (err out_of_fuel)
parse_steps (suc n) e = do
  tt ← peek_token_type next
  let at_dot = do
    expect next dot
    id ← expect next identifier_type
    parse_steps n (index e id.value dotted)
  let at_bracket = do
    expect next left_square_bracket
    id ← expect next identifier_type
    expect next right_square_bracket
    parse_steps n (index e id.value bracketed)
  if same_type tt dot
      then at_dot
      else if same_type tt left_square_bracket
      then at_bracket
      else if same_type tt eof
      then (do expect next eof; pure (ok e))
      else if same_type tt error
      then pure (ok nil)
      else pure (ok e)

unfoldable pub parse_expression : ℕ → Method (Parsed Expression)
unfolding parse_steps
parse_expression n = do
  tt ← peek_token_type next
  if same_type tt identifier_type
      then (do t ← expect next identifier_type; parse_steps n (identifier t.value))
      else if same_type tt quoted_string
      then (do t ← expect next quoted_string; parse_steps n (literal t.value))
      else (do again ← peek_token_type next; pure (err (expected_identifier again)))

-- The right side of a comparison, behind the first rune of its operator.
parse_right : ℕ → Text → Expression → Method (Parsed Condition)
parse_right n operator left = do
  expect next equals
  parse_expression n >>=! λ right. pure (ok (binary left operator right))

-- `ParseCondition` behind its first expression.
parse_operator : ℕ → Expression → Method (Parsed Condition)
unfolding parse_right
parse_operator n left = do
  tt ← peek_token_type next
  if same_type tt eof
      then pure (ok (truthy left))
      else if same_type tt equals
      then (do expect next equals; parse_right n (codes "==") left)
      else if same_type tt negation
      then (do expect next negation; parse_right n (codes "!=") left)
      else (do e ← unexpected next; pure (err e))

unfoldable pub parse_condition : ℕ → Method (Parsed Condition)
unfolding parse_operator parse_expression
parse_condition zero = pure (err out_of_fuel)
parse_condition (suc n) = do
  tt ← peek_token_type next
  let negated = do expect next negation; parse_condition n >>=! λ inner. pure (ok (negate inner))
  if same_type tt negation
      then negated
      else if same_type tt identifier_type
      then (parse_expression n >>=! parse_operator n)
      else (do again ← peek_token_type next; pure (err (unexpected_start again)))

-- `Init`
abbrev pub parser_of : Text → BaseParser BaseLexer
parser_of s = init (init_lexer s)

-- Each round of a loop takes a token, and a token takes a rune; the last round finds none.
abbrev pub fuel_for : Text → ℕ
fuel_for s = suc (suc (length s))

-- helpers.go
unfoldable pub parse_condition_text : Text → Parsed Condition
unfolding parse_condition completed
parse_condition_text s = completed next (parse_condition (fuel_for s) (parser_of s))

unfoldable pub parse_expression_text : Text → Parsed Expression
unfolding parse_expression completed
parse_expression_text s = completed next (parse_expression (fuel_for s) (parser_of s))
