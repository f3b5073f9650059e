-- ===== src/Fieldpath/Tests.antt =====
-- Runs of the parser on texts that templates hold, and the theorems at concrete inputs.
use kweb.Base.{Text, codes, [], ◌∷◌, ◌++◌, ◌≡◌, ◌≢◌, refl, ok, err, inr}
use kweb.Lexparse.Lexer.{init as lex_init, read as lex_read, unread as lex_unread}
use kweb.Lexparse.Parser.{
  out_of_fuel, no_closing_quote, Parsed, init, peek_token_type, expect, complete, completed,
}
use kweb.Fieldpath.Lexer.Stream.{name, starts_identifier}
use kweb.Fieldpath.Lexer.{is_identifier_rune, next}
use kweb.Fieldpath.Syntax.{
  Expression, literal, identifier, index, dotted, bracketed, Condition, binary, negate,
  print_expression, print_condition,
}
use kweb.Fieldpath.Parser.{parse_expression_text, parse_condition_text}
use kweb.Fieldpath.Parser.Printed.{QuotesPlain, IsPath}
use kweb.Fieldpath.Parser.RoundTrip.{parse_expression_text-print}
use kweb.Fieldpath.Parser.Conditions.{parse_condition_text-print}
use kweb.Fieldpath.Parser.Total.{IsNamed}
use kweb.Fieldpath.Parser.Accepts.{
  IsNamedCondition, parse_expression_text_ends, parse_condition_text_ends,
}

-- A %q for plain texts.
abbrev quote : Text → Text
quote s = b'"' ∷ (s ++ b'"' ∷ [])

quote-QuotesPlain : QuotesPlain quote
quote-QuotesPlain s h = refl

-- The parsers, opened for the tests.
run_expression : Text → Parsed Expression
unfolding parse_expression_text completed next lex_read lex_unread lex_init init peek_token_type
    expect complete
run_expression = parse_expression_text

run_condition : Text → Parsed Condition
unfolding parse_condition_text completed next lex_read lex_unread lex_init init peek_token_type
    expect complete
run_condition = parse_condition_text

-- user.meta[name]
abbrev user_path : Expression
user_path = index (index (identifier (codes "user")) (codes "meta") dotted) (codes "name") bracketed

user_path-IsPath : IsPath user_path
unfolding is_identifier_rune starts_identifier
user_path-IsPath = ((name refl refl, name refl refl), name refl refl)

parse_user_path : run_expression (codes "user . meta[name]") ≡ ok user_path
unfolding run_expression
parse_user_path = refl

-- !user.meta[name]!="admin"
abbrev not_admin : Condition
not_admin = negate (binary user_path (codes "!=") (literal (codes "admin")))

parse_not_admin : run_condition (codes "!user.meta[name] != 'admin'") ≡ ok not_admin
unfolding run_condition
parse_not_admin = refl

-- An open quote is an error.
parse_open_quote : run_expression (codes "user.\"x") ≡ err no_closing_quote
unfolding run_expression
parse_open_quote = refl

parse_expression_text-print_example :
    parse_expression_text (print_expression quote user_path) ≡ ok user_path
parse_expression_text-print_example =
    parse_expression_text-print quote-QuotesPlain user_path user_path-IsPath

parse_condition_text-print_example :
    parse_condition_text (print_condition quote not_admin) ≡ ok not_admin
parse_condition_text-print_example =
    parse_condition_text-print quote-QuotesPlain not_admin (tt, user_path-IsPath, refl, inr refl)

parse_expression_text_ends_example :
    ((e : Expression) → parse_expression_text (codes "a.b") ≡ ok e → IsNamed e)
    × (parse_expression_text (codes "a.b") ≢ err out_of_fuel)
parse_expression_text_ends_example = parse_expression_text_ends (codes "a.b")

parse_condition_text_ends_example :
    ((c : Condition) → parse_condition_text (codes "!a") ≡ ok c → IsNamedCondition c)
    × (parse_condition_text (codes "!a") ≢ err out_of_fuel)
parse_condition_text_ends_example = parse_condition_text_ends (codes "!a")
