-- ===== src/Mustache/Tests.antt =====
-- Runs of the parser, and the theorem at a concrete input.
use kweb.Base.{Text, List, codes, [], ◌∷◌, ◌≡◌, refl, ◌⊎◌, ok, err}
use kweb.Lexparse.Lexer.{init as lex_init, read as lex_read, unread as lex_unread, peek as lex_peek}
use kweb.Lexparse.Parser.{
  unexpected_token, Parsed, init, peek_token_type, expect, unexpected, complete, completed,
}
use kweb.Mustache.Lexer.{next, right_mustache, token}
use kweb.Mustache.Parser.{
  Expression, literal, mustache, parse_expression_list, parse_more, parse_expression,
  parse_expression_list_text,
}
use kweb.Mustache.Parser.Items.{sources, Refused}
use kweb.Mustache.Parser.Lossless.{parse_expression_list_text_outcome}

-- The parser, opened for the tests.
run : Text → Parsed (List Expression)
unfolding parse_expression_list_text parse_expression_list parse_more parse_expression completed
    unexpected lex_peek next lex_read lex_unread lex_init init peek_token_type expect complete
run = parse_expression_list_text

parse_greeting :
    run (codes "Hi {{user.name}}!")
    ≡ ok (literal (codes "Hi ") ∷ mustache (codes "user.name") ∷ literal (codes "!") ∷ [])
unfolding run
parse_greeting = refl

-- A single brace is text.
parse_brace : run (codes "a{b") ≡ ok (literal (codes "a") ∷ literal (codes "{b") ∷ [])
unfolding run
parse_brace = refl

parse_closing : run (codes "a}}") ≡ err (unexpected_token (token right_mustache (codes "}}")))
unfolding run
parse_closing = refl

parse_expression_list_text_outcome_example :
    ((es : List Expression) × (parse_expression_list_text (codes "x{{y}}") ≡ ok es)
      × (sources es ≡ codes "x{{y}}"))
    ⊎ Refused (parse_expression_list_text (codes "x{{y}}"))
parse_expression_list_text_outcome_example = parse_expression_list_text_outcome (codes "x{{y}}")
