-- ===== src/Fieldpath/Lexer.antt =====
-- templates/mustache/fieldpath/lexer.go: the tokens of paths and conditions.
pub mod Refinement
pub mod Stream
pub mod Tokens
use kweb.Base.{
  ℕ, zero, suc, ◌+◌, Bool, ◌&&◌, ◌||◌, leb, ◌==◌, if◌then◌else◌, [], ◌∷◌, ◌++◌, length, Text,
  Result, ok, err,
}
use kweb.Lexparse.Lexer.{Rune, chr, rune_eof, rune_error, BaseLexer, read, unread}
use kweb.Lexparse.Token.{TokenType, kind, eof, Token}
use kweb.Lexparse.Parser.{ParseError, no_closing_quote, reader_failed, out_of_fuel, Next}

abbrev pub identifier : TokenType
identifier = kind b'I'

abbrev pub quoted_string : TokenType
quoted_string = kind b'"'

abbrev pub dot : TokenType
dot = kind b'.'

abbrev pub left_square_bracket : TokenType
left_square_bracket = kind b'['

abbrev pub right_square_bracket : TokenType
right_square_bracket = kind b']'

abbrev pub negation : TokenType
negation = kind b'!'

abbrev pub equals : TokenType
equals = kind b'='

abbrev pub token : TokenType → Text → Token
token tt s = record { token_type = tt; value = s }

-- The runes that `lexIdentifier` takes after the first.
unfoldable pub is_identifier_rune : ℕ → Bool
is_identifier_rune c =
    c == b'_'
    || (leb b'0' c && leb c b'9')
    || (leb b'a' c && leb c b'z')
    || (leb b'A' c && leb c b'Z')

-- No loop of the lexer reads more runes than this.
abbrev pub rounds : BaseLexer → ℕ
rounds l = suc (length l.unread_runes + length l.reader.runes)

lex_quoted_string : ℕ → ℕ → Text → BaseLexer → Result ParseError Token × BaseLexer
lex_quoted_string zero quote s l = (err out_of_fuel, l)
lex_quoted_string (suc n) quote s l =
    let (r, l') = read l in
    elim r [
      | rune_eof ↦ (err no_closing_quote, l')
      | rune_error ↦ (err reader_failed, l')
      | chr c ↦
          let more = lex_quoted_string n quote (s ++ c ∷ []) l' in
          if c == quote then (ok (token quoted_string s), l') else more
    ]

lex_identifier : ℕ → Text → BaseLexer → Result ParseError Token × BaseLexer
lex_identifier zero s l = (err out_of_fuel, l)
lex_identifier (suc n) s l =
    let (r, l') = read l in
    elim r [
      | rune_eof ↦ (ok (token identifier s), l')
      | rune_error ↦ (err reader_failed, l')
      | chr c ↦
          let more = lex_identifier n (s ++ c ∷ []) l' in
          if is_identifier_rune c then more else (ok (token identifier s), unread (chr c) l')
    ]

-- The switch of `Next` on a rune that is not a space.
lex_rune : ℕ → BaseLexer → Result ParseError Token × BaseLexer
lex_rune c l =
    if c == b'.'
    then (ok (token dot (b'.' ∷ [])), l)
    else if c == b'['
    then (ok (token left_square_bracket (b'[' ∷ [])), l)
    else if c == b']'
    then (ok (token right_square_bracket (b']' ∷ [])), l)
    else if c == b'='
    then (ok (token equals (b'=' ∷ [])), l)
    else if c == b'!'
    then (ok (token negation (b'!' ∷ [])), l)
    else if c == b'"' || c == b'\''
    then lex_quoted_string (rounds l) c [] l
    else lex_identifier (rounds l) (c ∷ []) l

-- `Next`, with `goto top` at a space.
next_loop : ℕ → BaseLexer → Result ParseError Token × BaseLexer
next_loop zero l = (err out_of_fuel, l)
next_loop (suc n) l =
    let (r, l') = read l in
    elim r [
      | rune_eof ↦ (ok (token eof []), l')
      | rune_error ↦ (err reader_failed, l')
      | chr c ↦ let again = next_loop n l' in if c == b' ' then again else lex_rune c l'
    ]

unfoldable pub next : Next BaseLexer
unfolding next_loop lex_rune lex_quoted_string lex_identifier is_identifier_rune
next l = next_loop (rounds l) l
