-- ===== src/Mustache/Lexer.antt =====
-- templates/mustache/lexer.go: double braces, and the texts between them.
pub mod Refinement
pub mod Stream
use kweb.Base.{
  ℕ, zero, suc, ◌+◌, ◌||◌, ◌==◌, if◌then◌else◌, [], ◌∷◌, ◌++◌, length, Text, codes, Result, ok, err,
}
use kweb.Lexparse.Lexer.{Rune, chr, rune_eof, rune_error, BaseLexer, read, peek, unread}
use kweb.Lexparse.Token.{TokenType, kind, eof, Token}
use kweb.Lexparse.Parser.{ParseError, reader_failed, out_of_fuel, Next}

abbrev pub left_mustache : TokenType
left_mustache = kind b'{'

abbrev pub right_mustache : TokenType
right_mustache = kind b'}'

abbrev pub other : TokenType
other = kind b'.'

abbrev pub token : TokenType → Text → Token
token tt s = record { token_type = tt; value = s }

-- No loop of the lexer reads more runes than this.
abbrev pub rounds : BaseLexer → ℕ
rounds l = suc (length l.unread_runes + length l.reader.runes)

-- The loop of `lexOther`, on the runes read so far.
lex_other : ℕ → Text → BaseLexer → Result ParseError Token × BaseLexer
lex_other zero s l = (err out_of_fuel, l)
lex_other (suc n) s l =
    let (r, l') = read l in
    elim r [
      | rune_eof ↦ (ok (token other s), l')
      | rune_error ↦ (err reader_failed, l')
      | chr c ↦
          let more = lex_other n (s ++ c ∷ []) l' in
          if c == b'{' || c == b'}' then (ok (token other s), unread (chr c) l') else more
    ]

-- A brace: with a second one behind it, it is a token; else it starts a text.
lex_brace : TokenType → ℕ → BaseLexer → Result ParseError Token × BaseLexer
lex_brace tt c l =
    let (r, l') = peek l in
    elim r [
      | chr d ↦
          if d == c
          then (ok (token tt (c ∷ c ∷ [])), (read l').1)
          else lex_other (rounds l') (c ∷ []) l'
      | _ ↦ lex_other (rounds l') (c ∷ []) l'
    ]

lex_rune : ℕ → BaseLexer → Result ParseError Token × BaseLexer
lex_rune c l =
    if c == b'{'
    then lex_brace left_mustache c l
    else if c == b'}'
    then lex_brace right_mustache c l
    else lex_other (rounds l) (c ∷ []) l

unfoldable pub next : Next BaseLexer
unfolding lex_rune lex_brace lex_other
next l =
    let (r, l') = read l in
    elim r [
      | rune_eof ↦ (ok (token eof []), l')
      | rune_error ↦ (err reader_failed, l')
      | chr c ↦ lex_rune c l'
    ]
