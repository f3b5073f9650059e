-- ===== src/Lexparse/Parser.antt =====
-- templates/lexparse/parser.go: `BaseParser`, which reads tokens from a lexer, with pushback and a
-- sticky error.
pub mod Stream
pub mod Failure
use kweb.Base.{List, [], ◌∷◌, Option, none, some, Result, ok, err, all, if◌then◌else◌}
use kweb.Lexparse.Token.{TokenType, eof, Token, same_type, error_token}

-- The errors, one constructor for each `fmt.Errorf` on the way; `out_of_fuel` has no counterpart in
-- the source, where a loop has no bound.
pub data ParseError : Type 0 where
  expected_token : TokenType → TokenType → ParseError
  unexpected_token : Token → ParseError
  extra_input : Token → ParseError
  no_closing_quote : ParseError
  reader_failed : ParseError
  expected_identifier : TokenType → ParseError
  unexpected_start : TokenType → ParseError
  out_of_fuel : ParseError

-- `Lexer`, the interface: one call of `Next` on a lexer of state `L`.
abbrev pub Next : Type 0 → Type 0
Next L = L → Result ParseError Token × L

pub record BaseParser (L : Type 0) : Type 0 where
  pub lexer : L
  pub unread_tokens : List Token
  pub failure : Option ParseError

-- A method of the parser: its result and the parser behind it.
abbrev pub Method : Type 0 → Type 0 → Type 0
Method L A = BaseParser L → A × BaseParser L

module _ {L : Type 0} {A B : Type 0} where
  infixl 5 ◌>>=◌ ◌>>◌
  abbrev pub ◌>>=◌ : Method L A → (A → Method L B) → Method L B
  ◌>>=◌ m f p = let (a, p') = m p in f a p'

  abbrev pub ◌>>◌ : Method L A → Method L B → Method L B
  ◌>>◌ m k p = let (a, p') = m p in k p'

-- The value and the error that a method returns.
abbrev pub Parsed : Type 0 → Type 0
Parsed A = Result ParseError A

-- An error on the way ends the method.
infixl 5 ◌>>=!◌
abbrev pub ◌>>=!◌ :
    {L A B : Type 0} → Method L (Parsed A) → (A → Method L (Parsed B)) → Method L (Parsed B)
◌>>=!◌ m f p = let (r, p') = m p in elim r [ ok a ↦ f a p' | err e ↦ (err e, p') ]

abbrev pub pure : {L A : Type 0} → A → Method L A
pure a p = (a, p)

unfoldable pub init : {L : Type 0} → L → BaseParser L
init l = record { lexer = l; unread_tokens = []; failure = none }

abbrev fail : {L : Type 0} → ParseError → BaseParser L → BaseParser L
fail e p = record p { failure = some e }

unread_ok : {L : Type 0} → Option ParseError → Token → BaseParser L → BaseParser L
unread_ok (some e) t p = p
unread_ok none t p = record p { unread_tokens = t ∷ p.unread_tokens }

unfoldable pub unread : {L : Type 0} → Token → BaseParser L → BaseParser L
unfolding unread_ok
unread t p = unread_ok p.failure t p

-- `Expect` behind its `read`: on another type it keeps an error that is set already.
unfoldable pub expect_type : {L : Type 0} → TokenType → Token → BaseParser L → Token × BaseParser L
expect_type tt t p = if same_type t.token_type tt then (t, p) else (
  error_token,
  elim p.failure [ none ↦ fail (expected_token tt t.token_type) p | some e ↦ p ],
)

-- `Complete` behind its look at the next token.
unfoldable pub complete_with :
    {L : Type 0} → Option ParseError → Token → BaseParser L → Option ParseError
complete_with (some e) next p = some e
complete_with none next p =
    if all (λ t. same_type t.token_type eof) p.unread_tokens then none else some (extra_input next)

module _ {L : Type 0} (next : Next L) where
  read_lexer : BaseParser L → Token × BaseParser L
  read_lexer p =
      let (r, l) = next p.lexer in
      elim r [
        | ok t ↦ (t, record p { lexer = l })
        | err e ↦ (error_token, record p { lexer = l; failure = some e })
      ]

  read_from : Option ParseError → List Token → BaseParser L → Token × BaseParser L
  unfolding read_lexer
  read_from (some e) us p = (error_token, p)
  read_from none (t ∷ us) p = (t, record p { unread_tokens = us })
  read_from none [] p = read_lexer p

  unfoldable pub read : Method L Token
  unfolding read_from
  read p = read_from p.failure p.unread_tokens p

  unfoldable pub peek : Method L Token
  unfolding read unread
  peek = do t ← read; λ p. (t, unread t p)

  peek_from : List Token → Method L TokenType
  unfolding peek
  peek_from (t ∷ us) = pure t.token_type
  peek_from [] = do t ← peek; pure t.token_type

  unfoldable pub peek_token_type : Method L TokenType
  unfolding peek_from
  peek_token_type p = peek_from p.unread_tokens p

  unfoldable pub expect : TokenType → Method L Token
  unfolding read expect_type
  expect tt = do t ← read; expect_type tt t

  unfoldable pub unexpected : Method L ParseError
  unfolding read
  unexpected = do t ← read; λ p. (unexpected_token t, fail (unexpected_token t) p)

  unfoldable pub complete : BaseParser L → Option ParseError
  unfolding complete_with
  complete p =
      let (_, p') = peek_token_type p in let (t, _) = peek p' in complete_with p'.failure t p'

  -- `Complete`, behind a parse.
  unfoldable pub completed : {A : Type 0} → Parsed A × BaseParser L → Parsed A
  completed (ok a, p) = elim (complete p) [ none ↦ ok a | some e ↦ err e ]
  completed (err e, p) = err e
