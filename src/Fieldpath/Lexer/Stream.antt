-- ===== src/Fieldpath/Lexer/Stream.antt =====
-- The tokens of a text, and the lexer as a source of tokens for `BaseParser`.
use kweb.Base.{
  ℕ, Bool, true, false, ◌||◌, not, ◌==◌, List, [], ◌∷◌, ◌++◌, all, Text, ok, ◌≡◌, refl, arith,
}
use kweb.Lexparse.Lexer.{init}
use kweb.Lexparse.Token.{Token}
use kweb.Lexparse.Parser.Stream.{eof_token, Delivery}
use kweb.Lexparse.Lexing
use kweb.Lexparse.Lexing.{finish}
use kweb.Fieldpath.Lexer.{identifier, quoted_string, token, is_identifier_rune, next}
use kweb.Fieldpath.Lexer.Refinement.{identifier_span, quoted_span, lex_one, lex_text, next-Agrees}

abbrev pub Lexes : Text → List Token → Type 0
Lexes = Lexing.Lexes lex_text

pub lex_text-nil : lex_text [] ≡ (ok eof_token, [])
unfolding lex_text
lex_text-nil = refl

pub Lexes-nil : Lexes [] []
Lexes-nil = finish lex_text-nil

-- The lexer as a source of tokens for `BaseParser`.
abbrev pub delivery : Delivery next
delivery = Lexing.delivery next-Agrees lex_text-nil

pub init-Delivers : (s : Text) (ts : List Token) → Lexes s ts → delivery.delivers (init s) ts
init-Delivers = Lexing.init-Delivers lex_text

-- A rune that starts an identifier: any that the switch of `Next` does not name.
unfoldable pub starts_identifier : ℕ → Bool
starts_identifier c = not (
    c == b' '
    || c == b'.'
    || c == b'['
    || c == b']'
    || c == b'='
    || c == b'!'
    || c == b'"'
    || c == b'\'')

-- A name as `lexIdentifier` reads it: not empty, and identifier runes behind the first.
pub data IsName : Text → Type 0 where
  name :
      {c : ℕ} {cs : Text}
      → starts_identifier c ≡ true
      → all is_identifier_rune cs ≡ true
      → IsName (c ∷ cs)

-- No identifier goes on into the text.
abbrev pub IsBoundary : Text → Type 0
IsBoundary [] = Unit
IsBoundary (c ∷ cs) = is_identifier_rune c ≡ false

identifier_span-append :
    (cs rest : Text)
    → all is_identifier_rune cs ≡ true
    → IsBoundary rest
    → identifier_span (cs ++ rest) ≡ (cs, rest)
unfolding identifier_span
identifier_span-append [] [] h b = refl
identifier_span-append [] (c ∷ rest) h b = rw b
identifier_span-append (c ∷ cs) rest h b = ground (arith, identifier_span-append cs rest)

lex_one_name :
    (c : ℕ) (cs : Text)
    → starts_identifier c ≡ true
    → lex_text (c ∷ cs)
      ≡ (ok (token identifier (c ∷ (identifier_span cs).0)), (identifier_span cs).1)
unfolding lex_text lex_one starts_identifier
lex_one_name c cs h = ground arith

-- A name in front of a text that does not prolong it is one token.
pub lex_text-IsName :
    {k : Text} (rest : Text)
    → IsName k
    → IsBoundary rest
    → lex_text (k ++ rest) ≡ (ok (token identifier k), rest)
lex_text-IsName rest (name {c} {cs} h a) b =
    rw (lex_one_name c (cs ++ rest) h, identifier_span-append cs rest a b)

-- A quoted text without its quote is one token.
quoted_span-append :
    (quote : ℕ) (s rest : Text)
    → all (λ c. not (c == quote)) s ≡ true
    → quoted_span quote (s ++ quote ∷ rest) ≡ (ok (token quoted_string s), rest)
unfolding quoted_span
quoted_span-append quote [] rest h = ground arith
quoted_span-append quote (c ∷ s) rest h = ground (arith, quoted_span-append quote s rest)

pub lex_text_quoted :
    (s rest : Text)
    → all (λ c. not (c == b'"')) s ≡ true
    → lex_text (b'"' ∷ (s ++ b'"' ∷ rest)) ≡ (ok (token quoted_string s), rest)
unfolding lex_text lex_one
lex_text_quoted s rest h = quoted_span-append b'"' s rest h
