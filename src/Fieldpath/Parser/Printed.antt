-- ===== src/Fieldpath/Parser/Printed.antt =====
-- The texts that `String` prints of expressions, as tokens.
use kweb.Base.{
  ℕ, Bool, ◌&&◌, ◌==◌, leb, not, all, true, [], ◌∷◌, ◌++◌, List, append_assoc, Text, ◌≡◌, refl,
  arith,
}
use kweb.Lexparse.Token.{Token}
use kweb.Lexparse.Lexing.{more}
use kweb.Fieldpath.Lexer.{
  identifier as identifier_type, quoted_string, dot, left_square_bracket, right_square_bracket,
  negation, equals, token, is_identifier_rune,
}
use kweb.Fieldpath.Lexer.Refinement.{lex_one, lex_text}
use kweb.Fieldpath.Lexer.Stream.{Lexes, IsName, IsBoundary, lex_text-IsName, lex_text_quoted}
use kweb.Fieldpath.Syntax.{
  Style, dotted, bracketed, Expression, nil, literal, identifier, index, style_suffix,
  print_expression,
}

-- Printable ASCII without the quote and the backslash: what %q writes as it is.
abbrev pub is_plain : ℕ → Bool
is_plain c = leb 32 c && leb c 126 && not (c == b'"') && not (c == b'\\')

-- The documented behaviour of %q on such a text.
abbrev pub QuotesPlain : (Text → Text) → Type 0
QuotesPlain quote = (s : Text) → all is_plain s ≡ true → quote s ≡ b'"' ∷ (s ++ b'"' ∷ [])

-- An expression whose keys are names and whose strings are plain.
abbrev pub IsPath : Expression → Type 0
IsPath nil = ⊥
IsPath (literal s) = all is_plain s ≡ true
IsPath (identifier k) = IsName k
IsPath (index base k style) = IsPath base × IsName k

abbrev pub style_tokens : Style → Text → List Token
style_tokens dotted k = token dot (b'.' ∷ []) ∷ token identifier_type k ∷ []
style_tokens bracketed k =
    token left_square_bracket (b'[' ∷ [])
    ∷ token identifier_type k
    ∷ token right_square_bracket (b']' ∷ [])
    ∷ []

unfoldable pub tokens_of : Expression → List Token
tokens_of nil = []
tokens_of (literal s) = token quoted_string s ∷ []
tokens_of (identifier k) = token identifier_type k ∷ []
tokens_of (index base k style) = tokens_of base ++ style_tokens style k

pub Lexes-IsName :
    {k : Text} (rest : Text) (ts : List Token)
    → IsName k
    → IsBoundary rest
    → Lexes rest ts
    → Lexes (k ++ rest) (token identifier_type k ∷ ts)
Lexes-IsName rest ts n b h = more (lex_text-IsName rest n b) refl h

plain-unquoted : (s : Text) → all is_plain s ≡ true → all (λ c. not (c == b'"')) s ≡ true
plain-unquoted [] h = refl
plain-unquoted (c ∷ s) h = ground (arith, plain-unquoted s)

-- One rune that is a token by itself.
Lexes-dot :
    {rest : Text} {ts : List Token}
    → Lexes rest ts
    → Lexes (b'.' ∷ rest) (token dot (b'.' ∷ []) ∷ ts)
unfolding lex_text lex_one
Lexes-dot h = more refl refl h

Lexes-left :
    {rest : Text} {ts : List Token}
    → Lexes rest ts
    → Lexes (b'[' ∷ rest) (token left_square_bracket (b'[' ∷ []) ∷ ts)
unfolding lex_text lex_one
Lexes-left h = more refl refl h

Lexes-right :
    {rest : Text} {ts : List Token}
    → Lexes rest ts
    → Lexes (b']' ∷ rest) (token right_square_bracket (b']' ∷ []) ∷ ts)
unfolding lex_text lex_one
Lexes-right h = more refl refl h

pub Lexes-negation :
    {rest : Text} {ts : List Token}
    → Lexes rest ts
    → Lexes (b'!' ∷ rest) (token negation (b'!' ∷ []) ∷ ts)
unfolding lex_text lex_one
Lexes-negation h = more refl refl h

pub Lexes-equals :
    {rest : Text} {ts : List Token}
    → Lexes rest ts
    → Lexes (b'=' ∷ rest) (token equals (b'=' ∷ []) ∷ ts)
unfolding lex_text lex_one
Lexes-equals h = more refl refl h

IsBoundary-suffix : (style : Style) (k rest : Text) → IsBoundary (style_suffix style k ++ rest)
unfolding is_identifier_rune
IsBoundary-suffix dotted k rest = refl
IsBoundary-suffix bracketed k rest = refl

Lexes-style_suffix :
    (style : Style) {k : Text} (rest : Text) (ts : List Token)
    → IsName k
    → IsBoundary rest
    → Lexes rest ts
    → Lexes (style_suffix style k ++ rest) (style_tokens style k ++ ts)
unfolding is_identifier_rune
Lexes-style_suffix dotted rest ts n b h = Lexes-dot (Lexes-IsName rest ts n b h)
Lexes-style_suffix bracketed {k} rest ts n b h =
    rw append_assoc (Lexes-left (Lexes-IsName _ _ n refl (Lexes-right h)))

module _ {quote : Text → Text} (quotes : QuotesPlain quote) where
  -- A printed expression is its tokens, in front of any text that does not prolong a name.
  pub Lexes-print_expression :
      (e : Expression) (rest : Text) (ts : List Token)
      → IsPath e
      → IsBoundary rest
      → Lexes rest ts
      → Lexes (print_expression quote e ++ rest) (tokens_of e ++ ts)
  unfolding print_expression tokens_of
  Lexes-print_expression nil rest ts w b h = absurd w
  Lexes-print_expression (literal s) rest ts w b h =
      rw (quotes s w, append_assoc) (more (lex_text_quoted s rest (plain-unquoted s w)) refl h)
  Lexes-print_expression (identifier k) rest ts w b h = Lexes-IsName rest ts w b h
  Lexes-print_expression (index base k style) rest ts w b h = simp append_assoc (
      Lexes-print_expression base _ _ (w.0) (IsBoundary-suffix style k rest)
        (Lexes-style_suffix style rest ts (w.1) b h))
