-- ===== src/Fieldpath/Parser/Ends.antt =====
-- For every text the parser ends by itself, and what it accepts is well formed.
use kweb.Base.{
  ℕ, ◌+◌, ◌≤◌, ◌<◌, true, [], ◌∷◌, length, Text, none, some, err, Result-cases, ◌≡◌, ◌≢◌, inl, inr,
  ap, arith, ◌∙◌,
}
use kweb.Lexparse.Lexer.{BaseLexer}
use kweb.Lexparse.Lexer.View.{Reads}
use kweb.Lexparse.Token.{Token, same_type}
use kweb.Lexparse.Parser.{ParseError, out_of_fuel, ◌>>=◌, peek_token_type, expect, Parsed, ◌>>=!◌}
use kweb.Fieldpath.Lexer.{identifier as identifier_type, quoted_string, next}
use kweb.Fieldpath.Lexer.Tokens.{weight, IsGood}
use kweb.Fieldpath.Syntax.{Expression, literal, identifier}
use kweb.Fieldpath.Parser.{Method, parse_steps, parse_expression}
use kweb.Fieldpath.Parser.RoundTrip.{StartsWithName}
use kweb.Fieldpath.Parser.States.{Parser, parser, IsSound, peek-IsSound, expect_shown}
use kweb.Fieldpath.Parser.Total.{IsNamed, Post, Unless, Post-mono, Post-if, parse_steps-Post}

-- A named expression that starts with a name.
abbrev pub IsHeaded : Expression → Type 0
IsHeaded e = StartsWithName e × IsNamed e

pub peek_token_type-IsSound :
    (b : ℕ) (p : Parser) → IsSound b p → IsSound b (peek_token_type next p).1
peek_token_type-IsSound b p h = elim (peek-IsSound b p h) [
  | inl (x, l, eq, ne) ↦ rw eq ne
  | inr ((t, l, cs, eq, r, k, g), fresh) ↦ rw eq (cs, r, k, g)
]

pub Post-err :
    {A : Type 0} {P : A → Type 0} (b : ℕ) (e : ParseError) (p : Parser)
    → e ≢ out_of_fuel
    → IsSound b p
    → Post P b (err e, p)
Post-err b e p ne s = record { fuelled = λ h. ne (cc); answers = λ a h _. cc; sound = s }

pub Post-bind :
    {A B : Type 0} {P : A → Type 0} {Q : B → Type 0} (b : ℕ) (m : Method (Parsed A))
    (f : A → Method (Parsed B)) (p : Parser)
    → Post P b (m p)
    → ((a : A) (q : Parser) → IsSound b q → Unless (P a) q → Post Q b (f a q))
    → Post Q b ((m >>=! f) p)
Post-bind b m f p h k = elim (Result-cases (m p).0) [
  | inl (a, e) ↦ rw (e, ◌>>=!◌) (k a (m p).1 h.sound (h.answers a e))
  | inr (x, e) ↦ rw (e, ◌>>=!◌) (Post-err b x (m p).1 (λ y. h.fuelled (e ∙ ap err y)) h.sound)
]

-- At an identifier the expression starts with a name.
identifier_branch :
    (m b : ℕ) (t : Token) (l : BaseLexer) (cs : Text)
    → b < m
    → Reads l cs
    → weight t + length cs ≤ b
    → IsGood t
    → same_type t.token_type identifier_type ≡ true
    → Post IsHeaded b (
        (do t ← expect next identifier_type; parse_steps m (identifier t.value))
          (parser l (t ∷ []) none))
identifier_branch m b t l cs f r k g same = rw (expect_shown identifier_type t l same) (
    Post-mono (length cs) b _
      (parse_steps-Post IsHeaded (λ e k style h n. (h.0, (h.1, n))) m (length cs) _ _ (omega arith)
        (cs, r, omega arith) (λ _. (tt, g.named same)))
      (omega arith))

quoted_branch :
    (m b : ℕ) (t : Token) (l : BaseLexer) (cs : Text)
    → b < m
    → Reads l cs
    → weight t + length cs ≤ b
    → same_type t.token_type quoted_string ≡ true
    → Post IsNamed b (
        (do t ← expect next quoted_string; parse_steps m (literal t.value))
          (parser l (t ∷ []) none))
quoted_branch m b t l cs f r k same = rw (expect_shown quoted_string t l same) (
    Post-mono (length cs) b _
      (parse_steps-Post IsNamed (λ e k style h n. (h, n)) m (length cs) _ _ (omega arith)
        (cs, r, omega arith) (λ _. tt))
      (omega arith))

Post-weaken :
    {A : Type 0} {P Q : A → Type 0} (b : ℕ) (r : Parsed A × Parser)
    → Post P b r
    → ((a : A) → P a → Q a)
    → Post Q b r
Post-weaken b r h k = record {
  fuelled = h.fuelled;
  answers = λ a e f. k a (h.answers a e f);
  sound = h.sound;
}

-- `ParseExpression`, at any sound parser.
pub parse_expression-Post :
    (m b : ℕ) (p : Parser) → b < m → IsSound b p → Post IsNamed b (parse_expression m p)
unfolding parse_expression
parse_expression-Post m b p f h = elim (peek-IsSound b p h) [
  | inl (x, l, eq, ne) ↦
      rw eq (Post-err b _ _ (λ y. cc) (peek_token_type-IsSound b (parser l [] (some x)) ne))
  | inr ((t, l, cs, eq, r, k, g), fresh) ↦
      let here : IsSound b (parser l (t ∷ []) none) = (cs, r, k, g) in
      rw eq (
        Post-if b (same_type t.token_type identifier_type) _ _ _
          (λ same. Post-weaken b _ (identifier_branch m b t l cs f r k g same) (λ a w. w.1))
          λ _.
            Post-if b (same_type t.token_type quoted_string) _ _ _ (quoted_branch m b t l cs f r k)
              λ _. Post-err b _ _ (λ y. cc) (peek_token_type-IsSound b _ here))
]

parse_expression_at :
    (m : ℕ) (t : Token) (l : BaseLexer)
    → same_type t.token_type identifier_type ≡ true
    → parse_expression m (parser l (t ∷ []) none)
      ≡ (do t ← expect next identifier_type; parse_steps m (identifier t.value))
          (parser l (t ∷ []) none)
unfolding parse_expression peek_token_type
parse_expression_at m t l same = rw same

-- The same behind a look at an identifier.
pub parse_expression-IsHeaded :
    (m b : ℕ) (t : Token) (l : BaseLexer) (cs : Text)
    → b < m
    → Reads l cs
    → weight t + length cs ≤ b
    → IsGood t
    → same_type t.token_type identifier_type ≡ true
    → Post IsHeaded b (parse_expression m (parser l (t ∷ []) none))
parse_expression-IsHeaded m b t l cs f r k g same =
    rw (parse_expression_at m t l same) (identifier_branch m b t l cs f r k g same)
