-- ===== src/Fieldpath/Parser/RoundTrip.antt =====
-- What `String` printed parses back.
use kweb.Base.{
  ℕ, suc, ◌+◌, ◌<◌, false, [], ◌∷◌, ◌++◌, List, append_assoc, append-nil, Text, codes, length,
  length-append, ok, ◌≡◌, refl, arith, ◌⊎◌, ◌∙◌, ◌-◌,
}
use kweb.Lexparse.Lexer.{BaseLexer}
use kweb.Lexparse.Token.{eof, error, Token, same_type}
use kweb.Lexparse.Parser.{BaseParser, Parsed, completed}
use kweb.Lexparse.Parser.Stream.{
  Ready, head_token, peek-Ready, expect-Ready_cons, expect-Ready_nil, complete-Ready, init-Ready,
}
use kweb.Fieldpath.Lexer.{
  identifier as identifier_type, next, quoted_string, dot, left_square_bracket, token,
}
use kweb.Fieldpath.Lexer.Stream.{Lexes-nil, delivery, init-Delivers, IsName}
use kweb.Fieldpath.Syntax.{
  Style, dotted, bracketed, Expression, nil, literal, identifier, index, Condition, binary, truthy,
  negate, print_expression,
}
use kweb.Fieldpath.Parser.{
  parse_steps, parse_expression, parser_of, fuel_for, parse_expression_text,
}
use kweb.Fieldpath.Parser.Printed.{
  QuotesPlain, IsPath, style_tokens, tokens_of, Lexes-print_expression,
}

abbrev pub Parser : Type 0
Parser = BaseParser BaseLexer

abbrev pub At : Parser → List Token → Type 0
At p ts = Ready delivery p ts

-- The call leaves a parser with `ts` before it, and goes on from there as the other call does.
record GoesOn {A : Type 0} (call : A × Parser) (rest : Parser → A × Parser) (ts : List Token)
    : Type 0 where
  pub place : Parser
  pub goes_on : call ≡ rest place
  pub at : At place ts

-- One round of the loop takes one accessor.
parse_steps-style :
    (style : Style) (k : Text) (n : ℕ) (e : Expression) (p : Parser) (ts : List Token)
    → At p (style_tokens style k ++ ts)
    → GoesOn (parse_steps (suc n) e p) (parse_steps n (index e k style)) ts
unfolding parse_steps
parse_steps-style dotted k n e p ts h =
    let (e₁, h₁) = peek-Ready delivery p _ h in
    let (e₂, h₂) = expect-Ready_cons delivery _ _ _ h₁ in
    let (e₃, h₃) = expect-Ready_cons delivery _ _ _ h₂ in
    record { place = _; goes_on = rw (e₁, e₃); at = h₃ }
parse_steps-style bracketed k n e p ts h =
    let (e₁, h₁) = peek-Ready delivery p _ h in
    let (e₂, h₂) = expect-Ready_cons delivery _ _ _ h₁ in
    let (e₃, h₃) = expect-Ready_cons delivery _ _ _ h₂ in
    let (e₄, h₄) = expect-Ready_cons delivery _ _ _ h₃ in
    record { place = _; goes_on = rw (e₁, e₃); at = h₄ }

-- The accessors of an expression.
abbrev pub size : Expression → ℕ
size (index base k style) = suc (size base)
size _ = 0

GoesOn-trans :
    {A : Type 0} {call : A × Parser} {f g : Parser → A × Parser} {ts us : List Token}
    → (k : GoesOn call f ts) → GoesOn (f k.place) g us
    → GoesOn call g us
GoesOn-trans k l = record { place = l.place; goes_on = k.goes_on ∙ l.goes_on; at = l.at }

parse_literal :
    (s : Text) (n : ℕ) (p : Parser) (ts : List Token)
    → At p (token quoted_string s ∷ ts)
    → GoesOn (parse_expression n p) (parse_steps n (literal s)) ts
unfolding parse_expression
parse_literal s n p ts h =
    let (e₁, h₁) = peek-Ready delivery p _ h in
    let (e₂, h₂) = expect-Ready_cons delivery _ _ _ h₁ in
    record { place = _; goes_on = rw (e₁, e₂); at = h₂ }

parse_identifier :
    (s : Text) (n : ℕ) (p : Parser) (ts : List Token)
    → At p (token identifier_type s ∷ ts)
    → GoesOn (parse_expression n p) (parse_steps n (identifier s)) ts
unfolding parse_expression
parse_identifier s n p ts h =
    let (e₁, h₁) = peek-Ready delivery p _ h in
    let (e₂, h₂) = expect-Ready_cons delivery _ _ _ h₁ in
    record { place = _; goes_on = rw (e₁, e₂); at = h₂ }

-- `ParseExpression` reads the tokens of an expression, and is then in its loop with it.
parse_expression-tokens_of :
    (e : Expression) (n m : ℕ) (p : Parser) (ts : List Token)
    → IsPath e
    → n ≡ size e + m
    → At p (tokens_of e ++ ts)
    → GoesOn (parse_expression n p) (parse_steps m e) ts
unfolding tokens_of
parse_expression-tokens_of nil n m p ts w f h = absurd w
parse_expression-tokens_of (literal s) n m p ts w f h =
    let same : n ≡ m = omega arith in rw same (parse_literal s m p ts h)
parse_expression-tokens_of (identifier k) n m p ts w f h =
    let same : n ≡ m = omega arith in rw same (parse_identifier k m p ts h)
parse_expression-tokens_of (index base k style) n m p ts w f h =
    let inner =
      parse_expression-tokens_of base n (suc m) p (style_tokens style k ++ ts) w.0 (omega arith)
        (rw append_assoc at h) in
    GoesOn-trans inner (parse_steps-style style k m base inner.place ts inner.at)

abbrev pub Answers : {A : Type 0} → A → List Token → A × Parser → Type 0
Answers a ts result = (result.0 ≡ a) × At result.1 ts

parse_steps_end :
    (n : ℕ) (e : Expression) (p : Parser) → At p [] → Answers (ok e) [] (parse_steps (suc n) e p)
unfolding parse_steps
parse_steps_end n e p h =
    let (e₁, h₁) = peek-Ready delivery p _ h in
    let (e₂, h₂) = expect-Ready_nil delivery _ h₁ in rw e₁ (refl, h₂)

-- No accessor starts with the token, and it is no end.
abbrev pub IsStop : Token → Type 0
IsStop t =
    (same_type t.token_type dot ≡ false)
    × (same_type t.token_type left_square_bracket ≡ false)
    × (same_type t.token_type eof ≡ false)
    × (same_type t.token_type error ≡ false)

-- At such a token the loop leaves.
parse_steps_stop :
    (n : ℕ) (e : Expression) (p : Parser) (t : Token) (ts : List Token)
    → IsStop t
    → At p (t ∷ ts)
    → Answers (ok e) (t ∷ ts) (parse_steps (suc n) e p)
unfolding parse_steps
parse_steps_stop n e p t ts s h =
    let (e₁, h₁) = peek-Ready delivery p _ h in rw (e₁, s.0, s.1, s.2, s.3) (refl, h₁)

-- With enough fuel `ParseExpression` reads an expression at the end of the input.
pub parse_expression_end :
    (e : Expression) (n : ℕ) (p : Parser)
    → IsPath e
    → size e < n
    → At p (tokens_of e)
    → Answers (ok e) [] (parse_expression n p)
parse_expression_end e n p w f h =
    let inner =
      parse_expression-tokens_of e n (suc (n - suc (size e))) p [] w (omega arith)
        (rw append-nil h) in
    rw inner.goes_on (parse_steps_end (n - suc (size e)) e inner.place inner.at)

-- The same in front of an operator.
pub parse_expression_stop :
    (e : Expression) (n : ℕ) (p : Parser) (t : Token) (ts : List Token)
    → IsPath e
    → size e < n
    → IsStop t
    → At p (tokens_of e ++ t ∷ ts)
    → Answers (ok e) (t ∷ ts) (parse_expression n p)
parse_expression_stop e n p t ts w f s h =
    let inner =
      parse_expression-tokens_of e n (suc (n - suc (size e))) p (t ∷ ts) w (omega arith) h in
    rw inner.goes_on (parse_steps_stop (n - suc (size e)) e inner.place t ts s inner.at)

pub completed_lem :
    {A : Type 0} (a : A) (result : Parsed A × Parser)
    → Answers (ok a) [] result
    → completed next result ≡ ok a
unfolding completed
completed_lem a (r, p) h = rw (h.0, complete-Ready delivery p (h.1))

-- The expression starts with a name, as a condition has to.
abbrev pub StartsWithName : Expression → Type 0
StartsWithName (identifier k) = Unit
StartsWithName (index base k style) = StartsWithName base
StartsWithName _ = ⊥

-- A condition as `ParseCondition` builds it.
abbrev pub IsCondition : Condition → Type 0
IsCondition (binary left operator right) =
    StartsWithName left
    × IsPath left
    × IsPath right
    × ((operator ≡ codes "==") ⊎ (operator ≡ codes "!="))
IsCondition (truthy e) = StartsWithName e × IsPath e
IsCondition (negate c) = IsCondition c

pub head_name :
    (e : Expression) (ts : List Token)
    → StartsWithName e
    → (head_token (tokens_of e ++ ts)).token_type ≡ identifier_type
unfolding tokens_of
head_name nil ts h = absurd h
head_name (literal s) ts h = absurd h
head_name (identifier k) ts h = refl
head_name (index base k style) ts h =
    rw append_assoc (head_name base (style_tokens style k ++ ts) h)

module _ {quote : Text → Text} (quotes : QuotesPlain quote) where
  pub size-lt-length : (e : Expression) → IsPath e → size e < length (print_expression quote e)
  unfolding print_expression
  size-lt-length nil w = absurd w
  size-lt-length (literal s) w = rw (quotes s w) (omega arith)
  size-lt-length (identifier k) (IsName.name h a) = omega arith
  size-lt-length (index base k dotted) w =
      omega
        (arith, size-lt-length base w.0, length-append {0} (print_expression quote base) (b'.' ∷ k))
  size-lt-length (index base k bracketed) w = omega (
    arith,
    size-lt-length base w.0,
    length-append {0} (print_expression quote base) (b'[' ∷ (k ++ b']' ∷ [])),
  )

  -- Parsing the text that `String` prints of an expression gives that expression back, where its
  -- keys are names and its strings are plain.
  pub parse_expression_text-print :
      (e : Expression) → IsPath e → parse_expression_text (print_expression quote e) ≡ ok e
  unfolding parse_expression_text
  parse_expression_text-print e w =
      let s = print_expression quote e in
      let lexes =
        rw (append-nil, append-nil) at (Lexes-print_expression quotes e [] [] w tt Lexes-nil) in
      completed_lem e _ (
        parse_expression_end e (fuel_for s) (parser_of s) w (omega (arith, size-lt-length e w))
          (init-Ready delivery _ _ (init-Delivers s (tokens_of e) lexes)))
