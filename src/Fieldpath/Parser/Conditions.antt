-- ===== src/Fieldpath/Parser/Conditions.antt =====
-- What `String` printed of a condition parses back.
use kweb.Base.{
  ℕ, zero, suc, ◌+◌, ◌<◌, ◌≤◌, [], ◌∷◌, ◌++◌, List, append_assoc, append-nil, Text, codes, length,
  length-append, ok, ◌≡◌, refl, arith, inl, inr,
}
use kweb.Lexparse.Token.{Token}
use kweb.Lexparse.Parser.{◌>>=!◌}
use kweb.Lexparse.Parser.Stream.{peek-Ready, expect-Ready_cons, init-Ready}
use kweb.Fieldpath.Lexer.{negation, equals, token, is_identifier_rune}
use kweb.Fieldpath.Lexer.Stream.{Lexes, Lexes-nil, delivery, init-Delivers}
use kweb.Fieldpath.Syntax.{
  Expression, Condition, binary, truthy, negate, print_expression, print_condition,
}
use kweb.Fieldpath.Parser.{
  parse_right, parse_operator, parse_condition, parser_of, fuel_for, parse_condition_text,
}
use kweb.Fieldpath.Parser.Printed.{
  QuotesPlain, IsPath, tokens_of, Lexes-print_expression, Lexes-negation, Lexes-equals,
}
use kweb.Fieldpath.Parser.RoundTrip.{
  Parser, At, Answers, size, size-lt-length, parse_expression_end, parse_expression_stop,
  completed_lem, IsCondition, StartsWithName, head_name,
}

abbrev equals_token : Token
equals_token = token equals (b'=' ∷ [])

abbrev negation_token : Token
negation_token = token negation (b'!' ∷ [])

-- The rounds that a condition takes.
abbrev rounds : Condition → ℕ
rounds (binary left operator right) = suc (size left + size right)
rounds (truthy e) = suc (size e)
rounds (negate c) = suc (rounds c)

parse_right_end :
    (operator : Text) (left right : Expression) (n : ℕ) (p : Parser)
    → IsPath right
    → size right < n
    → At p (equals_token ∷ tokens_of right)
    → Answers (ok (binary left operator right)) [] (parse_right n operator left p)
unfolding parse_right
parse_right_end operator left right n p w f h =
    let (e₁, h₁) = expect-Ready_cons delivery p _ _ h in
    let (e₂, h₂) = parse_expression_end right n _ w f h₁ in rw (e₂, ◌>>=!◌) (refl, h₂)

parse_operator_equals :
    (left right : Expression) (n : ℕ) (p : Parser)
    → IsPath right
    → size right < n
    → At p (equals_token ∷ equals_token ∷ tokens_of right)
    → Answers (ok (binary left (codes "==") right)) [] (parse_operator n left p)
unfolding parse_operator
parse_operator_equals left right n p w f h =
    let (e₁, h₁) = peek-Ready delivery p _ h in
    let (e₂, h₂) = expect-Ready_cons delivery _ _ _ h₁ in
    rw e₁ (parse_right_end _ left right n _ w f h₂)

parse_operator_differs :
    (left right : Expression) (n : ℕ) (p : Parser)
    → IsPath right
    → size right < n
    → At p (negation_token ∷ equals_token ∷ tokens_of right)
    → Answers (ok (binary left (codes "!=") right)) [] (parse_operator n left p)
unfolding parse_operator
parse_operator_differs left right n p w f h =
    let (e₁, h₁) = peek-Ready delivery p _ h in
    let (e₂, h₂) = expect-Ready_cons delivery _ _ _ h₁ in
    rw e₁ (parse_right_end _ left right n _ w f h₂)

parse_operator_end :
    (e : Expression) (n : ℕ) (p : Parser)
    → At p []
    → Answers (ok (truthy e)) [] (parse_operator n e p)
unfolding parse_operator
parse_operator_end e n p h = let (e₁, h₁) = peek-Ready delivery p _ h in rw e₁ (refl, h₁)

-- `ParseCondition` reads the tokens of a condition to their end.
IsRead : Condition → List Token → Type 0
IsRead c ts =
    (n : ℕ) (p : Parser) → rounds c < n → At p ts → Answers (ok c) [] (parse_condition n p)

truthy-IsRead : (e : Expression) → StartsWithName e → IsPath e → IsRead (truthy e) (tokens_of e)
unfolding IsRead parse_condition
truthy-IsRead e s w zero p f h = absurd (omega arith)
truthy-IsRead e s w (suc n) p f h =
    let (e₁, h₁) = peek-Ready delivery p _ h in
    let (e₂, h₂) = parse_expression_end e n _ w (omega arith) h₁ in
    let named = rw append-nil at (head_name e [] s) in
    rw (e₁, named, e₂, ◌>>=!◌) (parse_operator_end e n _ h₂)

equals-IsRead :
    (left right : Expression)
    → StartsWithName left
    → IsPath left
    → IsPath right
    → IsRead
        (binary left (codes "==") right)
        (tokens_of left ++ equals_token ∷ equals_token ∷ tokens_of right)
unfolding IsRead parse_condition
equals-IsRead left right s w v zero p f h = absurd (omega arith)
equals-IsRead left right s w v (suc n) p f h =
    let (e₁, h₁) = peek-Ready delivery p _ h in
    let (e₂, h₂) = parse_expression_stop left n _ _ _ w (omega arith) (refl, refl, refl, refl) h₁ in
    rw (e₁, head_name left _ s, e₂, ◌>>=!◌)
      (parse_operator_equals left right n _ v (omega arith) h₂)

differs-IsRead :
    (left right : Expression)
    → StartsWithName left
    → IsPath left
    → IsPath right
    → IsRead
        (binary left (codes "!=") right)
        (tokens_of left ++ negation_token ∷ equals_token ∷ tokens_of right)
unfolding IsRead parse_condition
differs-IsRead left right s w v zero p f h = absurd (omega arith)
differs-IsRead left right s w v (suc n) p f h =
    let (e₁, h₁) = peek-Ready delivery p _ h in
    let (e₂, h₂) = parse_expression_stop left n _ _ _ w (omega arith) (refl, refl, refl, refl) h₁ in
    rw (e₁, head_name left _ s, e₂, ◌>>=!◌)
      (parse_operator_differs left right n _ v (omega arith) h₂)

negate-IsRead :
    (c : Condition) (ts : List Token) → IsRead c ts → IsRead (negate c) (negation_token ∷ ts)
unfolding IsRead parse_condition
negate-IsRead c ts inner zero p f h = absurd (omega arith)
negate-IsRead c ts inner (suc n) p f h =
    let (e₁, h₁) = peek-Ready delivery p _ h in
    let (e₂, h₂) = expect-Ready_cons delivery _ _ _ h₁ in
    let (e₃, h₃) = inner n _ (omega arith) h₂ in rw (e₁, e₃, ◌>>=!◌) (refl, h₃)

module _ {quote : Text → Text} (quotes : QuotesPlain quote) where
  record IsCovered (c : Condition) : Type 0 where
    tokens : List Token
    lexes : Lexes (print_condition quote c) tokens
    reads : IsRead c tokens
    bound : rounds c ≤ length (print_condition quote c)

  Lexes-alone : (e : Expression) → IsPath e → Lexes (print_expression quote e) (tokens_of e)
  Lexes-alone e w =
      rw (append-nil, append-nil) at (Lexes-print_expression quotes e [] [] w tt Lexes-nil)

  length-binary :
      (left right : Expression) (a b : ℕ)
      → IsPath left
      → IsPath right
      → rounds (binary left (a ∷ b ∷ []) right)
        ≤ length (print_expression quote left ++ a ∷ b ∷ print_expression quote right)
  length-binary left right a b w v = omega (
    arith,
    size-lt-length quotes left w,
    size-lt-length quotes right v,
    length-append {0} (print_expression quote left) (a ∷ b ∷ print_expression quote right),
  )

  cover : (c : Condition) → IsCondition c → IsCovered c
  unfolding print_condition is_identifier_rune
  cover (binary left operator right) (s, w, v, inl e) = rw e (record {
    tokens = tokens_of left ++ equals_token ∷ equals_token ∷ tokens_of right;
    lexes = rw append_assoc (
        Lexes-print_expression quotes left _ _ w refl
          (Lexes-equals (Lexes-equals (Lexes-alone right v))));
    reads = equals-IsRead left right s w v;
    bound = rw append_assoc (length-binary left right b'=' b'=' w v);
  })
  cover (binary left operator right) (s, w, v, inr e) = rw e (record {
    tokens = tokens_of left ++ negation_token ∷ equals_token ∷ tokens_of right;
    lexes = rw append_assoc (
        Lexes-print_expression quotes left _ _ w refl
          (Lexes-negation (Lexes-equals (Lexes-alone right v))));
    reads = differs-IsRead left right s w v;
    bound = rw append_assoc (length-binary left right b'!' b'=' w v);
  })
  cover (truthy e) (s, w) = record {
    tokens = tokens_of e;
    lexes = Lexes-alone e w;
    reads = truthy-IsRead e s w;
    bound = size-lt-length quotes e w;
  }
  cover (negate c) w =
      let inner = cover c w in
      record {
        tokens = negation_token ∷ inner.tokens;
        lexes = Lexes-negation inner.lexes;
        reads = negate-IsRead c inner.tokens inner.reads;
        bound = omega (arith, inner.bound);
      }

  -- Parsing the text that `String` prints of a condition gives that condition back, where it is a
  -- comparison by == or !=, a value or a negation of such, each comparison and value starts with a
  -- name, and the keys are names and the strings plain.
  pub parse_condition_text-print :
      (c : Condition) → IsCondition c → parse_condition_text (print_condition quote c) ≡ ok c
  unfolding parse_condition_text IsRead
  parse_condition_text-print c w =
      let k = cover c w in
      let s = print_condition quote c in
      completed_lem c _ (
        k.reads (fuel_for s) (parser_of s) (omega (arith, k.bound))
          (init-Ready delivery _ _ (init-Delivers s k.tokens k.lexes)))
