-- ===== src/Mustache/Parser/Items.antt =====
-- Every outcome of `ParseExpression` in front of any tokens of the lexer.
use kweb.Base.{
  ◌<◌, false, List, [], ◌∷◌, ◌++◌, append_assoc, length, Text, ok, err, ◌≡◌, ◌⊎◌, inl, inr, refl,
  ap, arith,
}
use kweb.Lexparse.Lexer.{BaseLexer}
use kweb.Lexparse.Token.{Token, same_type}
use kweb.Lexparse.Parser.{BaseParser, unexpected_token, expect, Parsed}
use kweb.Lexparse.Parser.Stream.{Ready, head_token, peek-Ready, expect-Ready_cons}
use kweb.Lexparse.Parser.Failure.{IsFailed, expect_failed, expect_other, unexpected-Ready}
use kweb.Mustache.Lexer.{left_mustache, right_mustache, other, token, next}
use kweb.Mustache.Lexer.Stream.{
  delivery, left, right, plain, ArePieces, no_pieces, piece, Undoubled, values,
}
use kweb.Mustache.Parser.{Expression, literal, mustache, parse_expression}

-- The text that an expression was read from.
abbrev pub source : Expression → Text
source (literal t) = t
source (mustache t) = b'{' ∷ b'{' ∷ (t ++ b'}' ∷ b'}' ∷ [])

abbrev pub sources : List Expression → Text
sources [] = []
sources (e ∷ es) = source e ++ sources es

-- An expression ends where it does: no double brace starts in its text, in front of the rest.
abbrev pub Parted : Expression → Text → Type 0
Parted (literal t) rest = Undoubled t rest
Parted (mustache t) rest = Undoubled t (b'}' ∷ b'}' ∷ rest)

abbrev pub AllParted : List Expression → Type 0
AllParted [] = Unit
AllParted (e ∷ es) = Parted e (sources es) × AllParted es

abbrev pub Parser : Type 0
Parser = BaseParser BaseLexer

abbrev pub At : Parser → List Token → Type 0
At p ts = Ready delivery p ts

-- An expression was read off the tokens.
pub record Took (ts : List Token) (r : Parsed Expression × Parser) : Type 0 where
  pub item : Expression
  pub rest : List Token
  pub answer : r.0 ≡ ok item
  pub at : At r.1 rest
  pub pieces : ArePieces rest
  pub parted : Parted item (values rest)
  pub whole : source item ++ values rest ≡ values ts
  pub shorter : length rest < length ts

-- An expression was answered, but the parser has failed on the way.
pub record Slipped {A : Type 0} (r : Parsed A × Parser) : Type 0 where
  pub item : A
  pub answer : r.0 ≡ ok item
  pub failed : IsFailed r.1

-- The method refused a token.
abbrev pub Refused : {A : Type 0} → Parsed A → Type 0
Refused r = (t : Token) × (r ≡ err (unexpected_token t))

abbrev pub ItemOutcome : List Token → Parsed Expression × Parser → Type 0
ItemOutcome ts r = Took ts r ⊎ Slipped r ⊎ Refused r.0

pub literal-Outcome :
    (s : Text) (ts : List Token) (p : Parser)
    → Undoubled s (values ts)
    → ArePieces ts
    → At p (token other s ∷ ts)
    → Took (token other s ∷ ts) (parse_expression p)
unfolding parse_expression
literal-Outcome s ts p u k h =
    let (e₁, h₁) = peek-Ready delivery p _ h in
    let (e₂, h₂) = peek-Ready delivery _ _ h₁ in
    let (e₃, h₃) = expect-Ready_cons delivery _ _ _ h₂ in
    rw (e₁, e₂)
      (record {
        item = literal s;
        rest = ts;
        answer = ap (λ t. ok (literal t.value)) e₃;
        at = h₃;
        pieces = k;
        parted = u;
        whole = refl;
        shorter = omega arith;
      })

abbrev pub double_left : Token
double_left = token left_mustache (b'{' ∷ b'{' ∷ [])

abbrev pub double_right : Token
double_right = token right_mustache (b'}' ∷ b'}' ∷ [])

-- `ParseExpression` at a double brace is a row of `Expect`s.
braced :
    (ts : List Token) (p : Parser)
    → At p (double_left ∷ ts)
    → (p' : Parser) × At p' ts
      × (parse_expression p ≡ (
        ok (mustache (expect next other p').0.value),
        (expect next right_mustache (expect next other p').1).1,
      ))
unfolding parse_expression
braced ts p h =
    let (e₁, h₁) = peek-Ready delivery p _ h in
    let (e₂, h₂) = peek-Ready delivery _ _ h₁ in
    let (e₃, h₃) = expect-Ready_cons delivery _ _ _ h₂ in (_, h₃, rw (e₁, e₂))

pub mustache-Took :
    (s : Text) (ts : List Token) (p : Parser)
    → Undoubled s (values (double_right ∷ ts))
    → ArePieces ts
    → At p (double_left ∷ token other s ∷ double_right ∷ ts)
    → Took (double_left ∷ token other s ∷ double_right ∷ ts) (parse_expression p)
mustache-Took s ts p u k h =
    let (p', h', e) = braced _ p h in
    let (e₁, h₁) = expect-Ready_cons delivery p' _ _ h' in
    let (e₂, h₂) = expect-Ready_cons delivery _ _ _ h₁ in
    rw e (record {
      item = mustache s;
      rest = ts;
      answer = ap (λ t. ok (mustache t.value)) e₁;
      at = h₂;
      pieces = k;
      parted = u;
      whole = ap (λ r. b'{' ∷ b'{' ∷ r) (append_assoc s (b'}' ∷ b'}' ∷ []) (values ts));
      shorter = omega arith;
    })

-- No closing brace behind the text.
mustache_unclosed :
    (s : Text) (ts : List Token) (p : Parser)
    → same_type (head_token ts).token_type right_mustache ≡ false
    → At p (double_left ∷ token other s ∷ ts)
    → Slipped (parse_expression p)
mustache_unclosed s ts p k h =
    let (p', h', e) = braced _ p h in
    let (e₁, h₁) = expect-Ready_cons delivery p' _ _ h' in
    rw e
      (record { item = _; answer = refl; failed = expect_other delivery right_mustache _ ts k h₁ })

-- No text behind the opening brace.
mustache_empty :
    (ts : List Token) (p : Parser)
    → same_type (head_token ts).token_type other ≡ false
    → At p (double_left ∷ ts)
    → Slipped (parse_expression p)
mustache_empty ts p k h =
    let (p', h', e) = braced _ p h in
    let failed = expect_other delivery other p' ts k h' in
    rw (e, expect_failed next right_mustache _ refl failed)
      (record { item = _; answer = refl; failed = failed })

refuse-Outcome :
    (ts : List Token) (p : Parser)
    → same_type (head_token ts).token_type other ≡ false
    → same_type (head_token ts).token_type left_mustache ≡ false
    → At p ts
    → Refused (parse_expression p).0
unfolding parse_expression
refuse-Outcome ts p k l h =
    let (e, h₁) = peek-Ready delivery p _ h in
    rw (e, k, l) (head_token ts, ap err (unexpected-Ready delivery _ ts h₁))

-- Every outcome of `ParseExpression`.
pub parse_expression-Outcome :
    {ts : List Token} (p : Parser) → ArePieces ts → At p ts → ItemOutcome ts (parse_expression p)
parse_expression-Outcome p no_pieces h = inr (inr (refuse-Outcome [] p refl refl h))
parse_expression-Outcome p (piece right k) h = inr (inr (refuse-Outcome _ p refl refl h))
parse_expression-Outcome p (piece (plain s u) k) h = inl (literal-Outcome s _ p u k h)
parse_expression-Outcome p (piece left no_pieces) h = inr (inl (mustache_empty [] p refl h))
parse_expression-Outcome p (piece left (piece left k)) h = inr (inl (mustache_empty _ p refl h))
parse_expression-Outcome p (piece left (piece right k)) h = inr (inl (mustache_empty _ p refl h))
parse_expression-Outcome p (piece left (piece (plain s _) no_pieces)) h =
    inr (inl (mustache_unclosed s [] p refl h))
parse_expression-Outcome p (piece left (piece (plain s _) (piece left k))) h =
    inr (inl (mustache_unclosed s _ p refl h))
parse_expression-Outcome p (piece left (piece (plain s _) (piece (plain r _) k))) h =
    inr (inl (mustache_unclosed s _ p refl h))
parse_expression-Outcome p (piece left (piece (plain s u) (piece right k))) h =
    inl (mustache-Took s _ p u k h)
