-- ===== src/Fieldpath/Parser/Total.antt =====
-- For every input the parser ends by itself, and what it accepts is well formed.
use kweb.Base.{
  ℕ, Bool, zero, suc, ◌+◌, ◌≤◌, ◌<◌, true, false, [], ◌∷◌, length, Text, none, ok, err, ◌≡◌, ◌≢◌,
  inl, inr, if◌then◌else◌, subst, refl, arith,
}
use kweb.Lexparse.Lexer.{BaseLexer}
use kweb.Lexparse.Lexer.View.{Reads}
use kweb.Lexparse.Token.{kind, eof, Token, same_type, same_type_iff}
use kweb.Lexparse.Parser.{out_of_fuel, ◌>>=◌, ◌>>◌, expect, Parsed}
use kweb.Fieldpath.Lexer.{
  identifier as identifier_type, dot, left_square_bracket, right_square_bracket, next,
}
use kweb.Fieldpath.Lexer.Stream.{IsName}
use kweb.Fieldpath.Lexer.Tokens.{weight}
use kweb.Fieldpath.Syntax.{Expression, nil, literal, identifier, index, dotted, bracketed, Style}
use kweb.Fieldpath.Parser.{Method, parse_steps}
use kweb.Fieldpath.Parser.States.{
  Parser, parser, IsSound, IsSound-mono, peek-IsSound, expect_shown, expect-IsSound, expect_keeps,
}

-- An expression that is not nil, with names for keys.
abbrev pub IsNamed : Expression → Type 0
IsNamed nil = ⊥
IsNamed (literal s) = Unit
IsNamed (identifier k) = IsName k
IsNamed (index base k style) = IsNamed base × IsName k

-- The call kept within its fuel, and its answer is as `P` says unless the parser has failed.
pub record Post {A : Type 0} (P : A → Type 0) (n : ℕ) (r : Parsed A × Parser) : Type 0 where
  pub fuelled : r.0 ≢ err out_of_fuel
  pub answers : (a : A) → r.0 ≡ ok a → r.1.failure ≡ none → P a
  pub sound : IsSound n r.1

-- The parser has failed, or the fact holds.
abbrev pub Unless : Type 0 → Parser → Type 0
Unless P p = p.failure ≡ none → P

-- A token of this kind is no end, so it takes a rune.
pub weight-kind : (k : ℕ) (t : Token) → same_type t.token_type (kind k) ≡ true → weight t ≡ 1
weight-kind k t h = ground (arith, same_type_iff t.token_type (kind k))

-- The key behind an accessor's first token: the identifier's name, unless the parser failed.
expect_key :
    (n : ℕ) (p : Parser)
    → IsSound n p
    → IsSound n (expect next identifier_type p).1
      × Unless (IsName (expect next identifier_type p).0.value) (expect next identifier_type p).1
expect_key n p h = elim (expect-IsSound n b'I' p h) [
  | inl (e, l, eq, ne) ↦ rw eq (ne, λ x. cc)
  | inr ((t, l, cs, eq, r, b, g), same) ↦ rw eq ((cs, r, omega arith), λ _. g.named same)
]

-- `Expect` of another type keeps the parser sound, and a failure stays.
pub expect_other : (n k : ℕ) (p : Parser) → IsSound n p → IsSound n (expect next (kind k) p).1
expect_other n k p h = elim (expect-IsSound n k p h) [
  | inl (e, l, eq, ne) ↦ rw eq ne
  | inr ((t, l, cs, eq, r, b, g), same) ↦ rw eq (cs, r, omega arith)
]

-- A larger bound does as well.
pub Post-mono :
    {A : Type 0} {P : A → Type 0} (b c : ℕ) (r : Parsed A × Parser)
    → Post P b r
    → b ≤ c
    → Post P c r
Post-mono b c r h k = record {
  fuelled = h.fuelled;
  answers = h.answers;
  sound = IsSound-mono b c r.1 h.sound k;
}

pub Post-if :
    {A : Type 0} {P : A → Type 0} (b : ℕ) (c : Bool) (f g : Method (Parsed A)) (p : Parser)
    → (c ≡ true → Post P b (f p))
    → (c ≡ false → Post P b (g p))
    → Post P b ((if c then f else g) p)
Post-if b true f g p hf hg = hf refl
Post-if b false f g p hf hg = hg refl

-- A method that answers a value.
pub Post-ok :
    {A : Type 0} {P : A → Type 0} (b : ℕ) (a : A) (p : Parser)
    → Unless (P a) p
    → IsSound b p
    → Post P b (ok a, p)
Post-ok {P = P} b a p h s = record {
  fuelled = cc;
  answers = λ c e k. subst P (cc) (h k);
  sound = s;
}

-- Accessors keep the property.
abbrev pub IsClosed : (Expression → Type 0) → Type 0
IsClosed Q = (e : Expression) (k : Text) (style : Style) → Q e → IsName k → Q (index e k style)

module _ (Q : Expression → Type 0) (closed : IsClosed Q) (b : ℕ) (e : Expression)
    (go : Expression → Method (Parsed Expression))
    (loop : (c : ℕ) (e : Expression) (p : Parser)
      → c < b
      → IsSound c p
      → Unless (Q e) p
      → Post Q c (go e p))
    (named : Q e) (t : Token) (l : BaseLexer) (cs : Text) (reads : Reads l cs)
    (fits : weight t + length cs ≤ b) where
  -- The branch of a dot.
  dot_branch :
      same_type t.token_type dot ≡ true
      → Post Q b (
          (do expect next dot; id ← expect next identifier_type; go (index e id.value dotted))
            (parser l (t ∷ []) none))
  dot_branch same =
      let one = weight-kind b'.' t same in
      let (s, key) = expect_key (length cs) (parser l [] none) (cs, reads, omega arith) in
      rw (expect_shown dot t l same) (
        Post-mono (length cs) b _
          (loop (length cs) _ _ (omega arith) s (λ k. closed e _ dotted named (key k)))
          (omega arith))

  bracket_branch :
      same_type t.token_type left_square_bracket ≡ true
      → Post Q b (
          (do
            expect next left_square_bracket
            id ← expect next identifier_type
            expect next right_square_bracket
            go (index e id.value bracketed))
            (parser l (t ∷ []) none))
  bracket_branch same =
      let one = weight-kind b'[' t same in
      let (s, key) = expect_key (length cs) (parser l [] none) (cs, reads, omega arith) in
      let s' = expect_other (length cs) b']' _ s in
      rw (expect_shown left_square_bracket t l same) (
        Post-mono (length cs) b _
          (loop (length cs) _ _ (omega arith) s'
            (λ k. closed e _ bracketed named (key (expect_keeps right_square_bracket _ k))))
          (omega arith))

-- With more fuel than runes the loop ends by itself, and its answer has what each
-- accessor keeps.
pub parse_steps-Post :
    (Q : Expression → Type 0) (closed : IsClosed Q) (m b : ℕ) (e : Expression) (p : Parser)
    → b < m
    → IsSound b p
    → Unless (Q e) p
    → Post Q b (parse_steps m e p)
unfolding parse_steps
parse_steps-Post Q closed zero b e p f h w = absurd (omega arith)
parse_steps-Post Q closed (suc m) b e p f h w = elim (peek-IsSound b p h) [
  | inl (x, l, eq, ne) ↦ rw eq (record { fuelled = cc; answers = λ a _ k. cc; sound = ne })
  | inr ((t, l, cs, eq, r, k, g), fresh) ↦
      let loop = λ (c : ℕ) (e : Expression) (p : Parser) (lt : c < b).
        parse_steps-Post Q closed m c e p (omega arith) in
      let here : IsSound b (parser l (t ∷ []) none) = (cs, r, k, g) in
      rw eq (
        Post-if b (same_type t.token_type dot) _ _ _
          (dot_branch Q closed b e (parse_steps m) loop (w fresh) t l cs r k)
          λ _.
            Post-if b (same_type t.token_type left_square_bracket) _ _ _
              (bracket_branch Q closed b e (parse_steps m) loop (w fresh) t l cs r k)
              λ _.
                Post-if b (same_type t.token_type eof) _ _ _
                  (λ same.
                    rw (expect_shown eof t l same)
                      (Post-ok b e (parser l [] none) (λ _. w fresh) (cs, r, omega arith)))
                  λ _. rw (g.no_error) (Post-ok b e _ (λ _. w fresh) here))
]
