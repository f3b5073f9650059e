-- ===== src/Fieldpath/Parser/Accepts.antt =====
-- What the helpers of helpers.go answer, whatever the text: the parser ends by itself, and what it
-- accepts is well formed.
use kweb.Base.{
  ℕ, zero, suc, ◌+◌, ◌≤◌, ◌<◌, [], ◌∷◌, length, Text, codes, none, some, Option-cases, ok, err, ◌≡◌,
  ◌≢◌, ◌⊎◌, inl, inr, ap, refl, arith, ◌∙◌, true,
}
use kweb.Lexparse.Lexer.{BaseLexer}
use kweb.Lexparse.Lexer.View.{Reads, init-Reads}
use kweb.Lexparse.Token.{kind, eof, Token, same_type}
use kweb.Lexparse.Parser.{out_of_fuel, init, pure, expect, complete, Parsed, ◌>>=!◌, completed}
use kweb.Fieldpath.Lexer.{identifier as identifier_type, equals, negation, next}
use kweb.Fieldpath.Lexer.Tokens.{weight}
use kweb.Fieldpath.Syntax.{Expression, Condition, binary, truthy, negate}
use kweb.Fieldpath.Parser.{
  Method, parse_expression, parse_right, parse_operator, parse_condition, parser_of, fuel_for,
  parse_expression_text, parse_condition_text,
}
use kweb.Fieldpath.Parser.States.{
  Parser, parser, IsSound, peek-IsSound, expect_shown, complete-IsSound, unexpected_lem,
}
use kweb.Fieldpath.Parser.Total.{
  IsNamed, Post, Unless, Post-mono, Post-if, Post-ok, weight-kind, expect_other,
}
use kweb.Fieldpath.Parser.Ends.{
  IsHeaded, peek_token_type-IsSound, Post-err, Post-bind, parse_expression-Post,
  parse_expression-IsHeaded,
}

-- A condition that compares by == or !=, whose values are named and start with a name.
abbrev pub IsNamedCondition : Condition → Type 0
IsNamedCondition (binary left operator right) =
    IsHeaded left × IsNamed right × ((operator ≡ codes "==") ⊎ (operator ≡ codes "!="))
IsNamedCondition (truthy e) = IsHeaded e
IsNamedCondition (negate c) = IsNamedCondition c

completed-Post :
    {A : Type 0} {P : A → Type 0} (b : ℕ) (r : Parsed A × Parser)
    → Post P b r
    → ((a : A) → completed next r ≡ ok a → P a) × (completed next r ≢ err out_of_fuel)
unfolding completed
completed-Post b (err e, p) h = (λ a k. cc, λ k. h.fuelled (cc))
completed-Post b (ok a, p) h =
    let (passes, fuelled) = complete-IsSound b p h.sound in
    elim (Option-cases (complete next p)) [
      | inl done ↦ rw (done, completed) (λ c k. h.answers c (cc) (passes done), λ k. cc)
      | inr (e, failed) ↦ rw (failed, completed) (λ c k. cc, λ k. fuelled (failed ∙ ap some (cc)))
    ]

init-IsSound : (s : Text) → IsSound (length s) (parser_of s)
unfolding init
init-IsSound s = (s, init-Reads s, omega arith)

-- An accepted expression has names for keys, and a parse never runs out of fuel.
pub parse_expression_text_ends :
    (s : Text)
    → ((e : Expression) → parse_expression_text s ≡ ok e → IsNamed e)
      × (parse_expression_text s ≢ err out_of_fuel)
unfolding parse_expression_text
parse_expression_text_ends s =
    completed-Post (length s) _
      (parse_expression-Post (fuel_for s) (length s) (parser_of s) (omega arith) (init-IsSound s))

parse_right-Post :
    (m b : ℕ) (operator : Text) (left : Expression) (p : Parser)
    → b < m
    → (operator ≡ codes "==") ⊎ (operator ≡ codes "!=")
    → IsHeaded left
    → IsSound b p
    → Post IsNamedCondition b (parse_right m operator left p)
unfolding parse_right
parse_right-Post m b operator left p f o w h =
    let p' = (expect next equals p).1 in
    let inner = parse_expression-Post m b p' f (expect_other b b'=' p h) in
    Post-bind b (parse_expression m) (λ right. pure (ok (binary left operator right))) p' inner
      λ right q s named. Post-ok b (binary left operator right) q (λ k. (w, named k, o)) s

parse_operator-Post :
    (m b : ℕ) (left : Expression) (p : Parser)
    → b < m
    → Unless (IsHeaded left) p
    → IsSound b p
    → Post IsNamedCondition b (parse_operator m left p)
unfolding parse_operator
parse_operator-Post m b left p f w h = elim (peek-IsSound b p h) [
  | inl (x, l, eq, ne) ↦
      let (own, s) = unexpected_lem b (parser l [] (some x)) ne in rw eq (Post-err b _ _ own s)
  | inr ((t, l, cs, eq, r, k, g), fresh) ↦
      let here : IsSound b (parser l (t ∷ []) none) = (cs, r, k, g) in
      let rest : IsSound b (parser l [] none) = (cs, r, omega arith) in
      rw eq (
        Post-if b (same_type t.token_type eof) _ _ _
          (λ _. Post-ok b (truthy left) _ (λ _. w fresh) here)
          λ _.
            Post-if b (same_type t.token_type equals) _ _ _
              (λ same.
                rw (expect_shown equals t l same)
                  (parse_right-Post m b _ left _ f (inl refl) (w fresh) rest))
              λ _.
                Post-if b (same_type t.token_type negation) _ _ _
                  (λ same.
                    rw (expect_shown negation t l same)
                      (parse_right-Post m b _ left _ f (inr refl) (w fresh) rest))
                  λ _.
                    let (own, s) = unexpected_lem b (parser l (t ∷ []) none) here in
                    Post-err b _ _ own s)
]

-- A token that is no end leaves fewer runes.
fewer :
    (k m b : ℕ) (t : Token) (cs : Text)
    → same_type t.token_type (kind k) ≡ true
    → suc b < suc m
    → weight t + length cs ≤ b
    → suc (length cs) < m
fewer k m b t cs same f fits = omega (arith, weight-kind k t same)

negate_branch :
    (m b : ℕ) (t : Token) (l : BaseLexer) (cs : Text) (go : Method (Parsed Condition))
    → same_type t.token_type negation ≡ true
    → Reads l cs
    → weight t + length cs ≤ b
    → Post IsNamedCondition (length cs) (go (parser l [] none))
    → Post IsNamedCondition b ((go >>=! λ inner. pure (ok (negate inner))) (parser l [] none))
negate_branch m b t l cs go same r k inner =
    Post-bind b go (λ inner. pure (ok (negate inner))) _
      (Post-mono (length cs) b _ inner (omega arith)) λ c q s named. Post-ok b (negate c) q named s

parse_condition-Post :
    (m b : ℕ) (p : Parser) → suc b < m → IsSound b p → Post IsNamedCondition b (parse_condition m p)
unfolding parse_condition
parse_condition-Post zero b p f h = absurd (omega arith)
parse_condition-Post (suc m) b p f h = elim (peek-IsSound b p h) [
  | inl (x, l, eq, ne) ↦
      rw eq (Post-err b _ _ (λ y. cc) (peek_token_type-IsSound b (parser l [] (some x)) ne))
  | inr ((t, l, cs, eq, r, k, g), fresh) ↦
      let here : IsSound b (parser l (t ∷ []) none) = (cs, r, k, g) in
      rw eq (
        Post-if b (same_type t.token_type negation) _ _ _
          (λ same. rw (expect_shown negation t l same) (
            negate_branch m b t l cs (parse_condition m) same r k (
              parse_condition-Post m (length cs) (parser l [] none) (fewer b'!' m b t cs same f k)
                (cs, r, omega arith))))
          λ _.
            Post-if b (same_type t.token_type identifier_type) _ _ _
              (λ same.
                Post-bind b (parse_expression m) (parse_operator m) _
                  (parse_expression-IsHeaded m b t l cs (omega arith) r k g same)
                  λ left q s w. parse_operator-Post m b left q (omega arith) w s)
              λ _. Post-err b _ _ (λ y. cc) (peek_token_type-IsSound b _ here))
]

-- An accepted condition is a comparison by == or !=, a value or a negation of such, its values named
-- and started by a name, but for the right side of a comparison, which may be a string; and a parse
-- never runs out of fuel.
pub parse_condition_text_ends :
    (s : Text)
    → ((c : Condition) → parse_condition_text s ≡ ok c → IsNamedCondition c)
      × (parse_condition_text s ≢ err out_of_fuel)
unfolding parse_condition_text
parse_condition_text_ends s =
    completed-Post (length s) _
      (parse_condition-Post (fuel_for s) (length s) (parser_of s) (omega arith) (init-IsSound s))
