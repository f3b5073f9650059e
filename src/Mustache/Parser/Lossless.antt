-- ===== src/Mustache/Parser/Lossless.antt =====
-- Whatever the text, the parser ends by itself, and an accepted list stands for the whole text.
use kweb.Base.{
  ℕ, zero, suc, ◌<◌, List, [], ◌∷◌, ◌++◌, append-nil, append_assoc, length, Text, ok, err, ◌≡◌, ◌⊎◌,
  inl, inr, refl, sym, ap, subst, ◌∙◌, arith,
}
use kweb.Lexparse.Token.{Token}
use kweb.Lexparse.Parser.{◌>>=!◌, Parsed, completed}
use kweb.Lexparse.Parser.Stream.{peek-Ready, complete-Ready, init-Ready}
use kweb.Lexparse.Parser.Failure.{IsFailed, peek_failed, unexpected_failed, unexpected-Ready}
use kweb.Mustache.Lexer.{next}
use kweb.Mustache.Lexer.Stream.{
  delivery, init-Delivers, left, right, plain, ArePieces, no_pieces, piece, values, tokenize,
}
use kweb.Mustache.Parser.{
  Expression, parse_expression, parse_more, parse_expression_list, parser_of, fuel_for,
  parse_expression_list_text,
}
use kweb.Mustache.Parser.Items.{
  Parser, At, source, sources, Parted, AllParted, Took, Slipped, Refused, parse_expression-Outcome,
}

-- The list was read to the end of the tokens, behind the expressions `es`.
record Listed (es : List Expression) (ts : List Token) (r : Parsed (List Expression) × Parser)
    : Type 0 where
  items : List Expression
  answer : r.0 ≡ ok (es ++ items)
  at : At r.1 []
  parted : AllParted items
  whole : sources items ≡ values ts

abbrev ListOutcome : List Expression → List Token → Parsed (List Expression) × Parser → Type 0
ListOutcome es ts r = Listed es ts r ⊎ Refused r.0

-- Behind a failure the loop refuses.
parse_more_failed :
    (n : ℕ) (es : List Expression) (p : Parser) → IsFailed p → Refused (parse_more (suc n) es p).0
unfolding parse_more
parse_more_failed n es p h = rw (peek_failed next p h) (_, ap err (unexpected_failed next p h))

-- One round of the loop with an expression.
parse_more-Took :
    (n : ℕ) (es : List Expression) (ts : List Token) (p : Parser) (t : Took ts (parse_expression p))
    → ((parse_expression >>=! λ e. parse_more n (es ++ e ∷ [])) p)
      ≡ parse_more n (es ++ t.item ∷ []) (parse_expression p).1
parse_more-Took n es ts p t = rw (t.answer, ◌>>=!◌)

-- What the loop makes of the outcome of an expression.
another-Outcome :
    (n : ℕ) (es : List Expression) (ts : List Token) (p : Parser)
    → ((rest : List Token) (e : Expression) (q : Parser)
        → length rest < length ts
        → ArePieces rest
        → At q rest
        → ListOutcome (es ++ e ∷ []) rest (parse_more n (es ++ e ∷ []) q))
    → 0 < n
    → Took ts (parse_expression p) ⊎ Slipped (parse_expression p) ⊎ Refused (parse_expression p).0
    → ListOutcome es ts ((parse_expression >>=! λ e. parse_more n (es ++ e ∷ [])) p)
another-Outcome n es ts p go pos (inl t) =
    rw (parse_more-Took n es ts p t)
      (later (go t.rest t.item (parse_expression p).1 t.shorter t.pieces t.at))
  where
    later :
        ListOutcome
          (es ++ t.item ∷ [])
          t.rest
          (parse_more n (es ++ t.item ∷ []) (parse_expression p).1)
        → ListOutcome es ts (parse_more n (es ++ t.item ∷ []) (parse_expression p).1)
    later (inl k) = inl (record {
      items = t.item ∷ k.items;
      answer = k.answer ∙ ap ok (append_assoc es (t.item ∷ []) k.items);
      at = k.at;
      parted = (subst (Parted t.item) (sym k.whole) t.parted, k.parted);
      whole = ap (λ r. source t.item ++ r) k.whole ∙ t.whole;
    })
    later (inr r) = inr r
another-Outcome zero es ts p go pos (inr (inl s)) = absurd (omega arith)
another-Outcome (suc n) es ts p go pos (inr (inl s)) = inr (
    rw (s.answer, ◌>>=!◌) (parse_more_failed n (es ++ s.item ∷ []) (parse_expression p).1 s.failed))
another-Outcome n es ts p go pos (inr (inr (t, r))) = inr (rw (r, ◌>>=!◌) (t, refl))

-- With more fuel than tokens the loop ends by itself.
parse_more-Outcome :
    (n : ℕ) (es : List Expression) (ts : List Token) (p : Parser)
    → length ts < n
    → ArePieces ts
    → At p ts
    → ListOutcome es ts (parse_more n es p)
unfolding parse_more
parse_more-Outcome zero es ts p f k h = absurd (omega arith)
parse_more-Outcome (suc n) es ts p f no_pieces h =
    let (e, h₁) = peek-Ready delivery p _ h in
    rw e (inl (record { items = []; answer = rw append-nil; at = h₁; parted = tt; whole = refl }))
parse_more-Outcome (suc n) es ts p f (piece right k) h =
    let (e, h₁) = peek-Ready delivery p _ h in
    rw e (inr (_, ap err (unexpected-Ready delivery _ _ h₁)))
parse_more-Outcome (suc n) es ts p f (piece left k) h =
    let (e, h₁) = peek-Ready delivery p _ h in
    rw e (
      another-Outcome n es _ _
        (λ rest x q lt m at. parse_more-Outcome n (es ++ x ∷ []) rest q (omega arith) m at)
        (omega arith) (parse_expression-Outcome _ (piece left k) h₁))
parse_more-Outcome (suc n) es ts p f (piece (plain s u) k) h =
    let (e, h₁) = peek-Ready delivery p _ h in
    rw e (
      another-Outcome n es _ _
        (λ rest x q lt m at. parse_more-Outcome n (es ++ x ∷ []) rest q (omega arith) m at)
        (omega arith) (parse_expression-Outcome _ (piece (plain s u) k) h₁))

-- The same for `ParseExpressionList`, which wants one expression at least.
parse_expression_list-Outcome :
    (n : ℕ) (ts : List Token) (p : Parser)
    → suc (length ts) < n
    → ArePieces ts
    → At p ts
    → ListOutcome [] ts (parse_expression_list n p)
unfolding parse_expression_list
parse_expression_list-Outcome n ts p f k h =
    another-Outcome n [] ts p
      (λ rest x q lt m at. parse_more-Outcome n (x ∷ []) rest q (omega arith) m at) (omega arith)
      (parse_expression-Outcome p k h)

completed_ok :
    {A : Type 0} (r : Parsed A × Parser) (a : A) → r.0 ≡ ok a → At r.1 [] → completed next r ≡ ok a
unfolding completed
completed_ok (r, p) a e h = rw (e, complete-Ready delivery p h)

completed_err : {A : Type 0} (r : Parsed A × Parser) → Refused r.0 → Refused (completed next r)
unfolding completed
completed_err (r, p) (t, e) = rw e (t, refl)

-- The expressions of an accepted text are parted as its double braces part it.
pub parse_expression_list_text_parted :
    (s : Text)
    → ((es : List Expression) × (parse_expression_list_text s ≡ ok es)
        × AllParted es
        × (sources es ≡ s))
      ⊎ Refused (parse_expression_list_text s)
unfolding parse_expression_list_text
parse_expression_list_text_parted s =
    let k = tokenize s in
    let start = init-Ready delivery _ _ (init-Delivers s k.tokens k.lexes) in
    let r = parse_expression_list (fuel_for s) (parser_of s) in
    elim (parse_expression_list-Outcome (fuel_for s) k.tokens (parser_of s) (omega (arith, k.bound))
      k.pieces start) [
        | inl o ↦ inl (o.items, completed_ok r o.items o.answer o.at, o.parted, o.whole ∙ k.whole)
        | inr refused ↦ inr (completed_err r refused)
      ]

-- Every text is either parsed into expressions that stand for the whole of it, each literal as it is
-- and each expression in its double braces, or refused at a token that does not fit. So the parser
-- ends by itself.
pub parse_expression_list_text_outcome :
    (s : Text)
    → ((es : List Expression) × (parse_expression_list_text s ≡ ok es) × (sources es ≡ s))
      ⊎ Refused (parse_expression_list_text s)
parse_expression_list_text_outcome s = elim (parse_expression_list_text_parted s) [
  | inl (es, e, _, whole) ↦ inl (es, e, whole)
  | inr refused ↦ inr refused
]
