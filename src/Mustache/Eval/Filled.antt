-- ===== src/Mustache/Eval/Filled.antt =====
-- templates/mustache/expression.go: the result of a template text, described by the text.
use mathlib.Core.List.{Memᴰ}
use mathlib.Core.List.Memᴰ.{head, tail}
use kweb.Base.{
  Option, none, some, List, [], ◌∷◌, ◌++◌, append_assoc, Text, Result, Result-cases, ok, err,
  >>=-eq-ok, >>=-eq-err, refl, ◌≡◌, ◌⊎◌, inl, inr, sym, subst,
}
use kweb.Scopes.{EvalError, bad_expression}
use kweb.Lexparse.Parser.{ParseError}
use kweb.Fieldpath.Syntax.{Expression as FieldPath}
use kweb.Fieldpath.Parser.{parse_expression_text}
use kweb.Fieldpath.Eval.{Runtime, eval}
use kweb.Mustache.Lexer.Stream.{Undoubled}
use kweb.Mustache.Parser.{Expression, literal, mustache, parse_expression_list_text}
use kweb.Mustache.Parser.Items.{source, sources, Parted, AllParted, Refused}
use kweb.Mustache.Parser.Lossless.{parse_expression_list_text_parted}
use kweb.Mustache.Eval.{show_found, eval_mustache, eval_expression, eval_list}

ok_text : {a b : Text} → ◌≡◌ {A = Result EvalError Text} (ok a) (ok b) → a ≡ b
ok_text h = cc

-- A part in double braces, in front of a text.
abbrev pub braced : Text → Text → Text
braced e s = b'{' ∷ b'{' ∷ (e ++ b'}' ∷ b'}' ∷ s)

-- A text with each part in double braces replaced by its value, or by nothing if it has none. What is
-- kept as it is has no double brace.
pub data Filled {V : Type 0} (rt : Runtime V) (o : V) : Text → Text → Type 0 where
  filled_end : Filled rt o [] []
  filled_text :
      (l : Text) {s t : Text} → Undoubled l s → Filled rt o s t → Filled rt o (l ++ s) (l ++ t)
  filled_value :
      (e : Text) (x : FieldPath) (v : V) {s t : Text}
      → Undoubled e (b'}' ∷ b'}' ∷ s)
      → parse_expression_text e ≡ ok x
      → eval rt x o ≡ ok (some v)
      → Filled rt o s t
      → Filled rt o (braced e s) (rt.show v ++ t)
  filled_missing :
      (e : Text) (x : FieldPath) {s t : Text}
      → Undoubled e (b'}' ∷ b'}' ∷ s)
      → parse_expression_text e ≡ ok x
      → eval rt x o ≡ ok none
      → Filled rt o s t
      → Filled rt o (braced e s) t

-- A part in double braces that is no expression, or whose evaluation returns the error.
abbrev pub Fails : {V : Type 0} → Runtime V → V → Text → EvalError → Type 0
Fails rt o m e =
    ((r : ParseError) × (parse_expression_text m ≡ err r) × (e ≡ bad_expression))
    ⊎ ((x : FieldPath) × (parse_expression_text m ≡ ok x) × (eval rt x o ≡ err e))

module _ {V : Type 0} (rt : Runtime V) (o : V) where
  eval_mustache-Fails : (m : Text) (e : EvalError) → eval_mustache rt m o ≡ err e → Fails rt o m e
  unfolding eval_mustache
  eval_mustache-Fails m e h = elim (Result-cases (parse_expression_text m)) [
    | inr (r, refused) ↦ inl (r, refused, cc (rw (eval_mustache, refused) at h))
    | inl (x, parsed) ↦ elim (>>=-eq-err (eval rt x o) _ (rw (eval_mustache, parsed) at h)) [
      | inl failed ↦ inr (x, parsed, failed)
      | inr (found, _, never) ↦ cc never
    ]
  ]

  eval_list-Fails :
      (es : List Expression) (e : EvalError)
      → eval_list rt es o ≡ err e
      → (m : Text) × Memᴰ (mustache m) es × Fails rt o m e
  unfolding eval_list eval_expression
  eval_list-Fails [] e h = cc
  eval_list-Fails (x ∷ es) e h = elim (>>=-eq-err (eval_expression rt x o) _ h) [
    | inl first ↦ here x first
    | inr (v, _, more) ↦ elim (>>=-eq-err (eval_list rt es o) _ more) [
      | inl others ↦ let (m, i, f) = eval_list-Fails es e others in (m, tail i, f)
      | inr (t, _, never) ↦ cc never
    ]
  ]
    where
      here :
          (y : Expression)
          → eval_expression rt y o ≡ err e
          → (m : Text) × Memᴰ (mustache m) (y ∷ es) × Fails rt o m e
      here (literal l) failed = cc failed
      here (mustache m) failed = (m, head refl, eval_mustache-Fails m e failed)

  found-Filled :
      (e : Text) (x : FieldPath) (found : Option V) {s t : Text}
      → Undoubled e (b'}' ∷ b'}' ∷ s)
      → parse_expression_text e ≡ ok x
      → eval rt x o ≡ ok found
      → Filled rt o s t
      → Filled rt o (braced e s) (show_found rt found ++ t)
  unfolding show_found
  found-Filled e x none u parsed evaluated f = filled_missing e x u parsed evaluated f
  found-Filled e x (some v) u parsed evaluated f = filled_value e x v u parsed evaluated f

  mustache-Filled :
      (e v : Text) {s t : Text}
      → Undoubled e (b'}' ∷ b'}' ∷ s)
      → eval_mustache rt e o ≡ ok v
      → Filled rt o s t
      → Filled rt o (braced e s) (v ++ t)
  unfolding eval_mustache
  mustache-Filled e v {s} {t} u h f = elim (Result-cases (parse_expression_text e)) [
    | inr (r, refused) ↦ cc (rw (eval_mustache, refused) at h)
    | inl (x, parsed) ↦
        let (found, evaluated, shown) =
          >>=-eq-ok (eval rt x o) _ (rw (eval_mustache, parsed) at h) in
        subst (λ r. Filled rt o (braced e s) (r ++ t)) (ok_text shown)
          (found-Filled e x found u parsed evaluated f)
  ]

  expression-Filled :
      (e : Expression) {v s t : Text}
      → Parted e s
      → eval_expression rt e o ≡ ok v
      → Filled rt o s t
      → Filled rt o (source e ++ s) (v ++ t)
  unfolding eval_expression
  expression-Filled (literal l) {v} {s} {t} u h f =
      subst (λ x. Filled rt o (l ++ s) (x ++ t)) (ok_text h) (filled_text l u f)
  expression-Filled (mustache e) {v} {s} {t} u h f =
      subst (λ x. Filled rt o (b'{' ∷ b'{' ∷ x) (v ++ t))
        (sym (append_assoc e (b'}' ∷ b'}' ∷ []) s)) (mustache-Filled e v u h f)

  eval_list-Filled :
      (es : List Expression) (t : Text)
      → AllParted es
      → eval_list rt es o ≡ ok t
      → Filled rt o (sources es) t
  unfolding eval_list
  eval_list-Filled [] t u h = subst (Filled rt o []) (ok_text h) filled_end
  eval_list-Filled (e ∷ es) t (u, us) h =
      let (v, first, more) = >>=-eq-ok (eval_expression rt e o) _ h in
      let (rest, others, whole) = >>=-eq-ok (eval_list rt es o) _ more in
      subst (Filled rt o (source e ++ sources es)) (ok_text whole)
        (expression-Filled e u first (eval_list-Filled es rest us others))

  -- A template text is refused by its parser at a token, or it is parsed into expressions. Then
  -- their evaluation returns the template with each part in double braces replaced by the text of
  -- the value that the part, read as an expression, has, or by nothing if it has no value; all other
  -- text is as it is, and no double brace stands in it, nor in a part. Or it returns an error: that of
  -- a part whose evaluation fails, or that a part cannot be read as an expression.
  pub template-Filled :
      (s : Text)
      → Refused (parse_expression_list_text s)
        ⊎ ((es : List Expression) × (parse_expression_list_text s ≡ ok es)
            × (((t : Text) × (eval_list rt es o ≡ ok t) × Filled rt o s t)
                ⊎ ((e : EvalError) × (eval_list rt es o ≡ err e)
                    × ((m : Text) × Memᴰ (mustache m) es × Fails rt o m e))))
  template-Filled s = elim (parse_expression_list_text_parted s) [
    | inl (es, e, u, whole) ↦ inr (
      es,
      e,
      elim (Result-cases (eval_list rt es o)) [
        | inr (e', h) ↦ inr (e', h, eval_list-Fails es e' h)
        | inl (t, h) ↦ inl (t, h, subst (λ x. Filled rt o x t) whole (eval_list-Filled es t u h))
      ],
    )
    | inr refused ↦ inl refused
  ]
