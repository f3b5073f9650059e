-- ===== src/Fieldpath/Eval/Laws.antt =====
-- templates/mustache/fieldpath/condition.go: how a comparison and its opposite depend on each other.
use kweb.Base.{
  Bool, false, not, none, some, Option-cases, text_eq, codes, Result, ok, err, Result-cases, ◌≡◌,
  ◌⊎◌, inl, inr, refl,
}
use kweb.Scopes.{EvalError}
use kweb.Fieldpath.Syntax.{Expression, binary}
use kweb.Fieldpath.Eval.{Runtime, eval, compare, eval_condition}

module _ {V : Type 0} (rt : Runtime V) where
  abbrev equal : Expression → Expression → V → Result EvalError Bool
  equal l r o = eval_condition rt (binary l (codes "==") r) o

  abbrev different : Expression → Expression → V → Result EvalError Bool
  different l r o = eval_condition rt (binary l (codes "!=") r) o

  -- Both comparisons fail alike, or both are false for want of a value, or they are opposite.
  abbrev Compared : Expression → Expression → V → Type 0
  Compared l r o =
      ((e : EvalError) × (equal l r o ≡ err e) × (different l r o ≡ err e))
      ⊎ (((equal l r o ≡ ok false)
            × (different l r o ≡ ok false)
            × ((eval rt l o ≡ ok none) ⊎ (eval rt r o ≡ ok none)))
          ⊎ ((lv : V) × (rv : V) × (eval rt l o ≡ ok (some lv))
              × (eval rt r o ≡ ok (some rv))
              × (equal l r o ≡ ok (rt.deep_equal lv rv))
              × (different l r o ≡ ok (not (rt.deep_equal lv rv)))))

  -- For any two expressions and any object, `==` and `!=` both fail with the same error, or both are
  -- false and one of the expressions has no value, or both have one, `==` is reflect.DeepEqual of
  -- the values, and `!=` its negation.
  pub comparison_cases :
      (l r : Expression) (o : V)
      → ((e : EvalError) × (equal l r o ≡ err e) × (different l r o ≡ err e))
        ⊎ (((equal l r o ≡ ok false)
              × (different l r o ≡ ok false)
              × ((eval rt l o ≡ ok none) ⊎ (eval rt r o ≡ ok none)))
            ⊎ ((lv : V) × (rv : V) × (eval rt l o ≡ ok (some lv))
                × (eval rt r o ≡ ok (some rv))
                × (equal l r o ≡ ok (rt.deep_equal lv rv))
                × (different l r o ≡ ok (not (rt.deep_equal lv rv)))))
  unfolding eval_condition compare text_eq
  comparison_cases l r o = elim (Result-cases (eval rt l o)) [
    | inr (e, x) ↦ inl (e, rw (x, eval_condition) refl, rw (x, eval_condition) refl)
    | inl (found, x) ↦ elim (Option-cases found) [
      | inl n ↦ inr (
          inl
            (rw (x, n, eval_condition) refl, rw (x, n, eval_condition) refl, inl (rw (x, n) refl)))
      | inr (lv, n) ↦ elim (Result-cases (eval rt r o)) [
        | inr (e, y) ↦ inl (e, rw (x, n, y, eval_condition) refl, rw (x, n, y, eval_condition) refl)
        | inl (found', y) ↦ elim (Option-cases found') [
          | inl m ↦ inr (
              inl (
                rw (x, n, y, m, eval_condition) refl,
                rw (x, n, y, m, eval_condition) refl,
                inr (rw (y, m) refl),
              ))
          | inr (rv, m) ↦ inr (
              inr (
                lv,
                rv,
                rw (x, n) refl,
                rw (y, m) refl,
                rw (x, n, y, m, eval_condition, compare) refl,
                rw (x, n, y, m, eval_condition, compare) refl,
              ))
        ]
      ]
    ]
  ]
