-- ===== src/Mustache/Eval.antt =====
-- templates/mustache/expression.go: the text that a list of expressions stands for.
pub mod Filled
mod Tests
use kweb.Base.{Option, none, some, List, [], ◌∷◌, ◌++◌, Text, Result, ok, err, ◌>>=◌}
use kweb.Scopes.{EvalError, bad_expression}
use kweb.Fieldpath.Syntax as Paths
use kweb.Fieldpath.Parser.{parse_expression_text}
use kweb.Fieldpath.Eval.{Runtime, eval}
use kweb.Mustache.Parser.{Expression, literal, mustache}

module _ {V : Type 0} (rt : Runtime V) where
  -- The verb %v of a value, and nothing for a missing one.
  unfoldable pub show_found : Option V → Text
  show_found none = []
  show_found (some v) = rt.show v

  -- `MustacheExpression.Eval`; the errors of the parser are one.
  unfoldable pub eval_mustache : Text → V → Result EvalError Text
  unfolding show_found
  eval_mustache s o = elim (parse_expression_text s) [
    | err e ↦ err bad_expression
    | ok e ↦ (eval rt e o >>= λ found. ok (show_found found))
  ]

  unfoldable pub eval_expression : Expression → V → Result EvalError Text
  unfolding eval_mustache
  eval_expression (literal s) o = ok s
  eval_expression (mustache s) o = eval_mustache s o

  -- `ExpressionList.Eval`
  unfoldable pub eval_list : List Expression → V → Result EvalError Text
  unfolding eval_expression
  eval_list [] o = ok []
  eval_list (e ∷ es) o = do v ← eval_expression e o; rest ← eval_list es o; ok (v ++ rest)
