-- ===== src/Mustache/Eval/Tests.antt =====
-- Evaluations in a scope with one text, and the results applied to them.
use mathlib.Core.List.{Memᴰ}
use kweb.Base.{
  Bool, true, false, not, Option, none, some, List, [], ◌∷◌, Text, text_eq, codes, ok, err, ◌≡◌,
  ◌⊎◌, refl,
}
use kweb.Base.Dict.{lookup}
use kweb.Scopes.{EvalError, Scope, eval_name}
use kweb.Fieldpath.Syntax.{identifier, literal as quoted, binary}
use kweb.Fieldpath.Eval.{Kind, scope, text, Runtime, eval, eval_condition, compare}
use kweb.Fieldpath.Eval.Laws.{comparison_cases}
use kweb.Mustache.Parser.{Expression, mustache, parse_expression_list_text}
use kweb.Mustache.Parser.Items.{Refused}
use kweb.Mustache.Eval.{eval_list}
use kweb.Mustache.Eval.Filled.{Filled, Fails, template-Filled}

-- A value is a text, or the scope of the page.
abbrev page : Scope (Option Text)
page = record {
  values = (codes "user", record { value = some (codes "ann"); function = none }) ∷ [];
}

abbrev kind_of : Option Text → Kind (Option Text)
kind_of none = scope page
kind_of (some t) = text t

same : Option Text → Option Text → Bool
same (some s) (some t) = text_eq s t
same _ _ = false

abbrev show_text : Option Text → Text
show_text none = []
show_text (some t) = t

abbrev runtime : Runtime (Option Text)
runtime = record {
  kind = kind_of;
  of_text = some;
  deep_equal = same;
  to_lower = λ t. t;
  show = show_text;
}

is_ann :
    eval_condition runtime
      (binary (identifier (codes "user")) (codes "==") (quoted (codes "ann")))
      none
    ≡ ok true
unfolding eval_condition eval compare eval_name lookup same text_eq
is_ann = refl

-- A comparison with a missing value is false either way.
nobody :
    eval_condition runtime
      (binary (identifier (codes "nobody")) (codes "!=") (quoted (codes "ann")))
      none
    ≡ ok false
unfolding eval_condition eval compare eval_name lookup same text_eq
nobody = refl

comparison_cases_example :
    ((e : EvalError) × (eval_condition runtime
          (binary (identifier (codes "user")) (codes "==") (quoted []))
          none
        ≡ err e)
      × (eval_condition runtime (binary (identifier (codes "user")) (codes "!=") (quoted [])) none
          ≡ err e))
    ⊎ (((eval_condition runtime (binary (identifier (codes "user")) (codes "==") (quoted [])) none
            ≡ ok false)
          × (eval_condition runtime
                (binary (identifier (codes "user")) (codes "!=") (quoted []))
                none
              ≡ ok false)
          × ((eval runtime (identifier (codes "user")) none ≡ ok none)
              ⊎ (eval runtime (quoted []) none ≡ ok none)))
        ⊎ ((lv : Option Text) × (rv : Option Text) × (eval runtime (identifier (codes "user")) none
              ≡ ok (some lv))
            × (eval runtime (quoted []) none ≡ ok (some rv))
            × (eval_condition runtime
                  (binary (identifier (codes "user")) (codes "==") (quoted []))
                  none
                ≡ ok (runtime.deep_equal lv rv))
            × (eval_condition runtime
                  (binary (identifier (codes "user")) (codes "!=") (quoted []))
                  none
                ≡ ok (not (runtime.deep_equal lv rv)))))
comparison_cases_example = comparison_cases runtime (identifier (codes "user")) (quoted []) none

template-Filled_example :
    Refused (parse_expression_list_text (codes "Hi {{user}}!"))
    ⊎ ((es : List Expression) × (parse_expression_list_text (codes "Hi {{user}}!") ≡ ok es)
        × (((t : Text) × (eval_list runtime es none ≡ ok t)
              × Filled runtime none (codes "Hi {{user}}!") t)
            ⊎ ((e : EvalError) × (eval_list runtime es none ≡ err e)
                × ((m : Text) × Memᴰ (mustache m) es × Fails runtime none m e))))
template-Filled_example = template-Filled runtime none (codes "Hi {{user}}!")
