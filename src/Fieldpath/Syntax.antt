-- ===== src/Fieldpath/Syntax.antt =====
-- templates/mustache/fieldpath: the expressions of expression.go and the conditions of
-- condition.go, with their `String` methods.
use kweb.Base.{[], ◌∷◌, ◌++◌, Text}

-- The `Style` of an index expression: "." or "[".
pub data Style : Type 0 where
  dotted bracketed : Style

-- `nil` is the nil interface value, an index expression's missing base.
pub data Expression : Type 0 where
  nil : Expression
  literal : Text → Expression
  identifier : Text → Expression
  index : Expression → Text → Style → Expression

pub data Condition : Type 0 where
  binary : Expression → Text → Expression → Condition
  truthy : Expression → Condition
  negate : Condition → Condition

abbrev pub style_suffix : Style → Text → Text
style_suffix dotted key = b'.' ∷ key
style_suffix bracketed key = b'[' ∷ (key ++ b']' ∷ [])

-- The `String` methods. `quote` is the verb %q of fmt, and `nil` prints as the empty base of an
-- index expression does.
module _ (quote : Text → Text) where
  unfoldable pub print_expression : Expression → Text
  print_expression nil = []
  print_expression (literal v) = quote v
  print_expression (identifier k) = k
  print_expression (index base key style) = print_expression base ++ style_suffix style key

  unfoldable pub print_condition : Condition → Text
  unfolding print_expression
  print_condition (binary left operator right) =
      print_expression left ++ operator ++ print_expression right
  print_condition (truthy e) = print_expression e
  print_condition (negate c) = b'!' ∷ print_condition c
