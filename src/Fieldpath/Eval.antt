-- ===== src/Fieldpath/Eval.antt =====
-- templates/mustache/fieldpath/expression.go and condition.go: evaluation on dynamic values. The
-- values, Go's type switch on them, reflection, protocol messages and reflect.DeepEqual are a
-- parameter.
pub mod Laws
use kweb.Base.{
  ℕ, Bool, true, false, not, ◌&&◌, ◌==◌, ltb, if◌then◌else◌, Option, none, some, List, [], ◌∷◌,
  ◌++◌, Text, codes, text_eq, Result, ok, err, ◌>>=◌,
}
use kweb.Base.Dict.{Dict, lookup}
use kweb.Base.Strings.{trim_suffix}
use kweb.Scopes.{
  EvalError, unhandled_type, unhandled_operator, nil_dereference, reflection_panicked, Value, Scope,
  Found, called, eval_name,
}
use kweb.Fieldpath.Syntax.{
  Expression, nil, literal, identifier, index, Condition, binary, truthy, negate,
}

-- What reflection tells of a value: the fields of the struct it is or points to, each with its JSON
-- tag, its name and its value, if it is exported; and the methods of a pointer with what they return,
-- if they take a context only and return a value and an error. Else reflection panics.
pub record Reflected (V : Type 0) : Type 0 where
  pub is_struct : Bool
  pub fields : List (Text × Text × Option V)
  pub is_pointer : Bool
  pub methods : List (Text × Option (Result Text V))

-- The cases of the type switches. `entries` is a map of values or an unstructured object, and
-- `message` a protocol message, with its fields and whether it is valid.
pub data Kind (V : Type 0) : Type 0 where
  nil_value : Kind V
  scope : Scope V → Kind V
  entries : Dict V → Kind V
  strings : Dict Text → Kind V
  message : (Text → Option V) → Bool → Kind V
  text : Text → Kind V
  other : Reflected V → Kind V

pub record Runtime (V : Type 0) : Type 0 where
  pub kind : V → Kind V
  pub of_text : Text → V
  pub deep_equal : V → V → Bool
  pub to_lower : Text → Text
  pub show : V → Text

module _ {V : Type 0} (rt : Runtime V) where
  -- A name with its first byte in lower case; a Go name is not empty. If its first letter is not one
  -- byte, then the rest is not valid UTF-8: it is no text, and no key is equal to it.
  unfoldable pub lower_first : Text → Option Text
  lower_first [] = some []
  lower_first (c ∷ s) = if ltb c 128 then some (rt.to_lower (c ∷ []) ++ s) else none

  unfoldable pub json_name : Text → Text → Option Text
  unfolding trim_suffix lower_first
  json_name tag name = elim (if text_eq tag [] then lower_first name else some tag) [
    | none ↦ none
    | some s ↦ some (trim_suffix s (codes ",omitempty"))
  ]

  is_key : Text → Option Text → Bool
  is_key key none = false
  is_key key (some s) = text_eq s key

  unfoldable pub find_field : Text → List (Text × Text × Option V) → Option (Option V)
  unfolding json_name is_key
  find_field key [] = none
  find_field key ((tag, name, v) ∷ fields) =
      if is_key key (json_name tag name) then some v else find_field key fields

  unfoldable pub find_method :
      Text → List (Text × Option (Result Text V)) → Option (Option (Result Text V))
  unfolding lower_first is_key
  find_method key [] = none
  find_method key ((name, result) ∷ methods) =
      if is_key key (lower_first name) then some result else find_method key methods

  -- `Interface` of a field.
  field_value : Option V → Found V
  field_value none = err reflection_panicked
  field_value (some v) = ok (some v)

  -- `Call` of a method.
  method_result : Option (Result Text V) → Found V
  method_result none = err reflection_panicked
  method_result (some result) = called result

  call_method : Text → Reflected V → Found V
  unfolding find_method method_result
  call_method key r =
      if r.is_pointer
      then elim (find_method key r.methods) [ none ↦ ok none | some m ↦ method_result m ]
      else ok none

  unfoldable pub index_reflected : Text → Reflected V → Found V
  unfolding call_method find_field field_value
  index_reflected key r =
      if r.is_struct
      then elim (find_field key r.fields) [ none ↦ call_method key r | some v ↦ field_value v ]
      else call_method key r

  -- `IndexExpression.Eval` on the value of its base.
  unfoldable pub index_value : Text → V → Found V
  unfolding index_reflected
  index_value key o = elim (rt.kind o) [
    | nil_value ↦ ok none
    | scope s ↦ eval_name key s
    | entries m ↦ ok (lookup key m)
    | strings m ↦ elim (lookup key m) [ none ↦ ok none | some s ↦ ok (some (rt.of_text s)) ]
    | message field valid ↦ ok (field key)
    | text s ↦ ok none
    | other r ↦ index_reflected key r
  ]

  unfoldable pub eval_identifier : Text → V → Found V
  eval_identifier key o = elim (rt.kind o) [
    | nil_value ↦ ok none
    | scope s ↦ eval_name key s
    | _ ↦ err unhandled_type
  ]

  index_found : Text → Option V → Found V
  index_found key none = ok none
  index_found key (some o) = index_value key o

  -- An index without a base is taken of the object itself.
  unfoldable pub eval : Expression → V → Found V
  unfolding index_value eval_identifier index_found
  eval nil o = err nil_dereference
  eval (literal s) o = ok (some (rt.of_text s))
  eval (identifier key) o = eval_identifier key o
  eval (index nil key style) o = index_value key o
  eval (index base key style) o = eval base o >>= index_found key

  unfoldable pub compare : Text → V → V → Result EvalError Bool
  compare operator l r =
      if text_eq operator (codes "==")
      then ok (rt.deep_equal l r)
      else if text_eq operator (codes "!=")
      then ok (not (rt.deep_equal l r))
      else err (unhandled_operator operator)

  unfoldable pub is_truthy : V → Result EvalError Bool
  is_truthy v = elim (rt.kind v) [
    | text s ↦ ok (not (text_eq s []))
    | message field valid ↦ ok valid
    | _ ↦ err unhandled_type
  ]

  -- A missing value makes a condition false.
  when_found : (V → Result EvalError Bool) → Option V → Result EvalError Bool
  when_found test none = ok false
  when_found test (some v) = test v

  unfoldable pub eval_condition : Condition → V → Result EvalError Bool
  unfolding eval compare is_truthy when_found
  eval_condition (binary l operator r) o = do
    found ← eval l o
    when_found (λ lv. eval r o >>= when_found (compare operator lv)) found
  eval_condition (truthy e) o = eval e o >>= when_found is_truthy
  eval_condition (negate c) o = do inner ← eval_condition c o; ok (not inner)
