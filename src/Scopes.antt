-- ===== src/Scopes.antt =====
-- templates/scopes/scope.go: named values and functions.
use kweb.Base.{Option, none, some, Text, Result, ok, err}
use kweb.Base.Dict.{Dict, lookup}

-- What went wrong in an evaluation; a nil expression panics, and so may a call by reflection.
pub data EvalError : Type 0 where
  function_failed : Text → EvalError
  unhandled_type : EvalError
  unhandled_operator : Text → EvalError
  bad_expression : EvalError
  nil_dereference : EvalError
  reflection_panicked : EvalError

-- `Function` is what the function returns when it is called.
pub record Value (V : Type 0) : Type 0 where
  pub value : V
  pub function : Option (Result Text V)

pub record Scope (V : Type 0) : Type 0 where
  pub values : Dict (Value V)

-- A value that is found, or none, or an error, beside which no caller reads a value.
abbrev pub Found : Type 0 → Type 0
Found V = Result EvalError (Option V)

module _ {V : Type 0} where
  unfoldable pub called : Result Text V → Found V
  called (err e) = err (function_failed e)
  called (ok v) = ok (some v)

  unfoldable pub eval_name : Text → Scope V → Found V
  unfolding called
  eval_name name s = elim (lookup name s.values) [
    | none ↦ ok none
    | some v ↦ elim v.function [ none ↦ ok (some v.value) | some result ↦ called result ]
  ]
