-- ===== src/Render/Writer.antt =====
-- The state behind the methods of `Render` in templates/render.go: what was written, and the values
-- of the scope, which *ngFor changes. A write never fails, as for the bytes.Buffer of
-- components/pages.
use kweb.Base.{Option, none, some, ◌++◌, Text, Result, ok, err}
use kweb.Base.Dict.{Dict}
use kweb.Scopes.{EvalError, Value}
use kweb.Render.Escape.{escape}

pub data RenderError : Type 0 where
  bad_template : RenderError
  eval_failed : EvalError → RenderError
  bad_for : Text → RenderError
  bad_condition : Text → RenderError
  bad_list : Text → RenderError
  value_not_found : Text → RenderError
  value_not_list : Text → RenderError
  unhandled_directive : Text → RenderError
  void_with_children : Text → RenderError
  error_node_rendered : RenderError
  unknown_node_type : RenderError
  panicked : RenderError

pub record Writing (V : Type 0) : Type 0 where
  pub out : Text
  pub values : Dict (Value V)

abbrev pub Outcome : Type 0 → Type 0
Outcome V = Result RenderError (Unit {0}) × Writing V

abbrev pub Method : Type 0 → Type 0
Method V = Writing V → Outcome V

module _ {V : Type 0} where
  abbrev pub after : Outcome V → Method V → Outcome V
  after (ok _, s) k = k s
  after (err e, s) k = (err e, s)

  infixl 5 ◌>>◌
  -- One method and then, unless it fails, the other.
  abbrev pub ◌>>◌ : Method V → Method V → Method V
  ◌>>◌ m k s = after (m s) k

  abbrev pub done : Method V
  done s = (ok tt, s)

  abbrev pub fail : RenderError → Method V
  fail e s = (err e, s)

  -- `w.WriteString`
  abbrev pub write : Text → Method V
  write t s = (ok tt, record { out = s.out ++ t; values = s.values })

  unfoldable pub write_or_panic : Option Text → Method V
  write_or_panic none = fail panicked
  write_or_panic (some t) = write t

  unfoldable pub write_escaped : Text → Method V
  unfolding write_or_panic
  write_escaped t = write_or_panic (escape t)
