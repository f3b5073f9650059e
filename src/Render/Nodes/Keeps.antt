-- ===== src/Render/Nodes/Keeps.antt =====
-- templates/render.go: what rendering does to the output and to the scope.
pub mod Elements
use kweb.Base.{
  Bool, true, false, Bool-cases, if◌then◌else◌, Option, none, some, Option-cases, List, [], ◌∷◌,
  ◌++◌, append-nil, append_assoc, Text, text_eq, text_eq_iff, text_eq-false, text_eq_differ, Result,
  Result-cases, ok, err, ◌≡◌, ◌≢◌, ◌⊎◌, inl, inr, refl, sym, ap, ◌∙◌, subst,
}
use kweb.Base.Dict.{Dict, lookup, insert, lookup-insert}
use kweb.Scopes.{Value, Scope}
use kweb.Fieldpath.Syntax.{Condition}
use kweb.Fieldpath.Parser.{parse_expression_text}
use kweb.Fieldpath.Eval.{Runtime, eval, eval_condition}
use kweb.Render.Escape.{escape}
use kweb.Render.Tree.{
  Attribute, Node, error_node, text_node, document_node, element_node, comment_node, doctype_node,
  raw_node, unknown_node, Nodes, no_nodes, more_nodes,
}
use kweb.Render.Writer.{
  RenderError, Writing, Outcome, Method, after, ◌>>◌, done, fail, write, write_or_panic,
  write_escaped,
}
use kweb.Render.Nodes.{
  is_directive, one_of, void_elements, raw_text_elements, newline_elements, Directives,
  no_directives, read_directives, scope_of, expand, write_expanded, render_text, write_namespace,
  render_attribute, render_attributes, starts_with_newline, has_children, render_inner, old_value,
  set_value, for_each, for_all, render_list, render_for, render_shown, render_if, render_element,
  render_doctype, render_node, render_nodes, render_raw,
}

-- Something was appended.
abbrev pub Extends : Text → Text → Type 0
Extends before behind = (t : Text) × (behind ≡ before ++ t)

Extends-trans : (a b c : Text) → Extends a b → Extends b c → Extends a c
Extends-trans a b c (t, e) (u, f) = (t ++ u, f ∙ ap (λ x. x ++ u) e ∙ append_assoc a t u)

module _ {V : Type 0} (zero : V) where
  -- A variable has the value that it had, or it had none and has the zero value.
  abbrev pub Restored : Dict (Value V) → Dict (Value V) → Type 0
  Restored before behind =
      (k : Text)
      → (lookup k behind ≡ lookup k before)
        ⊎ ((lookup k before ≡ none)
            × (lookup k behind ≡ some (record { value = zero; function = none })))

  Restored-refl : (m : Dict (Value V)) → Restored m m
  Restored-refl m k = inl refl

  Restored-trans : (a b c : Dict (Value V)) → Restored a b → Restored b c → Restored a c
  Restored-trans a b c h g k = elim (g k) [
    | inl same ↦ elim (h k) [ inl e ↦ inl (same ∙ e) | inr (n, z) ↦ inr (n, same ∙ z) ]
    | inr (n, z) ↦ elim (h k) [ inl e ↦ inr (sym e ∙ n, z) | inr (m, y) ↦ cc ]
  ]

  -- Whatever happens, the output is only appended to; without an error the scope is restored.
  abbrev pub Kept : Writing V → Outcome V → Type 0
  Kept s (ok _, s') = Extends s.out s'.out × Restored s.values s'.values
  Kept s (err _, s') = Extends s.out s'.out

  pub record Keeps (m : Method V) : Type 0 where
    pub keep : (s : Writing V) → Kept s (m s)

  joined :
      (s s' : Writing V) (q : Outcome V)
      → Extends s.out s'.out
      → Restored s.values s'.values
      → Kept s' q
      → Kept s q
  joined s s' (err e, s'') x y z = Extends-trans s.out s'.out s''.out x z
  joined s s' (ok _, s'') x y (z, w) =
      (Extends-trans s.out s'.out s''.out x z, Restored-trans s.values s'.values s''.values y w)

  after-Kept :
      (s : Writing V) (r : Outcome V) (k : Method V) → Kept s r → Keeps k → Kept s (after r k)
  after-Kept s (err e, s') k h hk = h
  after-Kept s (ok _, s') k (x, y) hk = joined s s' (k s') x y (hk.keep s')

  after-Keeps : {m k : Method V} → Keeps m → Keeps k → Keeps (m >> k)
  after-Keeps {m} {k} hm hk = record { keep = λ s. after-Kept s (m s) k (hm.keep s) hk }

  done-Keeps : Keeps done
  done-Keeps = record { keep = λ s. (([], sym (append-nil s.out)), Restored-refl s.values) }

  fail-Keeps : (e : RenderError) → Keeps (fail e)
  fail-Keeps e = record { keep = λ s. ([], sym (append-nil s.out)) }

  write-Keeps : (t : Text) → Keeps (write t)
  write-Keeps t = record { keep = λ s. ((t, refl), Restored-refl s.values) }

  if-Keeps : (b : Bool) {m k : Method V} → Keeps m → Keeps k → Keeps (if b then m else k)
  if-Keeps true hm hk = hm
  if-Keeps false hm hk = hk
