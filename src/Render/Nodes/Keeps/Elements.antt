-- ===== src/Render/Nodes/Keeps/Elements.antt =====
-- templates/render.go: every method of the renderer appends to the output, and restores the scope.
use kweb.Base.{
  true, false, Bool-cases, Option, none, some, Option-cases, List, [], ◌∷◌, Text, text_eq,
  text_eq_iff, text_eq_differ, Result, Result-cases, ok, err, ◌≡◌, ◌⊎◌, inl, inr, refl, sym, ap,
  ◌∙◌, subst,
}
use kweb.Base.Dict.{Dict, lookup, insert, lookup-insert_self, lookup-insert_other}
use kweb.Scopes.{Value, Scope}
use kweb.Fieldpath.Syntax.{Condition}
use kweb.Fieldpath.Parser.{parse_expression_text}
use kweb.Fieldpath.Eval.{Runtime, eval, eval_condition}
use kweb.Render.Escape.{escape}
use kweb.Render.Tree.{
  Attribute, Node, error_node, text_node, document_node, element_node, comment_node, doctype_node,
  raw_node, unknown_node, Nodes, no_nodes, more_nodes,
}
use kweb.Render.Writer.{
  RenderError, Writing, Outcome, Method, after, write_or_panic, write_escaped, panicked,
  error_node_rendered, unknown_node_type, eval_failed, bad_list, value_not_found, value_not_list,
}
use kweb.Render.Nodes.{
  is_directive, one_of, void_elements, raw_text_elements, newline_elements, Directives,
  no_directives, read_directives, scope_of, expand, write_expanded, render_text, write_namespace,
  render_attribute, render_attributes, starts_with_newline, has_children, render_inner, old_value,
  set_value, for_each, for_all, render_list, render_for, render_shown, render_if, render_element,
  render_doctype, render_node, render_nodes, render_raw,
}
use kweb.Render.Nodes.Keeps.{
  Restored, Kept, Keeps, after-Keeps, done-Keeps, fail-Keeps, write-Keeps, if-Keeps,
}

module _ {V : Type 0} (zero : V) where
  write_or_panic-Keeps : (o : Option Text) → Keeps zero (write_or_panic o)
  unfolding write_or_panic
  write_or_panic-Keeps none = fail-Keeps zero panicked
  write_or_panic-Keeps (some t) = write-Keeps zero t

  write_escaped-Keeps : (t : Text) → Keeps zero (write_escaped t)
  unfolding write_escaped
  write_escaped-Keeps t = write_or_panic-Keeps (escape t)

module _ {V : Type 0} (rt : Runtime V) (root : Scope V → V) (zero : V)
    (items : V → Option (List V)) where
  write_expanded-Keeps :
      (r : Result RenderError Text) → Keeps zero (write_expanded rt root zero items r)
  unfolding write_expanded
  write_expanded-Keeps (err e) = fail-Keeps zero e
  write_expanded-Keeps (ok t) = write_escaped-Keeps zero t

  render_text-Keeps : (t : Text) → Keeps zero (render_text rt root zero items t)
  unfolding render_text
  render_text-Keeps t = record {
    keep = λ s. (write_expanded-Keeps (expand rt root zero items t s.values)).keep s;
  }

  write_namespace-Keeps : (ns : Text) → Keeps zero (write_namespace rt root zero items ns)
  unfolding write_namespace
  write_namespace-Keeps [] = done-Keeps zero
  write_namespace-Keeps (c ∷ ns) = write-Keeps zero _

  render_attribute-Keeps : (a : Attribute) → Keeps zero (render_attribute rt root zero items a)
  unfolding render_attribute
  render_attribute-Keeps a =
      after-Keeps zero
        (after-Keeps zero
          (after-Keeps zero
            (after-Keeps zero (write-Keeps zero _) (write_namespace-Keeps a.namespace))
            (write-Keeps zero _))
          (render_text-Keeps a.val))
        (write-Keeps zero _)

  render_attributes-Keeps :
      (attrs : List Attribute) → Keeps zero (render_attributes rt root zero items attrs)
  unfolding render_attributes
  render_attributes-Keeps [] = done-Keeps zero
  render_attributes-Keeps (a ∷ attrs) =
      if-Keeps zero (is_directive a.key) (render_attributes-Keeps attrs)
        (after-Keeps zero (render_attribute-Keeps a) (render_attributes-Keeps attrs))

  render_inner-Keeps :
      (name : Text) (attrs : List Attribute) (children : Nodes) (body : Method V)
      → Keeps zero body
      → Keeps zero (render_inner rt root zero items name attrs children body)
  unfolding render_inner
  render_inner-Keeps name attrs children body h =
      after-Keeps zero (after-Keeps zero (write-Keeps zero _) (render_attributes-Keeps attrs)) (
        if-Keeps zero (one_of void_elements name)
          (if-Keeps zero (has_children children) (fail-Keeps zero _) (write-Keeps zero _))
          (after-Keeps zero
            (after-Keeps zero
              (after-Keeps zero (write-Keeps zero _) (
                if-Keeps zero (starts_with_newline children)
                  (if-Keeps zero (one_of newline_elements name) (write-Keeps zero _)
                    (done-Keeps zero))
                  (done-Keeps zero)))
              h)
            (write-Keeps zero _)))

  old_value-none :
      (key : Text) (m : Dict (Value V))
      → lookup key m ≡ none
      → old_value rt root zero items key m ≡ record { value = zero; function = none }
  unfolding old_value
  old_value-none key m n = rw (n, old_value) refl

  old_value-some :
      (key : Text) (v : Value V) (m : Dict (Value V))
      → lookup key m ≡ some v
      → old_value rt root zero items key m ≡ v
  unfolding old_value
  old_value-some key v m n = rw (n, old_value) refl

  -- The variable of a loop, behind the loop.
  restored :
      (key : Text) (item : Value V) (m m' : Dict (Value V))
      → Restored zero (insert key item m) m'
      → Restored zero m (insert key (old_value rt root zero items key m) m')
  restored key item m m' h k = elim (Bool-cases (text_eq key k)) [
    | inl same ↦
        subst (λ x. At x) ((text_eq_iff key k).0 same)
          (elim (Option-cases (lookup key m)) [
            | inl n ↦ inr (n, set_self ∙ ap some (old_value-none key m n))
            | inr (v, n) ↦ inl (set_self ∙ ap some (old_value-some key v m n) ∙ sym n)
          ])
    | inr other ↦
        let ne = text_eq_differ key k other in
        rw (lookup-insert_other key k (old_value rt root zero items key m) m' ne)
          (rw (lookup-insert_other key k item m ne) at (h k))
  ]
    where
      At : Text → Type 0
      At x =
          (lookup x (insert key (old_value rt root zero items key m) m') ≡ lookup x m)
          ⊎ ((lookup x m ≡ none)
              × (lookup x (insert key (old_value rt root zero items key m) m')
                  ≡ some (record { value = zero; function = none })))

      set_self :
          lookup key (insert key (old_value rt root zero items key m) m')
          ≡ some (old_value rt root zero items key m)
      set_self = lookup-insert_self key (old_value rt root zero items key m) m'

  for_each-Keeps :
      (key : Text) {inner : Method V} (v : V)
      → Keeps zero inner
      → Keeps zero (for_each rt root zero items key inner v)
  unfolding for_each set_value
  for_each-Keeps key {inner} v h = record {
    keep = λ s.
        let item : Value V = record { value = v; function = none } in
        let s' : Writing V = record { out = s.out; values = insert key item s.values } in
        looped key item s (inner s') (h.keep s');
  }
    where
      looped :
          (key : Text) (item : Value V) (s : Writing V) (r : Outcome V)
          → Kept zero (record { out = s.out; values = insert key item s.values }) r
          → Kept zero s (
              after r
                (set_value rt root zero items key (old_value rt root zero items key s.values)))
      looped key item s (err e, s') x = x
      looped key item s (ok _, s') (x, y) = (x, restored key item s.values s'.values y)

  for_all-Keeps :
      (key : Text) {inner : Method V} (vs : List V)
      → Keeps zero inner
      → Keeps zero (for_all rt root zero items key inner vs)
  unfolding for_all
  for_all-Keeps key [] h = done-Keeps zero
  for_all-Keeps key (v ∷ vs) h = after-Keeps zero (for_each-Keeps key v h) (for_all-Keeps key vs h)

  render_list-Keeps :
      (key list : Text) {inner : Method V} (found : Option V)
      → Keeps zero inner
      → Keeps zero (render_list rt root zero items key list inner found)
  unfolding render_list
  render_list-Keeps key list none h = fail-Keeps zero (value_not_found list)
  render_list-Keeps key list (some v) h = elim (Option-cases (items v)) [
    | inl n ↦ rw (n, render_list) (fail-Keeps zero (value_not_list list))
    | inr (vs, n) ↦ rw (n, render_list) (for_all-Keeps key vs h)
  ]

  -- An error before anything is written.
  early : (s : Writing V) (e : RenderError) → Kept zero s (err e, s)
  early s e = (fail-Keeps zero e).keep s

  render_for-Keeps :
      (key list : Text) {inner : Method V}
      → Keeps zero inner
      → Keeps zero (render_for rt root zero items key list inner)
  unfolding render_for
  render_for-Keeps key list {inner} h = record {
    keep = λ s. elim (Result-cases (parse_expression_text list)) [
      | inr (e, p) ↦ rw (p, render_for) (early s (bad_list list))
      | inl (x, p) ↦ elim (Result-cases (eval rt x (scope_of rt root zero items s))) [
        | inr (e, q) ↦ rw (p, render_for, q) (early s (eval_failed e))
        | inl (found, q) ↦ rw (p, render_for, q) ((render_list-Keeps key list found h).keep s)
      ]
    ];
  }

  render_shown-Keeps :
      (d : Directives) {inner : Method V}
      → Keeps zero inner
      → Keeps zero (render_shown rt root zero items d inner)
  unfolding render_shown
  render_shown-Keeps d h =
      if-Keeps zero (text_eq d.for_list []) h (render_for-Keeps d.for_variable d.for_list h)

  render_if-Keeps :
      (c : Option Condition) {shown : Method V}
      → Keeps zero shown
      → Keeps zero (render_if rt root zero items c shown)
  unfolding render_if
  render_if-Keeps none h = record { keep = λ s. h.keep s }
  render_if-Keeps (some c) h = record {
    keep = λ s. elim (Result-cases (eval_condition rt c (scope_of rt root zero items s))) [
      | inr (e, q) ↦ rw (q, render_if) (early s (eval_failed e))
      | inl (true, q) ↦ rw (q, render_if) (h.keep s)
      | inl (false, q) ↦ rw (q, render_if) ((done-Keeps zero).keep s)
    ];
  }

  render_element-Keeps :
      (attrs : List Attribute) {inner : Method V}
      → Keeps zero inner
      → Keeps zero (render_element rt root zero items attrs inner)
  unfolding render_element
  render_element-Keeps attrs h = elim (Result-cases (read_directives attrs no_directives)) [
    | inr (e, q) ↦ rw (q, render_element) (fail-Keeps zero e)
    | inl (d, q) ↦ rw (q, render_element) (render_if-Keeps d.if_condition (render_shown-Keeps d h))
  ]

  mutual
    unfolding render_node render_doctype

    render_node-Keeps : (n : Node) → Keeps zero (render_node rt root zero items n)
    render_node-Keeps error_node = fail-Keeps zero error_node_rendered
    render_node-Keeps (text_node t) = render_text-Keeps t
    render_node-Keeps (document_node children) = render_nodes-Keeps children
    render_node-Keeps (element_node name attrs children) = render_element-Keeps attrs (
        render_inner-Keeps name attrs children _ (
          if-Keeps zero (one_of raw_text_elements name) (render_raw-Keeps children)
            (render_nodes-Keeps children)))
    render_node-Keeps (comment_node t) = write-Keeps zero _
    render_node-Keeps (doctype_node t attrs) = write-Keeps zero _
    render_node-Keeps (raw_node t) = write-Keeps zero t
    render_node-Keeps unknown_node = fail-Keeps zero unknown_node_type

    render_nodes-Keeps : (ns : Nodes) → Keeps zero (render_nodes rt root zero items ns)
    render_nodes-Keeps no_nodes = done-Keeps zero
    render_nodes-Keeps (more_nodes n ns) =
        after-Keeps zero (render_node-Keeps n) (render_nodes-Keeps ns)

    render_raw-Keeps : (ns : Nodes) → Keeps zero (render_raw rt root zero items ns)
    render_raw-Keeps no_nodes = done-Keeps zero
    render_raw-Keeps (more_nodes (text_node t) ns) =
        after-Keeps zero (write-Keeps zero t) (render_raw-Keeps ns)
    render_raw-Keeps (more_nodes n ns) =
        after-Keeps zero (render_node-Keeps n) (render_raw-Keeps ns)

  -- Rendering only appends to what was written, with an error or without. Without one, every
  -- variable of the scope has the value that it had before, except that a variable which had none
  -- may be left with the nil value.
  pub render_node-Kept :
      (n : Node) (s : Writing V) → Kept zero s (render_node rt root zero items n s)
  render_node-Kept n s = (render_node-Keeps n).keep s
