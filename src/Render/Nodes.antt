-- ===== src/Render/Nodes.antt =====
-- templates/render.go: rendering a tree of nodes with the directives *ngIf and *ngFor.
pub mod Keeps
pub mod Plain
use kweb.Base.{
  ℕ, Bool, true, false, ◌||◌, ◌==◌, if◌then◌else◌, Option, none, some, List, [], ◌∷◌, ◌++◌, length,
  Text, codes, text_eq, Result, ok, err,
}
use kweb.Base.Dict.{Dict, lookup, insert}
use kweb.Base.Strings.{has_prefix, contains_text, fields}
use kweb.Scopes.{Value, Scope}
use kweb.Fieldpath.Syntax.{Condition}
use kweb.Fieldpath.Parser.{parse_condition_text, parse_expression_text}
use kweb.Fieldpath.Eval.{Runtime, eval, eval_condition}
use kweb.Mustache.Parser.{parse_expression_list_text}
use kweb.Mustache.Eval.{eval_list}
use kweb.Render.Escape.{write_quoted}
use kweb.Render.Tree.{
  Attribute, Node, error_node, text_node, document_node, element_node, comment_node, doctype_node,
  raw_node, unknown_node, Nodes, no_nodes, more_nodes,
}
use kweb.Render.Writer.{
  RenderError, bad_template, eval_failed, bad_for, bad_condition, bad_list, value_not_found,
  value_not_list, void_with_children, error_node_rendered, unknown_node_type, Writing, Outcome,
  Method, after, ◌>>◌, done, fail, write, write_escaped,
}

unfoldable pub is_directive : Text → Bool
is_directive key = text_eq key (codes "*ngfor") || text_eq key (codes "*ngif")

unfoldable pub one_of : List Text → Text → Bool
one_of [] name = false
one_of (n ∷ names) name = text_eq n name || one_of names name

abbrev pub void_elements : List Text
void_elements =
    codes "area"
    ∷ codes "base"
    ∷ codes "br"
    ∷ codes "col"
    ∷ codes "embed"
    ∷ codes "hr"
    ∷ codes "img"
    ∷ codes "input"
    ∷ codes "keygen"
    ∷ codes "link"
    ∷ codes "meta"
    ∷ codes "param"
    ∷ codes "source"
    ∷ codes "track"
    ∷ codes "wbr"
    ∷ []

-- The elements whose texts are not escaped.
abbrev pub raw_text_elements : List Text
raw_text_elements =
    codes "iframe"
    ∷ codes "noembed"
    ∷ codes "noframes"
    ∷ codes "noscript"
    ∷ codes "plaintext"
    ∷ codes "script"
    ∷ codes "style"
    ∷ codes "xmp"
    ∷ []

abbrev pub newline_elements : List Text
newline_elements = codes "pre" ∷ codes "listing" ∷ codes "textarea" ∷ []

-- The variables of `renderElementNode`.
pub record Directives : Type 0 where
  pub for_variable : Text
  pub for_list : Text
  pub if_condition : Option Condition

abbrev pub no_directives : Directives
no_directives = record { for_variable = []; for_list = []; if_condition = none }

-- The value of *ngFor: `let <variable> of <list>`.
unfoldable pub read_for : Text → List Text → Directives → Result RenderError Directives
read_for val (a ∷ variable ∷ b ∷ list ∷ []) d =
    if text_eq a (codes "let")
    then (if text_eq b (codes "of")
        then ok record { for_variable = variable; for_list = list; if_condition = d.if_condition }
        else err (bad_for val))
    else err (bad_for val)
read_for val _ d = err (bad_for val)

unfoldable pub read_if : Text → Directives → Result RenderError Directives
read_if val d = elim (parse_condition_text val) [
  | err e ↦ err (bad_condition val)
  | ok c ↦ ok record { for_variable = d.for_variable; for_list = d.for_list; if_condition = some c }
]

unfoldable pub read_directive : Attribute → Directives → Result RenderError Directives
unfolding read_for read_if
read_directive a d =
    if text_eq a.key (codes "*ngfor")
    then read_for a.val (fields a.val) d
    else if text_eq a.key (codes "*ngif")
    then read_if a.val d
    else ok d

-- The loop of `renderElementNode` over the attributes.
unfoldable pub read_directives : List Attribute → Directives → Result RenderError Directives
unfolding read_directive
read_directives [] d = ok d
read_directives (a ∷ attrs) d = elim (read_directive a d) [
  | err e ↦ err e
  | ok d' ↦ read_directives attrs d'
]

unfoldable pub starts_with_newline : Nodes → Bool
starts_with_newline (more_nodes (text_node t) _) = has_prefix t (codes "\n")
starts_with_newline _ = false

unfoldable pub has_children : Nodes → Bool
has_children no_nodes = false
has_children (more_nodes _ _) = true

-- The identifiers of a doctype: the last of each key counts.
unfoldable pub identifier_of : Text → Text → List Attribute → Text
identifier_of key found [] = found
identifier_of key found (a ∷ attrs) =
    identifier_of key (if text_eq a.key key then a.val else found) attrs

unfoldable pub doctype_identifiers : Text → Text → Text
doctype_identifiers p s =
    if text_eq p []
    then (if text_eq s [] then [] else codes " SYSTEM " ++ write_quoted s)
    else codes " PUBLIC "
      ++ (write_quoted p ++ (if text_eq s [] then [] else codes " " ++ write_quoted s))

-- `root` is a scope as a value, `zero` the nil value, and `items` the values of a list or slice,
-- if a value is one.
module _ {V : Type 0} (rt : Runtime V) (root : Scope V → V) (zero : V)
    (items : V → Option (List V)) where
  abbrev pub scope_of : Writing V → V
  scope_of s = root record { values = s.values }

  -- The text with its expressions evaluated, if it has any.
  unfoldable pub expand : Text → Dict (Value V) → Result RenderError Text
  expand t values =
      if contains_text t (codes "{{")
      then elim (parse_expression_list_text t) [
        | err e ↦ err bad_template
        | ok es ↦ elim (eval_list rt es (root record { values = values })) [
          | err e ↦ err (eval_failed e)
          | ok t' ↦ ok t'
        ]
      ]
      else ok t

  unfoldable pub write_expanded : Result RenderError Text → Method V
  write_expanded (err e) = fail e
  write_expanded (ok t) = write_escaped t

  -- `renderTextNode` and `renderAttributeValue`
  unfoldable pub render_text : Text → Method V
  unfolding expand write_expanded
  render_text t s = write_expanded (expand t s.values) s

  unfoldable pub write_namespace : Text → Method V
  write_namespace [] = done
  write_namespace (c ∷ ns) = write ((c ∷ ns) ++ codes ":")

  unfoldable pub render_attribute : Attribute → Method V
  unfolding write_namespace render_text
  render_attribute a =
      write (codes " ")
      >> write_namespace a.namespace
      >> write (a.key ++ codes "=\"")
      >> render_text a.val
      >> write (codes "\"")

  unfoldable pub render_attributes : List Attribute → Method V
  unfolding render_attribute
  render_attributes [] = done
  render_attributes (a ∷ attrs) =
      let shown = render_attribute a >> render_attributes attrs in
      let rest = render_attributes attrs in if is_directive a.key then rest else shown

  -- `renderElementNodeInner`, with the rendering of the children.
  unfoldable pub render_inner : Text → List Attribute → Nodes → Method V → Method V
  unfolding render_attributes starts_with_newline has_children
  render_inner name attrs children body =
      let open_tag = write (codes "<" ++ name) >> render_attributes attrs in
      let void =
        if has_children children then fail (void_with_children name) else write (codes "/>") in
      let newline =
        if starts_with_newline children
        then (if one_of newline_elements name then write (codes "\n") else done)
        else done in
      let full =
        write (codes ">") >> newline >> body >> write (codes "</" ++ (name ++ codes ">")) in
      open_tag >> (if one_of void_elements name then void else full)

  -- The value that a name had, or the zero value.
  unfoldable pub old_value : Text → Dict (Value V) → Value V
  old_value key values = elim (lookup key values) [
    | none ↦ record { value = zero; function = none }
    | some v ↦ v
  ]

  unfoldable pub set_value : Text → Value V → Method V
  set_value key v s = (ok tt, record { out = s.out; values = insert key v s.values })

  -- `forEach`
  unfoldable pub for_each : Text → Method V → V → Method V
  unfolding old_value set_value
  for_each key inner item s =
      let old = old_value key s.values in
      (set_value key record { value = item; function = none } >> inner >> set_value key old) s

  unfoldable pub for_all : Text → Method V → List V → Method V
  unfolding for_each
  for_all key inner [] = done
  for_all key inner (v ∷ vs) = for_each key inner v >> for_all key inner vs

  -- *ngFor over the value of its list.
  unfoldable pub render_list : Text → Text → Method V → Option V → Method V
  unfolding for_all
  render_list key list inner none = fail (value_not_found list)
  render_list key list inner (some v) = elim (items v) [
    | none ↦ fail (value_not_list list)
    | some vs ↦ for_all key inner vs
  ]

  unfoldable pub render_for : Text → Text → Method V → Method V
  unfolding render_list
  render_for key list inner s = elim (parse_expression_text list) [
    | err e ↦ (err (bad_list list), s)
    | ok e ↦ elim (eval rt e (scope_of s)) [
      | err e' ↦ (err (eval_failed e'), s)
      | ok found ↦ render_list key list inner found s
    ]
  ]

  -- `renderElementNode` behind its condition.
  unfoldable pub render_shown : Directives → Method V → Method V
  unfolding render_for
  render_shown d inner =
      if text_eq d.for_list [] then inner else render_for d.for_variable d.for_list inner

  unfoldable pub render_if : Option Condition → Method V → Method V
  render_if none shown s = shown s
  render_if (some c) shown s = elim (eval_condition rt c (scope_of s)) [
    | err e ↦ (err (eval_failed e), s)
    | ok false ↦ (ok tt, s)
    | ok true ↦ shown s
  ]

  unfoldable pub render_element : List Attribute → Method V → Method V
  unfolding read_directives render_shown render_if
  render_element attrs inner = elim (read_directives attrs no_directives) [
    | err e ↦ fail e
    | ok d ↦ render_if d.if_condition (render_shown d inner)
  ]

  unfoldable pub render_doctype : Text → List Attribute → Method V
  unfolding doctype_identifiers identifier_of
  render_doctype name attrs = write (
      codes "<!DOCTYPE "
      ++ (name
          ++ (doctype_identifiers (identifier_of (codes "public") [] attrs)
                (identifier_of (codes "system") [] attrs)
              ++ codes ">")))

  unfoldable mutual
    unfolding render_text render_element render_inner render_doctype

    -- `renderNode`
    pub render_node : Node → Method V
    render_node error_node = fail error_node_rendered
    render_node (text_node t) = render_text t
    render_node (document_node children) = render_nodes children
    render_node (element_node name attrs children) =
        let raw = render_raw children in
        let cooked = render_nodes children in
        render_element attrs
          (render_inner name attrs children (if one_of raw_text_elements name then raw else cooked))
    render_node (comment_node t) = write (codes "<!--" ++ (t ++ codes "-->"))
    render_node (doctype_node t attrs) = render_doctype t attrs
    render_node (raw_node t) = write t
    render_node unknown_node = fail unknown_node_type

    pub render_nodes : Nodes → Method V
    render_nodes no_nodes = done
    render_nodes (more_nodes n ns) = render_node n >> render_nodes ns

    -- The children of a raw text element: their texts are written as they are.
    pub render_raw : Nodes → Method V
    render_raw no_nodes = done
    render_raw (more_nodes (text_node t) ns) = write t >> render_raw ns
    render_raw (more_nodes n ns) = render_node n >> render_raw ns
