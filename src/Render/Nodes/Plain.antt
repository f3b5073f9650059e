-- ===== src/Render/Nodes/Plain.antt =====
-- templates/render.go: a tree without directives and expressions is printed as HTML is.
pub mod Prints
use kweb.Base.{
  Bool, true, false, if◌then◌else◌, Option, none, some, List, [], ◌∷◌, ◌++◌, append-nil,
  append_assoc, length, Text, codes, text_eq, Result, ok, err, ◌≡◌, refl, sym, ap, ◌∙◌, subst,
  arith,
}
use kweb.Base.Dict.{Dict}
use kweb.Base.Strings.{has_prefix, contains_text}
use kweb.Scopes.{Value, Scope}
use kweb.Fieldpath.Eval.{Runtime}
use kweb.Render.Escape.{escape}
use kweb.Render.Escape.Laws.{escape_each, escape-escape_each}
use kweb.Render.Tree.{
  Attribute, Node, error_node, text_node, document_node, element_node, comment_node, doctype_node,
  raw_node, unknown_node, Nodes, no_nodes, more_nodes,
}
use kweb.Render.Html.{is_void, is_raw, loses_newline, html_text, html_doctype}
use kweb.Render.Html.Agrees.{html_text-escape_each}
use kweb.Render.Writer.{
  Writing, Outcome, Method, after, ◌>>◌, done, write, write_or_panic, write_escaped,
}
use kweb.Render.Nodes.{
  is_directive, one_of, void_elements, raw_text_elements, newline_elements, no_directives,
  read_directive, read_directives, expand, write_expanded, render_text, write_namespace,
  render_attribute, render_attributes, starts_with_newline, has_children, render_inner,
  render_shown, render_if, render_element, doctype_identifiers, identifier_of, render_doctype,
  render_node, render_nodes, render_raw,
}

-- A description of HTML output, by recursion on the tree, over the tables of Render.Html.
abbrev print_namespace : Text → Text
print_namespace [] = []
print_namespace (c ∷ ns) = (c ∷ ns) ++ codes ":"

abbrev print_attribute : Attribute → Text
print_attribute a =
    codes " "
    ++ (print_namespace a.namespace ++ (a.key ++ (codes "=\"" ++ (html_text a.val ++ codes "\""))))

abbrev print_attributes : List Attribute → Text
print_attributes [] = []
print_attributes (a ∷ attrs) = print_attribute a ++ print_attributes attrs

-- A parser of HTML drops a newline behind these tags, so it is written twice.
abbrev print_newline : Text → Nodes → Text
print_newline name (more_nodes (text_node t) _) =
    if has_prefix t (codes "\n") then (if loses_newline name then codes "\n" else []) else []
print_newline name _ = []

mutual
  pub print_node : Node → Text
  print_node (text_node t) = html_text t
  print_node (document_node children) = print_nodes children
  print_node (element_node name attrs children) =
      let cooked = print_nodes children in
      let raw = print_raw children in
      codes "<"
      ++ (name
          ++ (print_attributes attrs
              ++ (if is_void name
                  then codes "/>"
                  else codes ">"
                    ++ (print_newline name children
                        ++ ((if is_raw name then raw else cooked)
                            ++ (codes "</" ++ (name ++ codes ">")))))))
  print_node (comment_node t) = codes "<!--" ++ (t ++ codes "-->")
  print_node (doctype_node t attrs) = html_doctype t attrs
  print_node (raw_node t) = t
  print_node error_node = []
  print_node unknown_node = []

  pub print_nodes : Nodes → Text
  print_nodes no_nodes = []
  print_nodes (more_nodes n ns) = print_node n ++ print_nodes ns

  pub print_raw : Nodes → Text
  print_raw no_nodes = []
  print_raw (more_nodes (text_node t) ns) = t ++ print_raw ns
  print_raw (more_nodes n ns) = print_node n ++ print_raw ns

abbrev pub PlainText : Text → Type 0
PlainText t = contains_text t (codes "{{") ≡ false

abbrev pub NoDirective : Text → Type 0
NoDirective key = (text_eq key (codes "*ngfor") ≡ false) × (text_eq key (codes "*ngif") ≡ false)

abbrev pub PlainAttributes : List Attribute → Type 0
PlainAttributes [] = Unit
PlainAttributes (a ∷ attrs) = NoDirective a.key × PlainText a.val × PlainAttributes attrs

-- No children under a void element.
abbrev pub FitsVoid : Text → Nodes → Type 0
FitsVoid name no_nodes = Unit
FitsVoid name (more_nodes _ _) = is_void name ≡ false

mutual
  pub data Plain : Node → Type 0 where
    plain_text : (t : Text) → PlainText t → Plain (text_node t)
    plain_document : (ns : Nodes) → PlainNodes ns → Plain (document_node ns)
    plain_element :
        (name : Text) (attrs : List Attribute) (ns : Nodes)
        → PlainAttributes attrs
        → FitsVoid name ns
        → PlainNodes ns
        → Plain (element_node name attrs ns)
    plain_comment : (t : Text) → Plain (comment_node t)
    plain_doctype : (t : Text) (attrs : List Attribute) → Plain (doctype_node t attrs)
    plain_raw : (t : Text) → Plain (raw_node t)

  pub data PlainNodes : Nodes → Type 0 where
    no_plain : PlainNodes no_nodes
    more_plain : (n : Node) (ns : Nodes) → Plain n → PlainNodes ns → PlainNodes (more_nodes n ns)

module _ {V : Type 0} where
  -- A method writes a text, and nothing else happens.
  pub record Writes (m : Method V) (t : Text) : Type 0 where
    pub writes : (s : Writing V) → m s ≡ (ok tt, record { out = s.out ++ t; values = s.values })

  after-Writes : {m k : Method V} {t u : Text} → Writes m t → Writes k u → Writes (m >> k) (t ++ u)
  after-Writes {m} {k} {t} {u} hm hk = record {
    writes = λ s.
        ap (λ r. after r k) (hm.writes s)
        ∙ hk.writes (record { out = s.out ++ t; values = s.values })
        ∙ ap (λ o. (ok tt, record { out = o; values = s.values })) (append_assoc s.out t u);
  }

  done-Writes : Writes done []
  done-Writes = record {
    writes = λ s. ap (λ o. (ok tt, record { out = o; values = s.values })) (sym (append-nil s.out));
  }

  write-Writes : (t : Text) → Writes (write t) t
  write-Writes t = record { writes = λ s. refl }

  if-Writes :
      (b : Bool) {m k : Method V} {t u : Text}
      → Writes m t
      → Writes k u
      → Writes (if b then m else k) (if b then t else u)
  if-Writes true hm hk = hm
  if-Writes false hm hk = hk

  -- The same text, bracketed otherwise.
  same-Writes : {m : Method V} {t u : Text} → t ≡ u → Writes m t → Writes m u
  same-Writes {m} e h = subst (Writes m) e h

  write_escaped-Writes : (t : Text) → Writes (write_escaped t) (html_text t)
  unfolding write_escaped write_or_panic
  write_escaped-Writes t = record {
    writes = λ s. rw (escape-escape_each t, write_or_panic, html_text-escape_each t) refl;
  }
