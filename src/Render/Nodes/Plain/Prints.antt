-- ===== src/Render/Nodes/Plain/Prints.antt =====
-- templates/render.go: the renderer agrees with the description of HTML output on plain trees.
use kweb.Base.{
  Bool, true, false, if◌then◌else◌, Option, List, [], ◌∷◌, ◌++◌, append_assoc, Text, codes, text_eq,
  ok, ◌≡◌, ◌≢◌, refl, sym, ◌∙◌, arith,
}
use kweb.Base.Strings.{has_prefix}
use kweb.Scopes.{Scope}
use kweb.Fieldpath.Eval.{Runtime}
use kweb.Render.Tree.{
  Attribute, Node, error_node, text_node, document_node, element_node, comment_node, doctype_node,
  raw_node, unknown_node, Nodes, no_nodes, more_nodes,
}
use kweb.Render.Html.{is_void, html_text, html_doctype}
use kweb.Render.Html.Agrees.{
  is_void-one_of, is_raw-one_of, loses_newline-one_of, last_value-identifier_of,
  html_identifiers-doctype_identifiers,
}
use kweb.Render.Writer.{Writing, Method, done, write, void_with_children, fail}
use kweb.Render.Nodes.{
  is_directive, one_of, identifier_of, void_elements, raw_text_elements, newline_elements,
  Directives, no_directives, read_directive, read_directives, expand, write_expanded, render_text,
  write_namespace, render_attribute, render_attributes, starts_with_newline, has_children,
  render_inner, render_shown, render_if, render_element, render_doctype, render_node, render_nodes,
  render_raw,
}
use kweb.Render.Nodes.Plain.{
  print_namespace, print_attribute, print_attributes, print_newline, print_node, print_nodes,
  print_raw, PlainText, NoDirective, PlainAttributes, FitsVoid, Plain, plain_text, plain_document,
  plain_element, plain_comment, plain_doctype, plain_raw, PlainNodes, no_plain, more_plain, Writes,
  after-Writes, done-Writes, write-Writes, if-Writes, same-Writes, write_escaped-Writes,
}

read_directive_plain :
    (a : Attribute) (d : Directives) → is_directive a.key ≡ false → read_directive a d ≡ ok d
unfolding is_directive read_directive
read_directive_plain a d k = ground arith

is_directive-none : (key : Text) → NoDirective key → is_directive key ≡ false
unfolding is_directive
is_directive-none key (f, i) = rw (f, i) refl

-- The directives of plain attributes.
read_directives-Plain :
    (attrs : List Attribute) (d : Directives)
    → PlainAttributes attrs
    → read_directives attrs d ≡ ok d
unfolding read_directives
read_directives-Plain [] d h = refl
read_directives-Plain (a ∷ attrs) d (k, v, h) =
    rw (read_directive_plain a d (is_directive-none a.key k), read_directives)
      (read_directives-Plain attrs d h)

not_false : true ≢ false
not_false e = cc

module _ {V : Type 0} where
  void-Writes :
      (name : Text) (b : Bool) (children : Nodes) {m : Method V} {t : Text}
      → (has_children children ≡ true → b ≡ false)
      → Writes m t
      → Writes
          (if b
            then (if has_children children
                then fail (void_with_children name)
                else write (codes "/>"))
            else m)
          (if b then codes "/>" else t)
  unfolding has_children
  void-Writes name false children fits h = h
  void-Writes name true no_nodes fits h = write-Writes (codes "/>")
  void-Writes name true (more_nodes _ _) fits h = elim (not_false (fits refl)) [ ]

  newline-Writes :
      (name : Text) (children : Nodes)
      → Writes {V = V}
          (if starts_with_newline children
            then (if one_of newline_elements name then write (codes "\n") else done)
            else done)
          (print_newline name children)
  unfolding starts_with_newline
  newline-Writes name no_nodes = done-Writes
  newline-Writes name (more_nodes (text_node t) _) = rw (loses_newline-one_of name) (
      if-Writes (has_prefix t (codes "\n"))
        (if-Writes (one_of newline_elements name) (write-Writes (codes "\n")) done-Writes)
        done-Writes)
  newline-Writes name (more_nodes _ _) = done-Writes

fits_void :
    (name : Text) (ns : Nodes)
    → FitsVoid name ns
    → has_children ns ≡ true
    → one_of void_elements name ≡ false
unfolding has_children
fits_void name no_nodes h e = cc
fits_void name (more_nodes _ _) h e = sym (is_void-one_of name) ∙ h

module _ {V : Type 0} (rt : Runtime V) (root : Scope V → V) (zero : V)
    (items : V → Option (List V)) where
  render_text-Writes :
      (t : Text) → PlainText t → Writes (render_text rt root zero items t) (html_text t)
  unfolding render_text expand write_expanded
  render_text-Writes t h = record {
    writes = λ s. rw (h, expand) ((write_escaped-Writes t).writes s);
  }

  write_namespace-Writes :
      (ns : Text) → Writes (write_namespace rt root zero items ns) (print_namespace ns)
  unfolding write_namespace
  write_namespace-Writes [] = done-Writes
  write_namespace-Writes (c ∷ ns) = write-Writes _

  render_attribute-Writes :
      (a : Attribute)
      → PlainText a.val
      → Writes (render_attribute rt root zero items a) (print_attribute a)
  unfolding render_attribute
  render_attribute-Writes a h = same-Writes (simp append_assoc) (
      after-Writes
        (after-Writes
          (after-Writes
            (after-Writes (write-Writes (codes " ")) (write_namespace-Writes a.namespace))
            (write-Writes (a.key ++ codes "=\"")))
          (render_text-Writes a.val h))
        (write-Writes (codes "\"")))

  render_attributes-Writes :
      (attrs : List Attribute)
      → PlainAttributes attrs
      → Writes (render_attributes rt root zero items attrs) (print_attributes attrs)
  unfolding render_attributes
  render_attributes-Writes [] h = done-Writes
  render_attributes-Writes (a ∷ attrs) (k, v, h) =
      rw (is_directive-none a.key k)
        (after-Writes (render_attribute-Writes a v) (render_attributes-Writes attrs h))

  render_inner-Writes :
      (name : Text) (attrs : List Attribute) (children : Nodes) (body : Method V) (t : Text)
      → PlainAttributes attrs
      → FitsVoid name children
      → Writes body t
      → Writes (render_inner rt root zero items name attrs children body) (
          codes "<"
          ++ (name
              ++ (print_attributes attrs
                  ++ (if is_void name
                      then codes "/>"
                      else codes ">"
                        ++ (print_newline name children
                            ++ (t ++ (codes "</" ++ (name ++ codes ">"))))))))
  unfolding render_inner
  render_inner-Writes name attrs children body t h fits hb = rw (is_void-one_of name) (
      same-Writes (simp append_assoc) (
        after-Writes
          (after-Writes (write-Writes (codes "<" ++ name)) (render_attributes-Writes attrs h))
          (void-Writes name (one_of void_elements name) children
            {t = codes ">"
              ++ (print_newline name children ++ (t ++ (codes "</" ++ (name ++ codes ">"))))}
            (fits_void name children fits)
            (same-Writes (simp append_assoc) (
              after-Writes
                (after-Writes
                  (after-Writes (write-Writes (codes ">")) (newline-Writes name children)) hb)
                (write-Writes (codes "</" ++ (name ++ codes ">"))))))))

  render_element-Writes :
      (attrs : List Attribute) (inner : Method V) (t : Text)
      → PlainAttributes attrs
      → Writes inner t
      → Writes (render_element rt root zero items attrs inner) t
  unfolding render_element render_if render_shown text_eq
  render_element-Writes attrs inner t h hi = record {
    writes = λ s. rw (read_directives-Plain attrs no_directives h, render_element) (hi.writes s);
  }

  render_doctype-Writes :
      (t : Text) (attrs : List Attribute)
      → Writes (render_doctype rt root zero items t attrs) (html_doctype t attrs)
  unfolding render_doctype html_doctype
  render_doctype-Writes t attrs =
      same-Writes
        (rw
          (
            last_value-identifier_of (codes "public") attrs,
            last_value-identifier_of (codes "system") attrs,
            html_identifiers-doctype_identifiers (identifier_of (codes "public") [] attrs)
                (identifier_of (codes "system") [] attrs),
          )
          refl)
        (write-Writes _)

  mutual
    unfolding render_node print_node

    render_node-Writes :
        (n : Node) → Plain n → Writes (render_node rt root zero items n) (print_node n)
    render_node-Writes (text_node t) (plain_text _ h) = render_text-Writes t h
    render_node-Writes (document_node ns) (plain_document _ h) = render_nodes-Writes ns h
    render_node-Writes (element_node name attrs ns) (plain_element _ _ _ h fits hs) =
        render_element-Writes attrs _ _ h (
          render_inner-Writes name attrs ns _ _ h fits (
            rw (is_raw-one_of name) (
              if-Writes (one_of raw_text_elements name) (render_raw-Writes ns hs)
                (render_nodes-Writes ns hs))))
    render_node-Writes (comment_node t) (plain_comment _) = write-Writes _
    render_node-Writes (doctype_node t attrs) (plain_doctype _ _) = render_doctype-Writes t attrs
    render_node-Writes (raw_node t) (plain_raw _) = write-Writes t
    render_node-Writes error_node h = elim h [ ]
    render_node-Writes unknown_node h = elim h [ ]

    render_nodes-Writes :
        (ns : Nodes) → PlainNodes ns → Writes (render_nodes rt root zero items ns) (print_nodes ns)
    render_nodes-Writes no_nodes no_plain = done-Writes
    render_nodes-Writes (more_nodes n ns) (more_plain _ _ h hs) =
        after-Writes (render_node-Writes n h) (render_nodes-Writes ns hs)

    render_raw-Writes :
        (ns : Nodes) → PlainNodes ns → Writes (render_raw rt root zero items ns) (print_raw ns)
    render_raw-Writes no_nodes no_plain = done-Writes
    render_raw-Writes (more_nodes (text_node t) ns) (more_plain _ _ h hs) =
        after-Writes (write-Writes t) (render_raw-Writes ns hs)
    render_raw-Writes (more_nodes n ns) (more_plain _ _ h hs) =
        after-Writes (render_node-Writes n h) (render_raw-Writes ns hs)

  -- A tree whose texts and attributes have no double braces, with no directive, no children under
  -- a void element, and no node of an error or an unknown type, renders without an error: the
  -- description of its HTML is appended to the output, and the scope is as before.
  pub render_node-Plain :
      (n : Node) (s : Writing V)
      → Plain n
      → render_node rt root zero items n s
        ≡ (ok tt, record { out = s.out ++ print_node n; values = s.values })
  render_node-Plain n s h = (render_node-Writes n h).writes s
