-- ===== src/Render/Tests.antt =====
-- Runs of templates/render.go on concrete texts, and the results applied to them.
use kweb.Base.{
  true, false, none, some, Option, all, List, [], ◌∷◌, Text, codes, text_eq, ok, ◌≡◌, refl, ◌++◌,
  ◌⊎◌, inl, inr,
}
use kweb.Base.Dict.{lookup, insert}
use kweb.Base.Strings.{contains_text, fields, fields_from, flush, is_space, has_prefix}
use kweb.Scopes.{Scope, Value, eval_name}
use kweb.Lexparse.Lexer.{init as lex_init, read}
use kweb.Lexparse.Parser.{init, peek_token_type, expect, complete}
use kweb.Fieldpath.Lexer.{next}
use kweb.Fieldpath.Eval.{Kind, nil_value, scope, text, Runtime, eval}
use kweb.Fieldpath.Parser.{parse_expression_text}
use kweb.Render.Tree.{Node, element_node, text_node, no_nodes, more_nodes}
use kweb.Render.Writer.{Writing, write_escaped, write_or_panic}
use kweb.Render.Nodes.{
  render_node, render_nodes, render_raw, render_element, render_inner, render_attributes,
  read_directives, read_directive, read_for, is_directive, one_of, render_if, render_shown,
  render_for, render_list, for_all, for_each, old_value, set_value, starts_with_newline,
  has_children, render_text, expand, write_expanded,
}
use kweb.Render.Nodes.Keeps.{Kept}
use kweb.Render.Nodes.Keeps.Elements.{render_node-Kept}
use kweb.Render.Html.{listed, is_void}
use kweb.Render.Nodes.Plain.{Plain, print_node, plain_element, plain_text, more_plain, no_plain}
use kweb.Render.Nodes.Plain.Prints.{render_node-Plain}
use kweb.Render.Escape.{escape, escape_loop}
use kweb.Render.Escape.Laws.{is_harmless, unescape, escape_lem}

escape_tag : escape (codes "a<b> & c") ≡ some (codes "a&lt;b&gt; &amp; c")
unfolding escape escape_loop
escape_tag = refl

escape_lem_example :
    (t : Text) × (escape (codes "<'a'>") ≡ some t)
    × (all is_harmless t ≡ true)
    × (unescape none t ≡ codes "<'a'>")
escape_lem_example = escape_lem (codes "<'a'>")

-- What a variable holds: nothing, a text or a list of texts.
data Held : Type 0 where
  nothing : Held
  one : Text → Held
  many : List Text → Held

-- A value is what a variable holds, or a scope.
abbrev Shown : Type 0
Shown = Held ⊎ List (Text × Held)

abbrev scope_value : List (Text × Value Shown) → List (Text × Held)
scope_value [] = []
scope_value ((k, v) ∷ values) =
    let rest = scope_value values in elim v.value [ inl h ↦ (k, h) ∷ rest | inr _ ↦ rest ]

abbrev as_root : Scope Shown → Shown
as_root s = inr (scope_value s.values)

abbrev scope_values : List (Text × Held) → List (Text × Value Shown)
scope_values [] = []
scope_values ((k, h) ∷ held) = (k, record { value = inl h; function = none }) ∷ scope_values held

abbrev kind_of : Shown → Kind Shown
kind_of (inl nothing) = nil_value
kind_of (inl (one t)) = text t
kind_of (inl (many _)) = nil_value
kind_of (inr held) = scope record { values = scope_values held }

abbrev show_held : Shown → Text
show_held (inl (one t)) = t
show_held _ = codes "<nil>"

abbrev runtime : Runtime Shown
runtime = record {
  kind = kind_of;
  of_text = λ t. inl (one t);
  deep_equal = λ _ _. false;
  to_lower = λ t. t;
  show = show_held;
}

abbrev ones : List Text → List Shown
ones [] = []
ones (t ∷ ts) = inl (one t) ∷ ones ts

abbrev items_of : Shown → Option (List Shown)
items_of (inl (many ts)) = some (ones ts)
items_of _ = none

abbrev users : List (Text × Value Shown)
users =
    (codes "users", record { value = inl (many (codes "a" ∷ codes "b" ∷ [])); function = none })
    ∷ []

abbrev start : Writing Shown
start = record { out = []; values = users }

abbrev list_item : Node
list_item =
    element_node (codes "i")
      (record { namespace = []; key = codes "*ngfor"; val = codes "let u of users" } ∷ [])
      (more_nodes (text_node (codes "&")) no_nodes)

-- The variable of the loop had no value, and has the nil value afterwards.
loop_variable_left : render_node runtime as_root (inl nothing) items_of list_item start ≡ (
  ok tt,
  record {
    out = codes "<i>&amp;</i><i>&amp;</i>";
    values = users ++ ((codes "u", record { value = inl nothing; function = none }) ∷ []);
  },
)
unfolding render_node render_nodes render_raw render_element render_inner render_attributes
    read_directives read_directive read_for is_directive one_of render_if render_shown render_for
    render_list for_all for_each old_value set_value starts_with_newline has_children render_text
    expand write_expanded parse_expression_text eval eval_name lookup insert contains_text fields
    fields_from flush is_space has_prefix write_escaped write_or_panic text_eq escape escape_loop
    peek_token_type init next lex_init read expect complete
loop_variable_left = refl

render_node-Kept_example :
    Kept (inl nothing) start (render_node runtime as_root (inl nothing) items_of list_item start)
render_node-Kept_example = render_node-Kept runtime as_root (inl nothing) items_of list_item start

abbrev link : Node
link =
    element_node (codes "a")
      (record { namespace = []; key = codes "href"; val = codes "/x?a=1&b=2" } ∷ [])
      (more_nodes (text_node (codes "1 < 2")) no_nodes)

link-Plain : Plain link
unfolding contains_text has_prefix is_directive text_eq one_of is_void listed fields fields_from
    flush is_space
link-Plain =
    plain_element _ _ _ ((refl, refl), refl, tt) refl (more_plain _ _ (plain_text _ refl) no_plain)

render_node-Plain_example :
    render_node runtime as_root (inl nothing) items_of link start
    ≡ (ok tt, record { out = [] ++ print_node link; values = users })
render_node-Plain_example =
    render_node-Plain runtime as_root (inl nothing) items_of link start link-Plain
