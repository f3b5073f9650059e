-- ===== src/Render/Html/Agrees.antt =====
-- templates/render.go: the tables, the escapes and the doctypes of the code are those of HTML.
use kweb.Base.{
  ℕ, false, Bool-cases, if◌then◌else◌, List, [], ◌∷◌, ◌++◌, Text, codes, text_eq, ◌≡◌, inl, inr,
  refl, sym, ap, ◌∙◌, append-nil, arith,
}
use kweb.Base.Strings.{has_prefix, contains_text, fields, fields_from, flush, is_space}
use kweb.Render.Tree.{Attribute}
use kweb.Render.Escape.{entity, contains, write_quoted}
use kweb.Render.Escape.Laws.{escaped, escape_each}
use kweb.Render.Nodes.{
  one_of, void_elements, raw_text_elements, newline_elements, identifier_of, doctype_identifiers,
}
use kweb.Render.Html.{
  listed, is_void, is_raw, loses_newline, html_char, html_text, quoted, has_key, last_value,
  html_identifiers,
}

listed-one_of : (name : Text) (names : List Text) → listed name names ≡ one_of names name
unfolding listed one_of
listed-one_of name [] = refl
listed-one_of name (n ∷ names) = ground (arith, listed-one_of name names)

pub is_void-one_of : (name : Text) → is_void name ≡ one_of void_elements name
unfolding is_void fields fields_from flush is_space
is_void-one_of name = listed-one_of name void_elements

pub is_raw-one_of : (name : Text) → is_raw name ≡ one_of raw_text_elements name
unfolding is_raw fields fields_from flush is_space
is_raw-one_of name = listed-one_of name raw_text_elements

pub loses_newline-one_of : (name : Text) → loses_newline name ≡ one_of newline_elements name
unfolding loses_newline fields fields_from flush is_space
loses_newline-one_of name = listed-one_of name newline_elements

html_char-escaped : (c : ℕ) → html_char c ≡ escaped c
unfolding html_char escaped entity
html_char-escaped c = ground arith

pub html_text-escape_each : (s : Text) → html_text s ≡ escape_each s
unfolding html_text escape_each
html_text-escape_each [] = refl
html_text-escape_each (c ∷ s) = rw (html_char-escaped c, html_text-escape_each s) refl

contains_text-contains : (s : Text) → contains_text s (codes "\"") ≡ contains b'"' s
unfolding contains_text contains has_prefix
contains_text-contains [] = refl
contains_text-contains (c ∷ s) = ground (arith, contains_text-contains s)

quoted-write_quoted : (s : Text) → quoted s ≡ write_quoted s
unfolding quoted write_quoted
quoted-write_quoted s = elim (Bool-cases (contains b'"' s)) [
  | inl e ↦ rw (contains_text-contains s, write_quoted, e) refl
  | inr e ↦ rw (contains_text-contains s, write_quoted, e) refl
]

identifier_of-last_value :
    (key found : Text) (attrs : List Attribute)
    → identifier_of key found attrs ≡ (if has_key key attrs then last_value key attrs else found)
unfolding identifier_of has_key last_value
identifier_of-last_value key found [] = refl
identifier_of-last_value key found (a ∷ attrs) =
    identifier_of-last_value key (if text_eq a.key key then a.val else found) attrs ∙ ground arith

last_value-none :
    (key : Text) (attrs : List Attribute) → has_key key attrs ≡ false → last_value key attrs ≡ []
unfolding has_key last_value
last_value-none key [] h = refl
last_value-none key (a ∷ attrs) h = ground arith

pub last_value-identifier_of :
    (key : Text) (attrs : List Attribute) → last_value key attrs ≡ identifier_of key [] attrs
last_value-identifier_of key attrs =
    ground (arith, identifier_of-last_value key [] attrs, last_value-none key attrs)

pub html_identifiers-doctype_identifiers :
    (p s : Text) → html_identifiers p s ≡ doctype_identifiers p s
unfolding html_identifiers doctype_identifiers text_eq
html_identifiers-doctype_identifiers [] [] = refl
html_identifiers-doctype_identifiers [] (d ∷ s) = rw (quoted-write_quoted (d ∷ s)) refl
html_identifiers-doctype_identifiers (c ∷ p) [] =
    rw (quoted-write_quoted (c ∷ p)) (ap (λ t. codes " PUBLIC " ++ t) (sym (append-nil _)))
html_identifiers-doctype_identifiers (c ∷ p) (d ∷ s) =
    rw (quoted-write_quoted (c ∷ p), quoted-write_quoted (d ∷ s)) refl
