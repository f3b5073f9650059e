-- ===== src/Render/Html.antt =====
-- A description of HTML output for templates/render.go, with its own tables: it takes nothing from
-- the model of the code.
pub mod Agrees
use kweb.Base.{
  ℕ, Bool, true, false, ◌||◌, ◌==◌, if◌then◌else◌, List, [], ◌∷◌, ◌++◌, Text, codes, text_eq,
}
use kweb.Base.Strings.{contains_text, fields}
use kweb.Render.Tree.{Attribute}

-- A name is one of those that a text lists.
unfoldable pub listed : Text → List Text → Bool
listed name [] = false
listed name (n ∷ names) = if text_eq n name then true else listed name names

-- The elements of HTML that have no children and no closing tag.
unfoldable pub is_void : Text → Bool
unfolding listed fields
is_void name =
    listed name
      (fields (codes "area base br col embed hr img input keygen link meta param source track wbr"))

-- The elements of HTML whose texts are read without references.
unfoldable pub is_raw : Text → Bool
unfolding listed fields
is_raw name =
    listed name (fields (codes "iframe noembed noframes noscript plaintext script style xmp"))

-- The elements of HTML that a parser takes a newline from, behind the opening tag.
unfoldable pub loses_newline : Text → Bool
unfolding listed fields
loses_newline name = listed name (fields (codes "pre listing textarea"))

-- A character in a text or in a value of an attribute.
unfoldable pub html_char : ℕ → Text
html_char c =
    if c == b'<'
    then codes "&lt;"
    else if c == b'>'
    then codes "&gt;"
    else if c == b'&'
    then codes "&amp;"
    else if c == b'"'
    then codes "&#34;"
    else if c == b'\''
    then codes "&#39;"
    else if c == b'\r'
    then codes "&#13;"
    else c ∷ []

unfoldable pub html_text : Text → Text
unfolding html_char
html_text [] = []
html_text (c ∷ s) = html_char c ++ html_text s

-- An identifier of a doctype, in the quotes that do not stand in it.
unfoldable pub quoted : Text → Text
quoted s =
    if contains_text s (codes "\"")
    then codes "'" ++ (s ++ codes "'")
    else codes "\"" ++ (s ++ codes "\"")

unfoldable pub has_key : Text → List Attribute → Bool
has_key key [] = false
has_key key (a ∷ attrs) = text_eq a.key key || has_key key attrs

-- The value of the last attribute with a key, or nothing.
unfoldable pub last_value : Text → List Attribute → Text
unfolding has_key
last_value key [] = []
last_value key (a ∷ attrs) =
    let later = last_value key attrs in
    if has_key key attrs then later else (if text_eq a.key key then a.val else [])

-- The public and the system identifier of a doctype.
unfoldable pub html_identifiers : Text → Text → Text
unfolding quoted
html_identifiers [] [] = []
html_identifiers [] (d ∷ s) = codes " SYSTEM " ++ quoted (d ∷ s)
html_identifiers (c ∷ p) [] = codes " PUBLIC " ++ quoted (c ∷ p)
html_identifiers (c ∷ p) (d ∷ s) =
    codes " PUBLIC " ++ (quoted (c ∷ p) ++ (codes " " ++ quoted (d ∷ s)))

unfoldable pub html_doctype : Text → List Attribute → Text
unfolding html_identifiers last_value
html_doctype name attrs =
    codes "<!DOCTYPE "
    ++ (name
        ++ (html_identifiers (last_value (codes "public") attrs) (last_value (codes "system") attrs)
            ++ codes ">"))
