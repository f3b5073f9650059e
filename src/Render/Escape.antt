-- ===== src/Render/Escape.antt =====
-- templates/render.go: `escape` and `writeQuoted`. A writer that does not fail is the text that is
-- written; a text is valid UTF-8, which IndexAny searches by code points.
pub mod Laws
use kweb.Base.{
  ℕ, zero, suc, Bool, true, false, ◌||◌, ◌==◌, if◌then◌else◌, Option, none, some, [], ◌∷◌, ◌++◌,
  length, Text, codes,
}

-- `escapedChars`
unfoldable pub is_escaped : ℕ → Bool
is_escaped c = c == b'&' || c == b'\'' || c == b'<' || c == b'>' || c == b'"' || c == 13

-- The switch on an escaped character; its default panics.
unfoldable pub entity : ℕ → Option Text
entity c =
    if c == b'&'
    then some (codes "&amp;")
    else if c == b'\''
    then some (codes "&#39;")
    else if c == b'<'
    then some (codes "&lt;")
    else if c == b'>'
    then some (codes "&gt;")
    else if c == b'"'
    then some (codes "&#34;")
    else if c == 13
    then some (codes "&#13;")
    else none

prepend : ℕ → Option (Text × ℕ × Text) → Option (Text × ℕ × Text)
prepend c none = none
prepend c (some (before, x, after)) = some (c ∷ before, x, after)

-- `strings.IndexAny(s, escapedChars)`: the texts `s[:i]` and `s[i+1:]` around the character `s[i]`.
unfoldable pub index_any : Text → Option (Text × ℕ × Text)
unfolding is_escaped prepend
index_any [] = none
index_any (c ∷ s) =
    let rest = index_any s in if is_escaped c then some ([], c, s) else prepend c rest

-- What is written, or a panic.
write : Text → Option Text → Option Text
write s none = none
write s (some t) = some (s ++ t)

-- The loop of `escape`.
unfoldable pub escape_loop : ℕ → Text → Option Text
unfolding index_any entity write
escape_loop zero s = none
escape_loop (suc n) s = elim (index_any s) [
  | none ↦ some s
  | some (before, c, after) ↦
      let rest = escape_loop n after in
      elim (entity c) [ none ↦ none | some esc ↦ write before (write esc rest) ]
]

-- Each round takes a character; the last finds none.
unfoldable pub escape : Text → Option Text
escape s = escape_loop (suc (length s)) s

unfoldable pub contains : ℕ → Text → Bool
contains q [] = false
contains q (c ∷ s) = if c == q then true else contains q s

unfoldable pub write_quoted : Text → Text
unfolding contains
write_quoted s = let q = if contains b'"' s then b'\'' else b'"' in q ∷ s ++ q ∷ []
