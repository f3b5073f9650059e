-- ===== src/Lexparse/Lexer.antt =====
-- templates/lexparse/lexer.go and token.go: `BaseLexer`, a rune reader with pushback.
pub mod View
use kweb.Base.{ℕ, Bool, true, false, List, [], ◌∷◌, Text, if◌then◌else◌}

-- What `Read` returns: a rune, LexerRuneEOF (-1) or LexerRuneError (-2).
pub data Rune : Type 0 where
  chr : ℕ → Rune
  rune_eof rune_error : Rune

-- How the reader ends: with io.EOF, as a strings.Reader does, or with another error.
pub data Ending : Type 0 where
  at_eof at_fault : Ending

-- The runes that are still to be read from the reader.
pub record Reader : Type 0 where
  pub runes : Text
  pub ending : Ending

-- `unread_runes` has the top of the stack in front, the end of the slice in the source.
pub record BaseLexer : Type 0 where
  pub reader : Reader
  pub unread_runes : List Rune
  pub err : Bool
  pub eof : Bool

unfoldable pub init : Text → BaseLexer
init s = record {
  reader = record { runes = s; ending = at_eof };
  unread_runes = [];
  err = false;
  eof = false;
}

unfoldable pub unread : Rune → BaseLexer → BaseLexer
unread r l = if l.err then l else record l { unread_runes = r ∷ l.unread_runes }

-- The call of `ReadRune`.
read_reader : Text → BaseLexer → Rune × BaseLexer
read_reader (c ∷ cs) l =
    (chr c, record l { reader = record { runes = cs; ending = l.reader.ending } })
read_reader [] l = elim l.reader.ending [
  | at_eof ↦ (rune_eof, record l { eof = true })
  | at_fault ↦ (rune_error, record l { err = true })
]

read_unread : List Rune → BaseLexer → Rune × BaseLexer
unfolding read_reader
read_unread (r ∷ us) l = (r, record l { unread_runes = us })
read_unread [] l = if l.eof then (rune_eof, l) else read_reader l.reader.runes l

unfoldable pub read : BaseLexer → Rune × BaseLexer
unfolding read_unread
read l = if l.err then (rune_error, l) else read_unread l.unread_runes l

unfoldable pub peek : BaseLexer → Rune × BaseLexer
unfolding read unread
peek l = let (r, l') = read l in (r, unread r l')
