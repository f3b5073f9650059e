-- ===== src/Fieldpath/Lexer/Refinement.antt =====
-- The lexer against a description on plain texts: what one call of `Next` takes off the input.
use kweb.Base.{
  ℕ, zero, suc, ◌<◌, ◌||◌, ◌==◌, if◌then◌else◌, Bool-cases, inl, inr, [], ◌∷◌, ◌++◌, append-nil,
  append_assoc, length, Text, ok, err, ◌≡◌, refl, arith,
}
use kweb.Lexparse.Lexer.{BaseLexer, read}
use kweb.Lexparse.Lexer.View.{
  Reads, read-Reads_cons, read-Reads_nil, unread-Reads_chr, length-Reads,
}
use kweb.Lexparse.Token.{eof}
use kweb.Lexparse.Parser.{no_closing_quote}
use kweb.Lexparse.Lexing.{Lexed, Agrees, Agrees-if}
use kweb.Fieldpath.Lexer.{
  identifier, quoted_string, dot, left_square_bracket, right_square_bracket, negation, equals,
  token, is_identifier_rune, rounds, lex_quoted_string, lex_identifier, lex_rune, next_loop, next,
}

-- The identifier runes in front, and what is behind them.
unfoldable pub identifier_span : Text → Text × Text
identifier_span [] = ([], [])
identifier_span (c ∷ cs) =
    let (a, b) = identifier_span cs in if is_identifier_rune c then (c ∷ a, b) else ([], c ∷ cs)

abbrev pub prefix_quoted : ℕ → Lexed → Lexed
prefix_quoted c (ok t, rest) = (ok (token t.token_type (c ∷ t.value)), rest)
prefix_quoted c (err e, rest) = (err e, rest)

-- A string up to its closing quote.
unfoldable pub quoted_span : ℕ → Text → Lexed
quoted_span quote [] = (err no_closing_quote, [])
quoted_span quote (c ∷ cs) =
    let more = prefix_quoted c (quoted_span quote cs) in
    if c == quote then (ok (token quoted_string []), cs) else more

unfoldable pub lex_one : ℕ → Text → Lexed
lex_one c cs =
    if c == b'.'
    then (ok (token dot (b'.' ∷ [])), cs)
    else if c == b'['
    then (ok (token left_square_bracket (b'[' ∷ [])), cs)
    else if c == b']'
    then (ok (token right_square_bracket (b']' ∷ [])), cs)
    else if c == b'='
    then (ok (token equals (b'=' ∷ [])), cs)
    else if c == b'!'
    then (ok (token negation (b'!' ∷ [])), cs)
    else if c == b'"' || c == b'\''
    then quoted_span c cs
    else (ok (token identifier (c ∷ (identifier_span cs).0)), (identifier_span cs).1)

-- One token off the front of a text.
unfoldable pub lex_text : Text → Lexed
lex_text [] = (ok (token eof []), [])
lex_text (c ∷ cs) = let again = lex_text cs in if c == b' ' then again else lex_one c cs

append_to : Text → Lexed → Lexed
append_to s (ok t, rest) = (ok (token t.token_type (s ++ t.value)), rest)
append_to s (err e, rest) = (err e, rest)

append_to-prefix_quoted :
    (s : Text) (c : ℕ) (x : Lexed) → append_to (s ++ c ∷ []) x ≡ append_to s (prefix_quoted c x)
unfolding append_to
append_to-prefix_quoted s c (ok t, rest) = rw append_assoc
append_to-prefix_quoted s c (err e, rest) = refl

append_to-nil : (x : Lexed) → append_to [] x ≡ x
unfolding append_to
append_to-nil (ok t, rest) = refl
append_to-nil (err e, rest) = refl

lex_quoted_string-Agrees :
    (n quote : ℕ) (s : Text) (l : BaseLexer) (cs : Text)
    → Reads l cs
    → length cs < n
    → Agrees (append_to s (quoted_span quote cs)) (lex_quoted_string n quote s l)
unfolding lex_quoted_string quoted_span append_to
lex_quoted_string-Agrees zero quote s l cs h lt = absurd (omega arith)
lex_quoted_string-Agrees (suc n) quote s l [] h lt =
    let (e, k) = read-Reads_nil l h in rw (e, lex_quoted_string) (refl, k)
lex_quoted_string-Agrees (suc n) quote s l (c ∷ cs) h lt =
    let (e, k) = read-Reads_cons l c cs h in
    let more = lex_quoted_string-Agrees n quote (s ++ c ∷ []) (read l).1 cs k (omega arith) in
    rw (e, lex_quoted_string)
      (elim (Bool-cases (c == quote)) [
        | inl closes ↦ rw (closes, append-nil) (refl, k)
        | inr inside ↦ rw inside (rw append_to-prefix_quoted at more)
      ])

lex_identifier-Agrees :
    (n : ℕ) (s : Text) (l : BaseLexer) (cs : Text)
    → Reads l cs
    → length cs < n
    → Agrees
        (ok (token identifier (s ++ (identifier_span cs).0)), (identifier_span cs).1)
        (lex_identifier n s l)
unfolding lex_identifier identifier_span
lex_identifier-Agrees zero s l cs h lt = absurd (omega arith)
lex_identifier-Agrees (suc n) s l [] h lt =
    let (e, k) = read-Reads_nil l h in rw (e, lex_identifier, append-nil) (refl, k)
lex_identifier-Agrees (suc n) s l (c ∷ cs) h lt =
    let (e, k) = read-Reads_cons l c cs h in
    let more = lex_identifier-Agrees n (s ++ c ∷ []) (read l).1 cs k (omega arith) in
    rw (e, lex_identifier)
      (elim (Bool-cases (is_identifier_rune c)) [
        | inl in_name ↦ rw in_name (rw append_assoc at more)
        | inr other ↦ rw (other, append-nil) (refl, unread-Reads_chr (read l).1 c cs k)
      ])

-- The rounds of a lexer are enough for its input.
lt_rounds : (l : BaseLexer) (cs : Text) → Reads l cs → length cs < rounds l
lt_rounds l cs h = omega (arith, length-Reads l cs h)

lex_rune-Agrees :
    (c : ℕ) (l : BaseLexer) (cs : Text) → Reads l cs → Agrees (lex_one c cs) (lex_rune c l)
lex_rune-Agrees c l cs h =
    let fuel = lt_rounds l cs h in
    let quoted = rw append_to-nil at (lex_quoted_string-Agrees (rounds l) c [] l cs h fuel) in
    let name = lex_identifier-Agrees (rounds l) (c ∷ []) l cs h fuel in
    unfold lex_one lex_rune in
    Agrees-if (c == b'.') (refl, h)
      (Agrees-if (c == b'[') (refl, h)
        (Agrees-if (c == b']') (refl, h)
          (Agrees-if (c == b'=') (refl, h)
            (Agrees-if (c == b'!') (refl, h) (Agrees-if (c == b'"' || c == b'\'') quoted name)))))

next_loop-Agrees :
    (n : ℕ) (l : BaseLexer) (cs : Text)
    → Reads l cs
    → length cs < n
    → Agrees (lex_text cs) (next_loop n l)
unfolding next_loop lex_text
next_loop-Agrees zero l cs h lt = absurd (omega arith)
next_loop-Agrees (suc n) l [] h lt = let (e, k) = read-Reads_nil l h in rw (e, next_loop) (refl, k)
next_loop-Agrees (suc n) l (c ∷ cs) h lt =
    let (e, k) = read-Reads_cons l c cs h in
    rw (e, next_loop)
      (elim (Bool-cases (c == b' ')) [
        | inl space ↦ rw space (next_loop-Agrees n (read l).1 cs k (omega arith))
        | inr other ↦ rw other (lex_rune-Agrees c (read l).1 cs k)
      ])

-- One call of `Next` returns the token, or the error, that stands in front of the input, and leaves
-- the input behind it.
pub next-Agrees : (l : BaseLexer) (cs : Text) → Reads l cs → Agrees (lex_text cs) (next l)
unfolding next
next-Agrees l cs h = next_loop-Agrees (rounds l) l cs h (lt_rounds l cs h)
