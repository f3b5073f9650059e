-- ===== src/Mustache/Lexer/Refinement.antt =====
-- The lexer against a description on plain texts.
use kweb.Base.{
  ℕ, zero, suc, ◌<◌, Bool, ◌||◌, ◌==◌, if◌then◌else◌, Bool-cases, inl, inr, [], ◌∷◌, ◌++◌,
  append-nil, append_assoc, length, Text, ok, ◌≡◌, refl, arith,
}
use kweb.Lexparse.Lexer.{chr, rune_eof, BaseLexer, read, peek}
use kweb.Lexparse.Lexer.View.{
  Reads, read-Reads_cons, read-Reads_nil, unread-Reads_chr, peek-Reads, length-Reads,
}
use kweb.Lexparse.Token.{TokenType, eof}
use kweb.Lexparse.Lexing.{Lexed, Agrees, Agrees-if}
use kweb.Mustache.Lexer.{
  left_mustache, right_mustache, other, token, rounds, lex_other, lex_brace, lex_rune, next,
}

abbrev pub is_brace : ℕ → Bool
is_brace c = c == b'{' || c == b'}'

-- The text up to the next brace, and what is behind it.
unfoldable pub plain_span : Text → Text × Text
plain_span [] = ([], [])
plain_span (c ∷ cs) = let (a, b) = plain_span cs in if is_brace c then ([], c ∷ cs) else (c ∷ a, b)

-- A text token that starts with this rune, whatever it is.
abbrev pub plain_from : ℕ → Text → Lexed
plain_from c cs = (ok (token other (c ∷ (plain_span cs).0)), (plain_span cs).1)

abbrev pub brace_text : TokenType → ℕ → Text → Lexed
brace_text tt c [] = plain_from c []
brace_text tt c (d ∷ cs) =
    if d == c then (ok (token tt (c ∷ c ∷ [])), cs) else plain_from c (d ∷ cs)

unfoldable pub lex_text : Text → Lexed
lex_text [] = (ok (token eof []), [])
lex_text (c ∷ cs) =
    if c == b'{'
    then brace_text left_mustache c cs
    else if c == b'}'
    then brace_text right_mustache c cs
    else plain_from c cs

lex_other-Agrees :
    (n : ℕ) (s : Text) (l : BaseLexer) (cs : Text)
    → Reads l cs
    → length cs < n
    → Agrees (ok (token other (s ++ (plain_span cs).0)), (plain_span cs).1) (lex_other n s l)
unfolding lex_other plain_span
lex_other-Agrees zero s l cs h lt = absurd (omega arith)
lex_other-Agrees (suc n) s l [] h lt =
    let (e, k) = read-Reads_nil l h in rw (e, lex_other, append-nil) (refl, k)
lex_other-Agrees (suc n) s l (c ∷ cs) h lt =
    let (e, k) = read-Reads_cons l c cs h in
    let more = lex_other-Agrees n (s ++ c ∷ []) (read l).1 cs k (omega arith) in
    rw (e, lex_other)
      (elim (Bool-cases (is_brace c)) [
        | inl brace ↦ rw (brace, append-nil) (refl, unread-Reads_chr (read l).1 c cs k)
        | inr plain ↦ rw plain (rw append_assoc at more)
      ])

-- The rounds of a lexer are enough for its input.
lt_rounds : (l : BaseLexer) (cs : Text) → Reads l cs → length cs < rounds l
lt_rounds l cs h = omega (arith, length-Reads l cs h)

plain_from-Agrees :
    (c : ℕ) (l : BaseLexer) (cs : Text)
    → Reads l cs
    → Agrees (plain_from c cs) (lex_other (rounds l) (c ∷ []) l)
plain_from-Agrees c l cs h = lex_other-Agrees (rounds l) (c ∷ []) l cs h (lt_rounds l cs h)

lex_brace-Agrees :
    (tt : TokenType) (c : ℕ) (l : BaseLexer) (cs : Text)
    → Reads l cs
    → Agrees (brace_text tt c cs) (lex_brace tt c l)
unfolding lex_brace
lex_brace-Agrees tt c l [] h =
    let (e, k) = peek-Reads l [] h in rw (e, lex_brace) (plain_from-Agrees c (peek l).1 [] k)
lex_brace-Agrees tt c l (d ∷ cs) h =
    let (e, k) = peek-Reads l (d ∷ cs) h in
    let (_, k') = read-Reads_cons (peek l).1 d cs k in
    rw (e, lex_brace) (Agrees-if (d == c) (refl, k') (plain_from-Agrees c (peek l).1 (d ∷ cs) k))

lex_rune-Agrees :
    (c : ℕ) (l : BaseLexer) (cs : Text) → Reads l cs → Agrees (lex_text (c ∷ cs)) (lex_rune c l)
unfolding lex_text lex_rune
lex_rune-Agrees c l cs k =
    Agrees-if (c == b'{') (lex_brace-Agrees left_mustache c l cs k) (
      Agrees-if (c == b'}') (lex_brace-Agrees right_mustache c l cs k) (plain_from-Agrees c l cs k))

-- The two cases of `Next` on what it reads.
next_chr : (l : BaseLexer) (c : ℕ) → (read l).0 ≡ chr c → next l ≡ lex_rune c (read l).1
unfolding next
next_chr l c e = rw (e, next)

next_eof : (l : BaseLexer) → (read l).0 ≡ rune_eof → next l ≡ (ok (token eof []), (read l).1)
unfolding next
next_eof l e = rw (e, next)

-- One call of `Next` returns the token that stands in front of the input, and leaves the input
-- behind it.
pub next-Agrees : (l : BaseLexer) (cs : Text) → Reads l cs → Agrees (lex_text cs) (next l)
next-Agrees l [] h =
    let (e, k) = read-Reads_nil l h in rw (next_eof l e) (unfold lex_text in (refl, k))
next-Agrees l (c ∷ cs) h =
    let (e, k) = read-Reads_cons l c cs h in rw (next_chr l c e) (lex_rune-Agrees c (read l).1 cs k)
