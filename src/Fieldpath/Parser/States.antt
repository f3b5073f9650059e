-- ===== src/Fieldpath/Parser/States.antt =====
-- The states that the parser can be in, whatever its input, and what each method makes of them.
use kweb.Base.{
  ℕ, ◌+◌, ◌≤◌, true, List, [], ◌∷◌, length, Text, Option, none, some, Result, ok, err, Result-cases,
  ◌≡◌, ◌≢◌, ◌⊎◌, inl, inr, Bool-cases, Option-cases, ◌∙◌, ap, refl, arith,
}
use kweb.Lexparse.Lexer.{BaseLexer}
use kweb.Lexparse.Lexer.View.{Reads}
use kweb.Lexparse.Token.{TokenType, kind, eof, error, Token, same_type, error_token}
use kweb.Lexparse.Parser.{
  ParseError, out_of_fuel, expected_token, BaseParser, read, peek, peek_token_type, unread, expect,
  expect_type, complete, complete_with, unexpected, unexpected_token,
}
use kweb.Fieldpath.Lexer.{next}
use kweb.Fieldpath.Lexer.Refinement.{lex_text, next-Agrees}
use kweb.Fieldpath.Lexer.Tokens.{weight, IsGood, lex_text-IsFair, IsFair-ok, IsFair-err}

abbrev pub Parser : Type 0
Parser = BaseParser BaseLexer

abbrev pub parser : BaseLexer → List Token → Option ParseError → Parser
parser l us f = record { lexer = l; unread_tokens = us; failure = f }

-- A parser that failed has nothing pushed back; else one token at most is, and the input that is
-- left, that token counted, is at most `n` runes.
abbrev Parts : ℕ → Option ParseError → List Token → BaseLexer → Type 0
Parts n (some e) [] l = e ≢ out_of_fuel
Parts n none [] l = (cs : Text) × Reads l cs × (length cs ≤ n)
Parts n none (t ∷ []) l = (cs : Text) × Reads l cs × (weight t + length cs ≤ n) × IsGood t
Parts n _ us l = ⊥

abbrev pub IsSound : ℕ → Parser → Type 0
IsSound n p = Parts n p.failure p.unread_tokens p.lexer

Parts-mono :
    (n m : ℕ) (f : Option ParseError) (us : List Token) (l : BaseLexer)
    → Parts n f us l
    → n ≤ m
    → Parts m f us l
Parts-mono n m (some e) [] l h k = h
Parts-mono n m (some e) (t ∷ us) l h k = h
Parts-mono n m none [] l (cs, r, b) k = (cs, r, omega arith)
Parts-mono n m none (t ∷ []) l (cs, r, b, g) k = (cs, r, omega arith, g)
Parts-mono n m none (t ∷ u ∷ us) l h k = h

pub IsSound-mono : (n m : ℕ) (p : Parser) → IsSound n p → n ≤ m → IsSound m p
IsSound-mono n m p h k = Parts-mono n m p.failure p.unread_tokens p.lexer h k

-- The method failed: it answers `a`, the mark of an error.
abbrev pub Broken : {A : Type 0} → A → A × Parser → Type 0
Broken a r =
    (e : ParseError) × (l : BaseLexer) × (r ≡ (a, parser l [] (some e))) × (e ≢ out_of_fuel)

-- The method took a token off the input.
abbrev pub Taken : ℕ → Token × Parser → Type 0
Taken n r =
    (t : Token) × (l : BaseLexer) × (cs : Text) × (r ≡ (t, parser l [] none))
    × Reads l cs
    × (weight t + length cs ≤ n)
    × IsGood t

-- The method looked at a token.
abbrev pub Shown : ℕ → TokenType × Parser → Type 0
Shown n r =
    (t : Token) × (l : BaseLexer) × (cs : Text) × (r ≡ (t.token_type, parser l (t ∷ []) none))
    × Reads l cs
    × (weight t + length cs ≤ n)
    × IsGood t

read_fresh :
    (l : BaseLexer) (r : Result ParseError Token)
    → (next l).0 ≡ r
    → read next (parser l [] none) ≡ elim r [
      | ok t ↦ (t, parser (next l).1 [] none)
      | err e ↦ (error_token, parser (next l).1 [] (some e))
    ]
unfolding read
read_fresh l (ok t) h = ground arith
read_fresh l (err e) h = ground arith

read_first :
    (l : BaseLexer) (cs : Text) (n : ℕ)
    → Reads l cs
    → length cs ≤ n
    → Broken error_token (read next (parser l [] none)) ⊎ Taken n (read next (parser l [] none))
read_first l cs n r b =
    let (a, k) = next-Agrees l cs r in
    elim (Result-cases (lex_text cs).0) [
      | inl (t, e) ↦
          let fair = IsFair-ok cs (lex_text cs) t e (lex_text-IsFair cs) in
          inr (
            t,
            (next l).1,
            (lex_text cs).1,
            read_fresh l (ok t) (a ∙ e),
            k,
            omega (arith, fair.1),
            fair.0,
          )
      | inr (x, e) ↦ inl (
        x,
        (next l).1,
        read_fresh l (err x) (a ∙ e),
        IsFair-err cs (lex_text cs) x e (lex_text-IsFair cs),
      )
    ]

read-Parts :
    (n : ℕ) (f : Option ParseError) (us : List Token) (l : BaseLexer)
    → Parts n f us l
    → Broken error_token (read next (parser l us f)) ⊎ Taken n (read next (parser l us f))
read-Parts n (some e) [] l h = inl (e, l, unfold read in refl, h)
read-Parts n (some e) (t ∷ us) l h = absurd h
read-Parts n none [] l (cs, r, b) = read_first l cs n r b
read-Parts n none (t ∷ []) l (cs, r, b, g) = inr (t, l, cs, unfold read in refl, r, b, g)
read-Parts n none (t ∷ u ∷ us) l h = absurd h

-- `read` fails or takes a token.
read-IsSound :
    (n : ℕ) (p : Parser) → IsSound n p → Broken error_token (read next p) ⊎ Taken n (read next p)
read-IsSound n p h = read-Parts n p.failure p.unread_tokens p.lexer h

peek-Parts :
    (n : ℕ) (f : Option ParseError) (us : List Token) (l : BaseLexer)
    → Parts n f us l
    → let r = peek_token_type next (parser l us f) in Broken error r ⊎ (Shown n r × (f ≡ none))
unfolding peek_token_type peek unread read
peek-Parts n (some e) [] l h = inl (e, l, refl, h)
peek-Parts n none [] l (cs, r, b) = elim (read_first l cs n r b) [
  | inl (e, k, eq, ne) ↦ inl (e, k, rw eq, ne)
  | inr (t, k, cs, eq, r, b, g) ↦ inr ((t, k, cs, rw eq, r, b, g), refl)
]
peek-Parts n (some e) (t ∷ us) l h = absurd h
peek-Parts n none (t ∷ []) l (cs, r, b, g) = inr ((t, l, cs, refl, r, b, g), refl)
peek-Parts n none (t ∷ u ∷ us) l h = absurd h

-- A look ahead shows TokenTypeError behind a failure, or a token, which is then pushed back.
pub peek-IsSound :
    (n : ℕ) (p : Parser)
    → IsSound n p
    → Broken error (peek_token_type next p)
      ⊎ (Shown n (peek_token_type next p) × (p.failure ≡ none))
peek-IsSound n p h = peek-Parts n p.failure p.unread_tokens p.lexer h

-- `Expect` on the token that a look ahead showed.
pub expect_shown :
    (tt : TokenType) (t : Token) (l : BaseLexer)
    → same_type t.token_type tt ≡ true
    → expect next tt (parser l (t ∷ []) none) ≡ (t, parser l [] none)
unfolding expect read
expect_shown tt t l h = rw h

expect-read :
    (tt : TokenType) (p q : Parser) (t : Token)
    → read next p ≡ (t, q)
    → expect next tt p ≡ expect_type tt t q
unfolding expect
expect-read tt p q t e = ap (λ r. expect_type tt r.0 r.1) e

-- `Expect` of a type of the lexer fails, or takes a token of that type.
pub expect-IsSound :
    (n k : ℕ) (p : Parser)
    → IsSound n p
    → Broken error_token (expect next (kind k) p)
      ⊎ ((taken : Taken n (expect next (kind k) p)) × (same_type taken.0.token_type (kind k)
            ≡ true))
unfolding expect_type
expect-IsSound n k p h = elim (read-IsSound n p h) [
  | inl (e, l, eq, ne) ↦ inl (e, l, expect-read (kind k) p _ _ eq, ne)
  | inr (t, l, cs, eq, r, b, g) ↦ elim (Bool-cases (same_type t.token_type (kind k))) [
    | inl same ↦ inr ((t, l, cs, expect-read (kind k) p _ _ eq ∙ rw same, r, b, g), same)
    | inr other ↦
        inl (
          expected_token (kind k) t.token_type,
          l,
          expect-read (kind k) p _ _ eq ∙ rw other,
          λ x. cc,
        )
  ]
]

-- A failure stays.
pub expect_keeps :
    (tt : TokenType) (p : Parser) → (expect next tt p).1.failure ≡ none → p.failure ≡ none
unfolding expect expect_type read
expect_keeps tt p h = elim (Option-cases p.failure) [ inl e ↦ e | inr (x, e) ↦ ground (arith) ]

-- `Complete` behind a failure.
pub complete_failed :
    (p : Parser) (e : ParseError)
    → p.failure ≡ some e
    → p.unread_tokens ≡ []
    → complete next p ≡ some e
unfolding complete peek_token_type peek read unread
complete_failed p e h u = ground arith

Parts-failed :
    (n : ℕ) (f : Option ParseError) (us : List Token) (l : BaseLexer) (e : ParseError)
    → f ≡ some e
    → Parts n f us l
    → (us ≡ []) × (e ≢ out_of_fuel)
Parts-failed n (some x) [] l e q h = (refl, λ z. h (cc))
Parts-failed n (some x) (t ∷ us) l e q h = absurd h
Parts-failed n none us l e q h = cc

complete-peek :
    (p q : Parser) (tt : TokenType)
    → peek_token_type next p ≡ (tt, q)
    → complete next p ≡ complete_with q.failure (peek next q).0 q
unfolding complete
complete-peek p q tt e = ap (λ r. complete_with r.1.failure (peek next r.1).0 r.1) e

Parts-complete :
    (n : ℕ) (f : Option ParseError) (us : List Token) (l : BaseLexer)
    → Parts n f us l
    → complete next (parser l us f) ≢ some out_of_fuel
unfolding complete_with
Parts-complete n f us l h c = elim (peek-Parts n f us l h) [
  | inl (e, k, eq, ne) ↦ ne (cc (complete-peek _ _ _ eq))
  | inr ((t, k, cs, eq, r, b, g), fresh) ↦ elim (Bool-cases (same_type t.token_type eof)) [
    | inl last ↦ cc (rw last at (complete-peek _ _ _ eq))
    | inr other ↦ cc (rw other at (complete-peek _ _ _ eq))
  ]
]

-- Where `Complete` has nothing to complain of, the parser has not failed; and it never complains of
-- fuel.
pub complete-IsSound :
    (n : ℕ) (p : Parser)
    → IsSound n p
    → (complete next p ≡ none → p.failure ≡ none) × (complete next p ≢ some out_of_fuel)
complete-IsSound n p h = (passes, Parts-complete n p.failure p.unread_tokens p.lexer h)
  where
    passes : complete next p ≡ none → p.failure ≡ none
    passes c = elim (Option-cases p.failure) [
      | inl e ↦ e
      | inr (x, e) ↦
          let (u, ne) = Parts-failed n p.failure p.unread_tokens p.lexer x e h in
          cc (complete_failed p x e u)
    ]

-- `Unexpected` answers an error of its own and leaves the parser failed.
pub unexpected_lem :
    (n : ℕ) (p : Parser)
    → IsSound n p
    → ((unexpected next p).0 ≢ out_of_fuel) × IsSound n (unexpected next p).1
unfolding unexpected
unexpected_lem n p h = elim (read-IsSound n p h) [
  | inl (e, l, eq, ne) ↦
      (cc, fails (read next p).1 (read next p).0 (ap (λ r. r.1.unread_tokens) eq))
  | inr (t, l, cs, eq, r, b, g) ↦
      (cc, fails (read next p).1 (read next p).0 (ap (λ r. r.1.unread_tokens) eq))
]
  where
    fails :
        (q : Parser) (t : Token)
        → q.unread_tokens ≡ []
        → IsSound n (record q { failure = some (unexpected_token t) })
    fails q t u = rw u (λ x. cc)
