-- ===== src/Lexparse/Parser/Stream.antt =====
-- What a `BaseParser` does while its lexer delivers tokens: the methods over an interface to the
-- lexer, which the lexers of this repository fill.
use kweb.Base.{false, List, [], ◌∷◌, none, ok, ◌≡◌, refl, sym, subst, arith}
use kweb.Lexparse.Token.{eof, Token, same_type, same_type_refl}
use kweb.Lexparse.Parser.{
  Next, BaseParser, init, unread, read, peek, peek_token_type, expect, complete, complete_with,
}

abbrev pub eof_token : Token
eof_token = record { token_type = eof; value = [] }

-- A list of tokens that a lexer delivers, none of which marks the end.
abbrev pub IsInner : Token → Type 0
IsInner t = same_type t.token_type eof ≡ false

-- The interface: `delivers l ts` says that the lexer in state `l` returns the tokens `ts` one by
-- one, and then the end of the input, again and again.
pub record Delivery {L : Type 0} (next : Next L) : Type 1 where
  pub delivers : L → List Token → Type 0
  pub next_cons :
      (l : L) (t : Token) (ts : List Token)
      → delivers l (t ∷ ts)
      → ((next l).0 ≡ ok t) × delivers (next l).1 ts
  pub next_nil : (l : L) → delivers l [] → ((next l).0 ≡ ok eof_token) × delivers (next l).1 []
  pub inner : (l : L) (t : Token) (ts : List Token) → delivers l (t ∷ ts) → IsInner t

abbrev pub head_token : List Token → Token
head_token [] = eof_token
head_token (t ∷ ts) = t

module _ {L : Type 0} {next : Next L} (d : Delivery next) where
  open d use {delivers, next_cons, next_nil, inner}

  -- With the pushed back tokens `us` and the lexer `l` the parser has the tokens `ts` before it.
  -- One token at most is pushed back; it may be the mark of the end.
  abbrev Pending : List Token → L → List Token → Type 0
  Pending [] l ts = delivers l ts
  Pending (u ∷ []) l [] = (u ≡ eof_token) × delivers l []
  Pending (u ∷ []) l (t ∷ ts) = (u ≡ t) × IsInner t × delivers l ts
  Pending (u ∷ v ∷ us) l ts = ⊥

  pub record Ready (p : BaseParser L) (ts : List Token) : Type 0 where
    pub healthy : p.failure ≡ none
    pub pending : Pending p.unread_tokens p.lexer ts

  pub init-Ready : (l : L) (ts : List Token) → delivers l ts → Ready (init l) ts
  unfolding init
  init-Ready l ts h = record { healthy = refl; pending = h }

  abbrev Returns : {A : Type 0} → A → List Token → A × BaseParser L → Type 0
  Returns a ts result = (result.0 ≡ a) × Ready result.1 ts

  abbrev parser_of : L → List Token → BaseParser L
  parser_of l us = record { lexer = l; unread_tokens = us; failure = none }

  Ready-eq :
      (p : BaseParser L) {ts : List Token} → Ready p ts → p ≡ parser_of p.lexer p.unread_tokens
  Ready-eq p h = ground arith

  -- To prove something of a ready parser, prove it of one whose fields are shown.
  of_parts :
      (Q : BaseParser L → Type 0) (p : BaseParser L) {ts : List Token}
      → Ready p ts
      → Q (parser_of p.lexer p.unread_tokens)
      → Q p
  of_parts Q p h q = subst Q (sym (Ready-eq p h)) q

  read-next :
      (l : L) (t : Token)
      → (next l).0 ≡ ok t
      → read next (parser_of l []) ≡ (t, parser_of (next l).1 [])
  unfolding read
  read-next l t e = ground arith

  read_parts_empty :
      (l : L) (us ts : List Token)
      → Pending us l ts
      → (read next (parser_of l us)).1.unread_tokens ≡ []
  unfolding read
  read_parts_empty l [] ts h = ground arith
  read_parts_empty l (u ∷ []) ts h = refl
  read_parts_empty l (u ∷ v ∷ us) ts h = absurd h

  -- Behind a read nothing is pushed back.
  pub read_empty :
      (p : BaseParser L) (ts : List Token) → Ready p ts → (read next p).1.unread_tokens ≡ []
  read_empty p ts h =
      of_parts (λ q. (read next q).1.unread_tokens ≡ []) p h
        (read_parts_empty p.lexer p.unread_tokens ts h.pending)

  read_parts_cons :
      (l : L) (us : List Token) (t : Token) (ts : List Token)
      → Pending us l (t ∷ ts)
      → Returns t ts (read next (parser_of l us))
  read_parts_cons l [] t ts h =
      let (e, k) = next_cons l t ts h in
      rw (read-next l t e) (refl, record { healthy = refl; pending = k })
  read_parts_cons l (u ∷ []) t ts h = unfold read in (h.0, record { healthy = refl; pending = h.2 })
  read_parts_cons l (u ∷ v ∷ us) t ts h = absurd h

  read_parts_nil :
      (l : L) (us : List Token)
      → Pending us l []
      → Returns eof_token [] (read next (parser_of l us))
  read_parts_nil l [] h =
      let (e, k) = next_nil l h in
      rw (read-next l eof_token e) (refl, record { healthy = refl; pending = k })
  read_parts_nil l (u ∷ []) h = unfold read in (h.0, record { healthy = refl; pending = h.1 })
  read_parts_nil l (u ∷ v ∷ us) h = absurd h

  pub read-Ready_cons :
      (p : BaseParser L) (t : Token) (ts : List Token)
      → Ready p (t ∷ ts)
      → Returns t ts (read next p)
  read-Ready_cons p t ts h =
      of_parts (λ q. Returns t ts (read next q)) p h
        (read_parts_cons p.lexer p.unread_tokens t ts h.pending)

  pub read-Ready_nil : (p : BaseParser L) → Ready p [] → Returns eof_token [] (read next p)
  read-Ready_nil p h =
      of_parts (λ q. Returns eof_token [] (read next q)) p h
        (read_parts_nil p.lexer p.unread_tokens h.pending)

  pub read-Ready :
      (p : BaseParser L) (ts : List Token)
      → Ready p ts
      → ((read next p).0 ≡ head_token ts) × ((read next p).1.failure ≡ none)
  read-Ready p [] h = let (e, k) = read-Ready_nil p h in (e, k.healthy)
  read-Ready p (t ∷ ts) h = let (e, k) = read-Ready_cons p t ts h in (e, k.healthy)

  peek-Parts :
      (l : L) (us ts : List Token)
      → Pending us l ts
      → Returns (head_token ts).token_type ts (peek_token_type next (parser_of l us))
  unfolding peek_token_type peek unread
  peek-Parts l [] [] h =
      let (e, k) = next_nil l h in
      rw (read-next l eof_token e) (refl, record { healthy = refl; pending = (refl, k) })
  peek-Parts l [] (t ∷ ts) h =
      let (e, k) = next_cons l t ts h in
      rw (read-next l t e) (refl, record { healthy = refl; pending = (refl, inner l t ts h, k) })
  peek-Parts l (u ∷ []) [] h = (rw (h.0), record { healthy = refl; pending = h })
  peek-Parts l (u ∷ []) (t ∷ ts) h = (rw (h.0), record { healthy = refl; pending = h })
  peek-Parts l (u ∷ v ∷ us) ts h = absurd h

  -- A look ahead shows the type of the next token, or of the end, and takes nothing.
  pub peek-Ready :
      (p : BaseParser L) (ts : List Token)
      → Ready p ts
      → Returns (head_token ts).token_type ts (peek_token_type next p)
  peek-Ready p ts h =
      of_parts (λ q. Returns (head_token ts).token_type ts (peek_token_type next q)) p h
        (peek-Parts p.lexer p.unread_tokens ts h.pending)

  -- `Expect` returns the next token where its type is the expected one.
  pub expect-Ready_cons :
      (p : BaseParser L) (t : Token) (ts : List Token)
      → Ready p (t ∷ ts)
      → Returns t ts (expect next t.token_type p)
  unfolding expect
  expect-Ready_cons p t ts h =
      let (e, k) = read-Ready_cons p t ts h in rw (e, same_type_refl t.token_type) (refl, k)

  pub expect-Ready_nil : (p : BaseParser L) → Ready p [] → Returns eof_token [] (expect next eof p)
  unfolding expect
  expect-Ready_nil p h = let (e, k) = read-Ready_nil p h in rw e (refl, k)

  complete_parts :
      (l : L) (us : List Token) (t : Token)
      → Pending us l []
      → complete_with none t (parser_of l us) ≡ none
  unfolding complete_with
  complete_parts l [] t h = refl
  complete_parts l (u ∷ []) t h = rw (h.0)
  complete_parts l (u ∷ v ∷ us) t h = absurd h

  -- At the end of the tokens `Complete` finds nothing to complain of.
  pub complete-Ready : (p : BaseParser L) → Ready p [] → complete next p ≡ none
  unfolding complete
  complete-Ready p h =
      let p' = (peek_token_type next p).1 in
      let k = (peek-Ready p [] h).1 in
      of_parts (λ q. complete_with q.failure (peek next q).0 q ≡ none) p' k
        (complete_parts p'.lexer p'.unread_tokens _ k.pending)
