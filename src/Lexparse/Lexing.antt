-- ===== src/Lexparse/Lexing.antt =====
-- A lexer over `BaseLexer` against its description on plain texts, and the stream of tokens that it
-- makes for `BaseParser`.
use kweb.Base.{Bool, true, false, if◌then◌else◌, List, [], ◌∷◌, Text, Result, ok, ◌≡◌}
use kweb.Lexparse.Lexer.{BaseLexer, init}
use kweb.Lexparse.Lexer.View.{Reads, init-Reads}
use kweb.Lexparse.Token.{Token}
use kweb.Lexparse.Parser.{ParseError, Next}
use kweb.Lexparse.Parser.Stream.{eof_token, IsInner, Delivery}

-- What one call of `Next` takes off a text: a token or an error, and the text behind it.
abbrev pub Lexed : Type 0
Lexed = Result ParseError Token × Text

-- A lexer's answer agrees with the one on texts.
abbrev pub Agrees : Lexed → Result ParseError Token × BaseLexer → Type 0
Agrees want got = (got.0 ≡ want.0) × Reads got.1 want.1

pub Agrees-if :
    (b : Bool) {x y : Lexed} {p q : Result ParseError Token × BaseLexer}
    → Agrees x p
    → Agrees y q
    → Agrees (if b then x else y) (if b then p else q)
Agrees-if true hx hy = hx
Agrees-if false hx hy = hy

-- The text is made of these tokens, and nothing that makes a token is behind them.
pub data Lexes (lex : Text → Lexed) : Text → List Token → Type 0 where
  finish : {cs : Text} → lex cs ≡ (ok eof_token, []) → Lexes lex cs []
  more :
      {cs rest : Text} {t : Token} {ts : List Token}
      → lex cs ≡ (ok t, rest)
      → IsInner t
      → Lexes lex rest ts
      → Lexes lex cs (t ∷ ts)

-- The lexer has before it a text made of these tokens.
pub record Delivers (lex : Text → Lexed) (l : BaseLexer) (ts : List Token) : Type 0 where
  pub input : Text
  pub reads : Reads l input
  pub lexes : Lexes lex input ts

pub init-Delivers :
    (lex : Text → Lexed) (s : Text) (ts : List Token) → Lexes lex s ts → Delivers lex (init s) ts
init-Delivers lex s ts h = record { input = s; reads = init-Reads s; lexes = h }

module _ {lex : Text → Lexed} {next : Next BaseLexer}
    (agrees : (l : BaseLexer) (cs : Text) → Reads l cs → Agrees (lex cs) (next l))
    (ends : lex [] ≡ (ok eof_token, [])) where
  pub next_cons_lem :
      (l : BaseLexer) {cs : Text} {t : Token} {ts : List Token}
      → Reads l cs
      → Lexes lex cs (t ∷ ts)
      → ((next l).0 ≡ ok t) × Delivers lex (next l).1 ts
  next_cons_lem l {cs} h (more e i k) =
      let (a, r) = agrees l cs h in (rw e at a, record { input = _; reads = rw e at r; lexes = k })

  pub next_nil_lem :
      (l : BaseLexer) {cs : Text}
      → Reads l cs
      → Lexes lex cs []
      → ((next l).0 ≡ ok eof_token) × Delivers lex (next l).1 []
  next_nil_lem l {cs} h (finish e) =
      let (a, r) = agrees l cs h in
      (rw e at a, record { input = []; reads = rw e at r; lexes = finish ends })

  pub inner_lem : {cs : Text} {t : Token} {ts : List Token} → Lexes lex cs (t ∷ ts) → IsInner t
  inner_lem (more e i k) = i

  -- The lexer as a source of tokens.
  abbrev pub delivery : Delivery next
  delivery = record {
    delivers = Delivers lex;
    next_cons = λ l t ts h. next_cons_lem l h.reads h.lexes;
    next_nil = λ l h. next_nil_lem l h.reads h.lexes;
    inner = λ l t ts h. inner_lem h.lexes;
  }
