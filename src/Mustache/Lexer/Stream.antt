-- ===== src/Mustache/Lexer/Stream.antt =====
-- The tokens of a text: the lexer takes every text apart, and loses nothing of it.
use kweb.Base.{
  ℕ, zero, suc, ◌<◌, ◌≤◌, Bool, true, false, ◌==◌, if◌then◌else◌, Bool-cases, inl, inr, List, [],
  ◌∷◌, ◌++◌, length, length-append, Text, ok, ◌&&◌, ◌||◌, ◌≡◌, refl, sym, ap, subst, ◌∙◌, arith,
}
use kweb.Lexparse.Lexer.{init}
use kweb.Lexparse.Token.{TokenType, Token}
use kweb.Lexparse.Parser.Stream.{eof_token, IsInner, Delivery}
use kweb.Lexparse.Lexing
use kweb.Lexparse.Lexing.{Lexed, finish, more}
use kweb.Mustache.Lexer.{left_mustache, right_mustache, other, token, next}
use kweb.Mustache.Lexer.Refinement.{
  is_brace, plain_span, plain_from, brace_text, lex_text, next-Agrees,
}

abbrev pub Lexes : Text → List Token → Type 0
Lexes = Lexing.Lexes lex_text

pub lex_text-nil : lex_text [] ≡ (ok eof_token, [])
unfolding lex_text
lex_text-nil = refl

pub Lexes-nil : Lexes [] []
Lexes-nil = finish lex_text-nil

-- The lexer as a source of tokens for `BaseParser`.
abbrev pub delivery : Delivery next
delivery = Lexing.delivery next-Agrees lex_text-nil

pub init-Delivers : (s : Text) (ts : List Token) → Lexes s ts → delivery.delivers (init s) ts
init-Delivers = Lexing.init-Delivers lex_text

-- The text that the tokens stand for.
abbrev pub values : List Token → Text
values [] = []
values (t ∷ ts) = t.value ++ values ts

-- A text starts with a double brace.
abbrev pub doubled : Text → Bool
doubled (c ∷ d ∷ s) = (c == b'{' && d == b'{') || (c == b'}' && d == b'}')
doubled _ = false

-- In front of the rest, no double brace starts in a text.
abbrev pub Undoubled : Text → Text → Type 0
Undoubled [] rest = Unit
Undoubled (c ∷ s) rest = (doubled (c ∷ (s ++ rest)) ≡ false) × Undoubled s rest

-- The tokens that the lexer makes in front of a text: the two double braces, and texts in which no
-- double brace starts.
pub data IsPiece : Token → Text → Type 0 where
  left : {rest : Text} → IsPiece (token left_mustache (b'{' ∷ b'{' ∷ [])) rest
  right : {rest : Text} → IsPiece (token right_mustache (b'}' ∷ b'}' ∷ [])) rest
  plain : {rest : Text} (s : Text) → Undoubled s rest → IsPiece (token other s) rest

pub data ArePieces : List Token → Type 0 where
  no_pieces : ArePieces []
  piece : {t : Token} {ts : List Token} → IsPiece t (values ts) → ArePieces ts → ArePieces (t ∷ ts)

-- One token off the front of a text that is not empty.
record Split (s : Text) (x : Lexed) : Type 0 where
  first : Token
  rest : Text
  lexed : x ≡ (ok first, rest)
  is_piece : IsPiece first rest
  whole : first.value ++ rest ≡ s
  shorter : length rest < length s

plain_span-append : (cs : Text) → (plain_span cs).0 ++ (plain_span cs).1 ≡ cs
unfolding plain_span
plain_span-append [] = refl
plain_span-append (c ∷ cs) = elim (Bool-cases (is_brace c)) [
  | inl brace ↦ rw brace refl
  | inr text ↦ rw text (ap (◌∷◌ c) (plain_span-append cs))
]

doubled_plain : (c : ℕ) (s : Text) → is_brace c ≡ false → doubled (c ∷ s) ≡ false
doubled_plain c [] h = refl
doubled_plain c (d ∷ s) h = ground arith

plain_span-Undoubled : (cs : Text) → Undoubled (plain_span cs).0 (plain_span cs).1
unfolding plain_span
plain_span-Undoubled [] = tt
plain_span-Undoubled (c ∷ cs) = elim (Bool-cases (is_brace c)) [
  | inl brace ↦ rw brace tt
  | inr text ↦ rw text (doubled_plain c _ text, plain_span-Undoubled cs)
]

plain_from-Split : (c : ℕ) (cs : Text) → doubled (c ∷ cs) ≡ false → Split (c ∷ cs) (plain_from c cs)
plain_from-Split c cs h = record {
  first = token other (c ∷ (plain_span cs).0);
  rest = (plain_span cs).1;
  lexed = refl;
  is_piece = plain (c ∷ (plain_span cs).0) (
    subst (λ s. doubled (c ∷ s) ≡ false) (sym (plain_span-append cs)) h,
    plain_span-Undoubled cs,
  );
  whole = ap (◌∷◌ c) (plain_span-append cs);
  shorter = omega (
    arith,
    length-append {0} (plain_span cs).0 (plain_span cs).1,
    ap length (plain_span-append cs),
  );
}

Split-if :
    (b : Bool) (s : Text) (x y : Lexed)
    → (b ≡ true → Split s x)
    → (b ≡ false → Split s y)
    → Split s (if b then x else y)
Split-if true s x y hx hy = hx refl
Split-if false s x y hx hy = hy refl

double-Split :
    (tt : TokenType) (c d : ℕ) (cs : Text)
    → ((rest : Text) → IsPiece (token tt (c ∷ c ∷ [])) rest)
    → (d == c) ≡ true
    → Split (c ∷ d ∷ cs) (ok (token tt (c ∷ c ∷ [])), cs)
double-Split tt c d cs p same = record {
  first = token tt (c ∷ c ∷ []);
  rest = cs;
  lexed = refl;
  is_piece = p cs;
  whole = ground arith;
  shorter = omega arith;
}

doubled_other : (c d : ℕ) (cs : Text) → (d == c) ≡ false → doubled (c ∷ d ∷ cs) ≡ false
doubled_other c d cs h = ground arith

brace_text-Split :
    (tt : TokenType) (c : ℕ) (cs : Text)
    → ((rest : Text) → IsPiece (token tt (c ∷ c ∷ [])) rest)
    → Split (c ∷ cs) (brace_text tt c cs)
brace_text-Split tt c [] p = plain_from-Split c [] refl
brace_text-Split tt c (d ∷ cs) p =
    Split-if (d == c) _ _ _ (double-Split tt c d cs p)
      (λ e. plain_from-Split c (d ∷ cs) (doubled_other c d cs e))

-- A brace token of the rune that was tested.
brace-IsPiece :
    (tt : TokenType) (c b : ℕ) (rest : Text)
    → (c == b) ≡ true
    → IsPiece (token tt (b ∷ b ∷ [])) rest
    → IsPiece (token tt (c ∷ c ∷ [])) rest
brace-IsPiece tt c b rest e p =
    let same : b ≡ c = ground arith in subst (λ x. IsPiece (token tt (x ∷ x ∷ [])) rest) same p

lex_text-Split : (c : ℕ) (cs : Text) → Split (c ∷ cs) (lex_text (c ∷ cs))
unfolding lex_text
lex_text-Split c cs =
    Split-if (c == b'{') _ _ _
      (λ e. brace_text-Split left_mustache c cs (λ r. brace-IsPiece left_mustache c b'{' r e left))
      (λ l.
        Split-if (c == b'}') _ _ _
          (λ e.
            brace_text-Split right_mustache c cs
              (λ r. brace-IsPiece right_mustache c b'}' r e right))
          (λ r. plain_from-Split c cs (doubled_plain c cs (ground (arith, l, r)))))

IsInner-piece : {t : Token} {rest : Text} → IsPiece t rest → IsInner t
IsInner-piece left = refl
IsInner-piece right = refl
IsInner-piece (plain s _) = refl

-- The text is made of the tokens, and they stand for the whole of it.
pub record IsTokenized (s : Text) : Type 0 where
  pub tokens : List Token
  pub lexes : Lexes s tokens
  pub pieces : ArePieces tokens
  pub whole : values tokens ≡ s
  pub bound : length tokens ≤ length s

tokenize_bounded : (n : ℕ) (s : Text) → length s < n → IsTokenized s
tokenize_bounded zero s h = absurd (omega arith)
tokenize_bounded (suc n) [] h = record {
  tokens = [];
  lexes = Lexes-nil;
  pieces = no_pieces;
  whole = refl;
  bound = omega arith;
}
tokenize_bounded (suc n) (c ∷ cs) h =
    let x = lex_text-Split c cs in
    let later = tokenize_bounded n x.rest (omega (arith, x.shorter)) in
    record {
      tokens = x.first ∷ later.tokens;
      lexes = more x.lexed (IsInner-piece x.is_piece) later.lexes;
      pieces = piece (subst (IsPiece x.first) (sym later.whole) x.is_piece) later.pieces;
      whole = ap (λ r. x.first.value ++ r) later.whole ∙ x.whole;
      bound = omega (arith, x.shorter, later.bound);
    }

-- Every text is made of tokens that stand for the whole of it.
pub tokenize : (s : Text) → IsTokenized s
tokenize s = tokenize_bounded (suc (length s)) s (omega arith)
