-- ===== src/Fieldpath/Lexer/Tokens.antt =====
-- What every token of the lexer is like, whatever the text.
use kweb.Base.{
  ℕ, suc, ◌+◌, ◌≤◌, Bool, true, false, ◌||◌, ◌==◌, if◌then◌else◌, Bool-cases, inl, inr, [], ◌∷◌,
  all, length, Text, ok, err, ◌≡◌, ◌≢◌, refl, subst, arith,
}
use kweb.Lexparse.Token.{kind, eof, error, Token, same_type}
use kweb.Lexparse.Parser.{ParseError, out_of_fuel}
use kweb.Lexparse.Lexing.{Lexed}
use kweb.Fieldpath.Lexer.{identifier, quoted_string, token, is_identifier_rune}
use kweb.Fieldpath.Lexer.Refinement.{prefix_quoted, identifier_span, quoted_span, lex_one, lex_text}
use kweb.Fieldpath.Lexer.Stream.{IsName, name, starts_identifier}

-- The runes that a token takes at least: one, or none for the end.
abbrev pub weight : Token → ℕ
weight t = if same_type t.token_type eof then 0 else 1

pub record IsGood (t : Token) : Type 0 where
  pub no_error : same_type t.token_type error ≡ false
  pub named : same_type t.token_type identifier ≡ true → IsName t.value

-- A good token and a shorter rest, or an error that is the lexer's own.
abbrev pub IsFair : Text → Lexed → Type 0
IsFair cs (ok t, rest) = IsGood t × (weight t + length rest ≤ length cs)
IsFair cs (err e, rest) = e ≢ out_of_fuel

identifier_span-all :
    (cs : Text)
    → (all is_identifier_rune (identifier_span cs).0 ≡ true)
      × (length (identifier_span cs).1 ≤ length cs)
unfolding identifier_span
identifier_span-all [] = (refl, omega arith)
identifier_span-all (c ∷ cs) = ground (arith, identifier_span-all cs)

-- A quoted token and a rest without it and its closing quote, or an error of the lexer.
IsQuoted : Text → Lexed → Type 0
IsQuoted cs (ok t, rest) = (t.token_type ≡ quoted_string) × (suc (length rest) ≤ length cs)
IsQuoted cs (err e, rest) = e ≢ out_of_fuel

prefix_quoted-IsQuoted :
    (c : ℕ) (cs : Text) (x : Lexed) → IsQuoted cs x → IsQuoted (c ∷ cs) (prefix_quoted c x)
unfolding IsQuoted
prefix_quoted-IsQuoted c cs (ok t, rest) h = (h.0, omega arith)
prefix_quoted-IsQuoted c cs (err e, rest) h = h

quoted_span-IsQuoted : (quote : ℕ) (cs : Text) → IsQuoted cs (quoted_span quote cs)
unfolding quoted_span IsQuoted
quoted_span-IsQuoted quote [] = cc
quoted_span-IsQuoted quote (c ∷ cs) = elim (Bool-cases (c == quote)) [
  | inl closes ↦ rw closes (refl, omega arith)
  | inr inside ↦
      rw inside (prefix_quoted-IsQuoted c cs (quoted_span quote cs) (quoted_span-IsQuoted quote cs))
]

IsQuoted-IsFair : (c : ℕ) (cs : Text) (x : Lexed) → IsQuoted cs x → IsFair (c ∷ cs) x
unfolding IsQuoted
IsQuoted-IsFair c cs (ok t, rest) h =
    (record { no_error = rw (h.0); named = λ k. cc (rw (h.0) at k) }, rw (h.0) (omega arith))
IsQuoted-IsFair c cs (err e, rest) h = h

IsFair-if :
    (b : Bool) (cs : Text) (x y : Lexed)
    → IsFair cs x
    → (b ≡ false → IsFair cs y)
    → IsFair cs (if b then x else y)
IsFair-if true cs x y hx hy = hx
IsFair-if false cs x y hx hy = hy refl

-- A rune that is a token by itself.
IsFair-single :
    (tt c : ℕ) (s cs : Text) → (tt == b'I') ≡ false → IsFair (c ∷ cs) (ok (token (kind tt) s), cs)
IsFair-single tt c s cs h = (record { no_error = refl; named = λ k. cc }, omega arith)

IsFair-cons : (c : ℕ) (cs : Text) (x : Lexed) → IsFair cs x → IsFair (c ∷ cs) x
IsFair-cons c cs (ok t, rest) h = (h.0, omega arith)
IsFair-cons c cs (err e, rest) h = h

-- A rune that passes every test of the switch starts a name.
starts_other :
    (c : ℕ)
    → (c == b' ') ≡ false
    → (c == b'.') ≡ false
    → (c == b'[') ≡ false
    → (c == b']') ≡ false
    → (c == b'=') ≡ false
    → (c == b'!') ≡ false
    → (c == b'"' || c == b'\'') ≡ false
    → starts_identifier c ≡ true
unfolding starts_identifier
starts_other c h h₁ h₂ h₃ h₄ h₅ h₆ = ground arith

lex_one-IsFair : (c : ℕ) (cs : Text) → (c == b' ') ≡ false → IsFair (c ∷ cs) (lex_one c cs)
unfolding lex_one
lex_one-IsFair c cs h = IsFair-if (c == b'.') (c ∷ cs) _ _ (IsFair-single _ c _ cs refl) λ h₁.
    IsFair-if (c == b'[') (c ∷ cs) _ _ (IsFair-single _ c _ cs refl) λ h₂.
      IsFair-if (c == b']') (c ∷ cs) _ _ (IsFair-single _ c _ cs refl) λ h₃.
        IsFair-if (c == b'=') (c ∷ cs) _ _ (IsFair-single _ c _ cs refl) λ h₄.
          IsFair-if (c == b'!') (c ∷ cs) _ _ (IsFair-single _ c _ cs refl) λ h₅.
            IsFair-if (c == b'"' || c == b'\'') (c ∷ cs) _ _
              (IsQuoted-IsFair c cs _ (quoted_span-IsQuoted c cs))
              λ h₆.
                let (a, b) = identifier_span-all cs in
                (
                  record {
                    no_error = refl;
                    named = λ _. name (starts_other c h h₁ h₂ h₃ h₄ h₅ h₆) a;
                  },
                  omega (arith, b),
                )

-- Whatever the text, the lexer takes a good token off it, or fails with an error of its own.
pub lex_text-IsFair : (cs : Text) → IsFair cs (lex_text cs)
unfolding lex_text
lex_text-IsFair [] = (record { no_error = refl; named = λ k. cc }, omega arith)
lex_text-IsFair (c ∷ cs) = elim (Bool-cases (c == b' ')) [
  | inl space ↦ rw space (IsFair-cons c cs (lex_text cs) (lex_text-IsFair cs))
  | inr other ↦ rw other (lex_one-IsFair c cs other)
]

pub IsFair-ok :
    (cs : Text) (x : Lexed) (t : Token)
    → x.0 ≡ ok t
    → IsFair cs x
    → IsGood t × (weight t + length x.1 ≤ length cs)
IsFair-ok cs (ok u, rest) t e h =
    subst (λ v. IsGood v × (weight v + length rest ≤ length cs)) (cc) h
IsFair-ok cs (err x, rest) t e h = cc

pub IsFair-err :
    (cs : Text) (x : Lexed) (f : ParseError) → x.0 ≡ err f → IsFair cs x → f ≢ out_of_fuel
IsFair-err cs (ok u, rest) f e h = cc
IsFair-err cs (err x, rest) f e h = subst (λ v. v ≢ out_of_fuel) (cc) h
