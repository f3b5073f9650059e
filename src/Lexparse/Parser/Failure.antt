-- ===== src/Lexparse/Parser/Failure.antt =====
-- A `BaseParser` behind an error: the error is sticky, and nothing is pushed back any more.
use kweb.Base.{false, List, [], none, some, Option, ok, err, ◌≡◌, ◌≢◌, refl, ap, ◌∙◌, arith}
use kweb.Lexparse.Token.{TokenType, error, Token, same_type, error_token}
use kweb.Lexparse.Parser.{
  ParseError, out_of_fuel, expected_token, unexpected_token, Next, BaseParser, unread, read, peek,
  peek_token_type, expect, expect_type, unexpected, complete, complete_with, Parsed, completed,
}
use kweb.Lexparse.Parser.Stream.{Delivery, Ready, head_token, read-Ready, read_empty}

pub record IsFailed {L : Type 0} (p : BaseParser L) : Type 0 where
  pub cause : ParseError
  pub failed : p.failure ≡ some cause
  pub empty : p.unread_tokens ≡ []
  pub own : cause ≢ out_of_fuel

module _ {L : Type 0} (next : Next L) where
  read_failed : (p : BaseParser L) → IsFailed p → read next p ≡ (error_token, p)
  unfolding read
  read_failed p h = ground (arith, h.failed, h.empty)

  -- A look ahead shows TokenTypeError.
  pub peek_failed : (p : BaseParser L) → IsFailed p → peek_token_type next p ≡ (error, p)
  unfolding peek_token_type peek read unread
  peek_failed p h = ground (arith, h.failed, h.empty)

  expect-read :
      (want : TokenType) (p q : BaseParser L) (t : Token)
      → read next p ≡ (t, q)
      → expect next want p ≡ expect_type want t q
  unfolding expect
  expect-read want p q t e = ap (λ r. expect_type want r.0 r.1) e

  expect_type_failed :
      (want : TokenType) (p : BaseParser L)
      → same_type error want ≡ false
      → IsFailed p
      → expect_type want error_token p ≡ (error_token, p)
  unfolding expect_type
  expect_type_failed want p e h = ground (arith, h.failed)

  -- `Expect` keeps the failure.
  pub expect_failed :
      (want : TokenType) (p : BaseParser L)
      → same_type error want ≡ false
      → IsFailed p
      → expect next want p ≡ (error_token, p)
  expect_failed want p e h =
      expect-read want p p error_token (read_failed p h) ∙ expect_type_failed want p e h

  unexpected-read :
      (p q : BaseParser L) (t : Token)
      → read next p ≡ (t, q)
      → unexpected next p ≡ (unexpected_token t, record q { failure = some (unexpected_token t) })
  unfolding unexpected
  unexpected-read p q t e =
      ap (λ r. (unexpected_token r.0, record (r.1) { failure = some (unexpected_token r.0) })) e

  -- `Unexpected` answers an error of its own.
  pub unexpected_failed :
      (p : BaseParser L) → IsFailed p → (unexpected next p).0 ≡ unexpected_token error_token
  unexpected_failed p h = ap (λ r. r.0) (unexpected-read p p error_token (read_failed p h))

  complete-peek :
      (p q : BaseParser L) (shown : TokenType)
      → peek_token_type next p ≡ (shown, q)
      → complete next p ≡ complete_with q.failure (peek next q).0 q
  unfolding complete
  complete-peek p q shown e = ap (λ r. complete_with r.1.failure (peek next r.1).0 r.1) e

  complete_with-some :
      (e : ParseError) (f : Option ParseError) (t : Token) (p : BaseParser L)
      → f ≡ some e
      → complete_with f t p ≡ some e
  unfolding complete_with
  complete_with-some e (some x) t p h = h
  complete_with-some e none t p h = cc

  -- `Complete` reports the failure.
  pub complete_failed : (p : BaseParser L) (h : IsFailed p) → complete next p ≡ some h.cause
  complete_failed p h =
      complete-peek p p error (peek_failed p h)
      ∙ complete_with-some h.cause p.failure (peek next p).0 p h.failed

  -- A parse is not accepted behind a failure.
  pub completed_failed :
      {A : Type 0} (r : Parsed A) (p : BaseParser L) (a : A)
      → IsFailed p
      → completed next (r, p) ≢ ok a
  unfolding completed
  completed_failed (ok c) p a h e = cc (rw (complete_failed p h, completed) at e)
  completed_failed (err x) p a h e = cc

module _ {L : Type 0} {next : Next L} (d : Delivery next) where
  expect_type_other :
      (want : TokenType) (t : Token) (p : BaseParser L)
      → same_type t.token_type want ≡ false
      → p.failure ≡ none
      → p.unread_tokens ≡ []
      → IsFailed (expect_type want t p).1
  unfolding expect_type
  expect_type_other want t p e f u =
      simp (e, f)
        (record {
          cause = expected_token want t.token_type;
          failed = refl;
          empty = u;
          own = λ x. cc;
        })

  -- `Expect` of another type than the next token's fails.
  pub expect_other :
      (want : TokenType) (p : BaseParser L) (ts : List Token)
      → same_type (head_token ts).token_type want ≡ false
      → Ready d p ts
      → IsFailed (expect next want p).1
  unfolding expect
  expect_other want p ts e h =
      let (shown, healthy) = read-Ready d p ts h in
      expect_type_other want (read next p).0 (read next p).1 (rw shown e) healthy
        (read_empty d p ts h)

  -- `Unexpected` names the next token.
  pub unexpected-Ready :
      (p : BaseParser L) (ts : List Token)
      → Ready d p ts
      → (unexpected next p).0 ≡ unexpected_token (head_token ts)
  unexpected-Ready p ts h =
      ap (λ r. r.0)
        (unexpected-read next p (read next p).1 (head_token ts)
          (λ i. ((read-Ready d p ts h).0 i, (read next p).1)))
