-- ===== src/Github/Token/Kept.antt =====
-- components/github/appauth.go: how long a token is kept.
use kweb.Base.{
  ℕ, ◌+◌, ◌*◌, ◌≤◌, ◌<◌, true, false, Bool-cases, Option, none, some, Text, Result, ok, err, ◌≡◌,
  refl, sym, ap, ◌∙◌, subst, ◌⊎◌, inl, inr, arith,
}
use kweb.Github.Token.{
  OauthToken, TokenSource, ClaimSet, minute, is_expiring, keep_token, token_from, token, claims,
  build_jwt, app_token,
}

-- What a token source returns and keeps: a token with a minute left or a new one, or an error.
abbrev pub Given :
    ℕ → Result Text OauthToken → TokenSource → Result Text OauthToken × TokenSource → Type 0
Given now fresh ts (err e, ts') = (ts' ≡ ts) × (fresh ≡ err e)
Given now fresh ts (ok t, ts') = (ts'.token ≡ some t) × ((now + minute ≤ t.expiry) ⊎ (fresh ≡ ok t))

keep_token-Given :
    (now : ℕ) (fresh : Result Text OauthToken) (ts : TokenSource)
    → Given now fresh ts (keep_token ts fresh)
unfolding keep_token
keep_token-Given now (ok t) ts = (refl, inr refl)
keep_token-Given now (err e) ts = (refl, refl)

is_expiring-false : (now : ℕ) (t : OauthToken) → now + minute ≤ t.expiry → is_expiring now t ≡ false
unfolding is_expiring
is_expiring-false now t h = ground arith

is_expiring-true : (now : ℕ) (t : OauthToken) → t.expiry < now + minute → is_expiring now t ≡ true
unfolding is_expiring
is_expiring-true now t h = ground arith

is_expiring-left : (now : ℕ) (t : OauthToken) → is_expiring now t ≡ false → now + minute ≤ t.expiry
unfolding is_expiring
is_expiring-left now t h = ground arith

token_from-Given :
    (o : Option OauthToken) (now : ℕ) (fresh : Result Text OauthToken) (ts : TokenSource)
    → ts.token ≡ o
    → Given now fresh ts (token_from o now fresh ts)
unfolding token_from
token_from-Given none now fresh ts e = keep_token-Given now fresh ts
token_from-Given (some t) now fresh ts e = elim (Bool-cases (is_expiring now t)) [
  | inl x ↦ rw (token_from, x) (keep_token-Given now fresh ts)
  | inr x ↦ rw (token_from, x) (e, inl (is_expiring-left now t x))
]

token_from-kept :
    (o : Option OauthToken) (t : OauthToken) (now : ℕ) (fresh : Result Text OauthToken)
    (ts : TokenSource)
    → o ≡ some t
    → is_expiring now t ≡ false
    → token_from o now fresh ts ≡ (ok t, ts)
unfolding token_from
token_from-kept none t now fresh ts e left = cc
token_from-kept (some u) t now fresh ts e left =
    let same : u ≡ t = cc e in
    subst (λ x. token_from (some x) now fresh ts ≡ (ok t, ts)) (sym same)
      (rw (token_from, left) refl)

keep_token-first :
    (ts : TokenSource) (fresh : Result Text OauthToken) → (keep_token ts fresh).0 ≡ fresh
unfolding keep_token
keep_token-first ts (ok t) = refl
keep_token-first ts (err e) = refl

token_from-replaced :
    (o : Option OauthToken) (t : OauthToken) (now : ℕ) (fresh : Result Text OauthToken)
    (ts : TokenSource)
    → o ≡ some t
    → is_expiring now t ≡ true
    → token_from o now fresh ts ≡ keep_token ts fresh
unfolding token_from
token_from-replaced none t now fresh ts e gone = cc
token_from-replaced (some u) t now fresh ts e gone =
    let same : u ≡ t = cc e in
    subst (λ x. token_from (some x) now fresh ts ≡ keep_token ts fresh) (sym same)
      (rw (token_from, gone) refl)

-- Token returns a token whose expiry is a minute off at least, or a new one, and keeps it; or an
-- error, if that is what there is in place of a new token, and then it keeps what it had. Of a token
-- that is kept: as long as its expiry is a minute off, Token returns it again, whatever a new one
-- would be; and once it is less, Token returns the new one, or the error in its place.
pub token-Given :
    (now : ℕ) (fresh : Result Text OauthToken) (ts : TokenSource)
    → Given now fresh ts (token now fresh ts)
      × ((t : OauthToken) (now' : ℕ) (fresh' : Result Text OauthToken) (ts' : TokenSource)
          → ts'.token ≡ some t
          → (now' + minute ≤ t.expiry → token now' fresh' ts' ≡ (ok t, ts'))
            × (t.expiry < now' + minute → (token now' fresh' ts').0 ≡ fresh'))
token-Given now fresh ts = (
  token_from-Given ts.token now fresh ts refl,
  λ t now' fresh' ts' kept. (
    λ left. token_from-kept ts'.token t now' fresh' ts' kept (is_expiring-false now' t left),
    λ gone.
        ap (λ r. r.0)
          (token_from-replaced ts'.token t now' fresh' ts' kept (is_expiring-true now' t gone))
        ∙ keep_token-first ts' fresh',
  ),
)

module _ (github_app_id : Text) (sign : ClaimSet → Result Text Text) where
  -- The token of a claim made at a time.
  abbrev made : Text → ℕ → OauthToken
  made m now = record { access_token = m; expiry = now + minute * 10 }

  -- If the signing of a claim at a time gives a message, then a token source of the application that
  -- keeps no token gives it, with ten minutes to go, and keeps it: for nine minutes it gives the
  -- same, and afterwards what the signing of a new claim gives, at the time when that is made.
  pub app_token_lem :
      (called now : ℕ) (m : Text)
      → sign (claims github_app_id sign now) ≡ ok m
      → (t : OauthToken) × (ts : TokenSource) × (app_token github_app_id sign called now
            (record { token = none })
          ≡ (ok t, ts))
        × (t.expiry ≡ now + minute * 10)
        × ((now' later : ℕ)
            → now' ≤ now + minute * 9
            → app_token github_app_id sign now' later ts ≡ (ok t, ts))
        × ((now' later : ℕ)
            → now + minute * 9 < now'
            → (app_token github_app_id sign now' later ts).0 ≡ build_jwt github_app_id sign later)
  unfolding app_token build_jwt token_from keep_token
  app_token_lem called now m signed =
      let t : OauthToken = made m now in
      let ts : TokenSource = record { token = some t } in
      (
        t,
        ts,
        rw (build_jwt, signed) refl,
        refl,
        λ now' later h.
            token_from-kept (some t) t now' (build_jwt github_app_id sign later) ts refl
              (is_expiring-false now' t (omega (arith, h))),
        λ now' later h.
            rw (app_token, token_from, is_expiring-true now' t (omega (arith, h)))
              (keep_token-first ts (build_jwt github_app_id sign later)),
      )
