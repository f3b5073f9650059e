-- ===== src/Github/Token.antt =====
-- components/github/appauth.go: token sources, which keep a token until it has less than a minute
-- left. Times are counted in
-- nanoseconds; what GitHub and the signing of a claim return are parameters.
pub mod Kept
use kweb.Base.{
  ℕ, ◌+◌, ◌-◌, ◌*◌, ◌/◌, ltb, Bool, if◌then◌else◌, Option, none, some, Text, Result, ok, err,
}

pub record OauthToken : Type 0 where
  pub access_token : Text
  pub expiry : ℕ

-- `userTokenSource` and `appTokenSource`, with what changes in them.
pub record TokenSource : Type 0 where
  pub token : Option OauthToken

-- The claims of buildJWT, at a time.
pub record ClaimSet : Type 0 where
  pub issuer : Text
  pub issued_at : ℕ
  pub expires : ℕ

abbrev pub second : ℕ
second = 1000000000

abbrev pub minute : ℕ
minute = 60 * second

-- The token is treated as expired.
unfoldable pub is_expiring : ℕ → OauthToken → Bool
is_expiring now t = ltb t.expiry (now + minute)

unfoldable pub keep_token :
    TokenSource → Result Text OauthToken → Result Text OauthToken × TokenSource
keep_token ts (err e) = (err e, ts)
keep_token ts (ok t) = (ok t, record { token = some t })

-- `Token` of both sources, with the token that is kept and what a new one would be.
unfoldable pub token_from :
    Option OauthToken
    → ℕ
    → Result Text OauthToken
    → TokenSource
    → Result Text OauthToken × TokenSource
unfolding is_expiring keep_token
token_from none now fresh ts = keep_token ts fresh
token_from (some t) now fresh ts = if is_expiring now t then keep_token ts fresh else (ok t, ts)

abbrev pub token : ℕ → Result Text OauthToken → TokenSource → Result Text OauthToken × TokenSource
token now fresh ts = token_from ts.token now fresh ts

-- `github_app_id` is the issuer, and `sign` encodes and signs a claim.
module _ (github_app_id : Text) (sign : ClaimSet → Result Text Text) where
  abbrev pub claims : ℕ → ClaimSet
  claims now = record {
    issuer = github_app_id;
    issued_at = (now - minute) / second;
    expires = (now + minute * 10) / second;
  }

  unfoldable pub build_jwt : ℕ → Result Text OauthToken
  build_jwt now = elim (sign (claims now)) [
    | err e ↦ err e
    | ok message ↦ ok record { access_token = message; expiry = now + minute * 10 }
  ]

  -- `Token` of the application, with what the clock shows to `Token` and then to `buildJWT`.
  unfoldable pub app_token : ℕ → ℕ → TokenSource → Result Text OauthToken × TokenSource
  unfolding build_jwt
  app_token now later ts = token now (build_jwt later) ts
