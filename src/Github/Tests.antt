-- ===== src/Github/Tests.antt =====
-- Tokens at work, and the results applied to them.
use kweb.Base.{ℕ, ◌+◌, ◌*◌, ◌≤◌, ◌<◌, none, some, Text, codes, Result, ok, err, ◌≡◌, refl}
use kweb.Github.Token.{
  OauthToken, TokenSource, ClaimSet, second, minute, is_expiring, token, token_from, build_jwt,
  app_token,
}
use kweb.Github.Token.Kept.{Given, token-Given, app_token_lem}

abbrev installation : OauthToken
installation = record { access_token = codes "t"; expiry = 3600 * second }

abbrev source : TokenSource
source = record { token = some installation }

-- A token with exactly a minute left is kept.
last_minute : token (3540 * second) (err (codes "down")) source ≡ (ok installation, source)
unfolding token_from is_expiring
last_minute = refl

token-Given_example :
    Given
      (3541 * second)
      (err (codes "down"))
      source
      (token (3541 * second) (err (codes "down")) source)
    × ((t : OauthToken) (now' : ℕ) (fresh' : Result Text OauthToken) (ts' : TokenSource)
        → ts'.token ≡ some t
        → (now' + minute ≤ t.expiry → token now' fresh' ts' ≡ (ok t, ts'))
          × (t.expiry < now' + minute → (token now' fresh' ts').0 ≡ fresh'))
token-Given_example = token-Given (3541 * second) (err (codes "down")) source

abbrev sign : ClaimSet → Result Text Text
sign c = ok c.issuer

app_token_lem_example :
    (t : OauthToken) × (ts : TokenSource) × (app_token
        (codes "app")
        sign
        minute
        (minute + second)
        (record { token = none })
      ≡ (ok t, ts))
    × (t.expiry ≡ (minute + second) + minute * 10)
    × ((now' later : ℕ)
        → now' ≤ (minute + second) + minute * 9
        → app_token (codes "app") sign now' later ts ≡ (ok t, ts))
    × ((now' later : ℕ)
        → (minute + second) + minute * 9 < now'
        → (app_token (codes "app") sign now' later ts).0 ≡ build_jwt (codes "app") sign later)
app_token_lem_example = app_token_lem (codes "app") sign minute (minute + second) (codes "app") refl
