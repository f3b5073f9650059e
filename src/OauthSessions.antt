-- ===== src/OauthSessions.antt =====
-- components/oauthsessions: the sessions with a provider that are kept for a user. The API server and
-- the names that are drawn are parameters.
pub mod Best
mod Tests
use kweb.Base.{
  Bool, if◌then◌else◌, Option, none, some, List, [], ◌∷◌, Text, text_eq, Result, ok, err, ◌>>=◌,
}
use kweb.Base.Integers.{ℤ, int_leb}

pub record OauthSession : Type 0 where
  pub name : Text
  pub namespace : Text
  pub user : Text
  pub access_token : Text
  pub refresh_token : Text
  pub expires_at : ℤ

-- The name and the namespace of a user.
pub record Owner : Type 0 where
  pub name : Text
  pub namespace : Text

pub record Token : Type 0 where
  pub access_token : Text
  pub refresh_token : Text
  pub expiry : ℤ

-- The calls of the API server on the state `C` of the cluster.
pub record Client (C : Type 0) : Type 0 where
  pub list : (namespace : Text) → C → Result Text (List OauthSession)
  pub create : OauthSession → C → Result Text (Unit {0}) × C
  pub update : OauthSession → C → Result Text (Unit {0}) × C

-- The loop of `LoadOauthSessions`.
unfoldable pub sessions_of : Text → List OauthSession → List OauthSession
sessions_of user [] = []
sessions_of user (s ∷ ss) =
    let rest = sessions_of user ss in if text_eq s.user user then s ∷ rest else rest

-- The loop of `GetOauthSession`, from the best so far.
unfoldable pub best_from : Option OauthSession → List OauthSession → Option OauthSession
best_from best [] = best
best_from none (s ∷ ss) = best_from (some s) ss
best_from (some b) (s ∷ ss) =
    best_from (some (if int_leb s.expires_at b.expires_at then b else s)) ss

module _ {C : Type 0} (client : Client C) where
  unfoldable pub load_oauth_sessions : Option Owner → C → Result Text (List OauthSession)
  unfolding sessions_of
  load_oauth_sessions none c = ok []
  load_oauth_sessions (some owner) c =
      client.list owner.namespace c >>= λ ss. ok (sessions_of owner.name ss)

  -- `GetOauthSession`, for the user of the request.
  unfoldable pub get_oauth_session : Option Owner → C → Result Text (Option OauthSession)
  unfolding load_oauth_sessions best_from
  get_oauth_session owner c = load_oauth_sessions owner c >>= λ ss. ok (best_from none ss)

  -- `StoreSession`, with the name that is drawn.
  unfoldable pub store_session : Text → Option Owner → Token → C → Result Text (Unit {0}) × C
  store_session name none token c = (err [], c)
  store_session name (some owner) token c =
      client.create
        (record {
          name = name;
          namespace = owner.namespace;
          user = owner.name;
          access_token = token.access_token;
          refresh_token = token.refresh_token;
          expires_at = token.expiry;
        })
        c

  -- `RefreshSession`
  abbrev pub refresh_session : OauthSession → C → Result Text (Unit {0}) × C
  refresh_session s c = client.update s c
