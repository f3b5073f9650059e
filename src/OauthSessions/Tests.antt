-- ===== src/OauthSessions/Tests.antt =====
-- Two sessions of a user, and the result applied to them.
use kweb.Base.{Option, some, List, [], ◌∷◌, Text, codes, ok, ◌≡◌, refl}
use kweb.Base.Integers.{ℤ, pos}
use kweb.OauthSessions.{OauthSession, Owner, Client, get_oauth_session}
use kweb.OauthSessions.Best.{BestOf, get_oauth_session-BestOf}

abbrev session : Text → ℤ → OauthSession
session user expires = record {
  name = codes "s";
  namespace = codes "users";
  user = user;
  access_token = [];
  refresh_token = [];
  expires_at = expires;
}

abbrev sessions : List OauthSession
sessions =
    session (codes "ann") (pos 5)
    ∷ session (codes "bob") (pos 9)
    ∷ session (codes "ann") (pos 7)
    ∷ []

abbrev client : Client (List OauthSession)
client = record { list = λ ns c. ok c; create = λ s c. (ok tt, s ∷ c); update = λ s c. (ok tt, c) }

abbrev ann : Owner
ann = record { name = codes "ann"; namespace = codes "users" }

get_oauth_session-BestOf_example :
    (o : Option OauthSession) × (get_oauth_session client (some ann) sessions ≡ ok o)
    × BestOf (codes "ann") sessions o
get_oauth_session-BestOf_example = get_oauth_session-BestOf client ann sessions sessions refl
