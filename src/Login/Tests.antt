-- ===== src/Login/Tests.antt =====
-- Runs of components/login on concrete requests, and the results applied to them.
use kweb.Base.{
  ℕ, true, if◌then◌else◌, text_eq, none, some, List, [], ◌∷◌, Text, codes, err, ◌≡◌, ◌≢◌, ◌⊎◌, inr,
  refl,
}
use kweb.Base.Dict.{Dict, lookup, insert}
use kweb.Base.Strings.{has_prefix}
use kweb.Components.Request.{Request, no_cookie}
use kweb.Components.Response.{nil, redirect_response}
use kweb.Sessions.Session.{Message, set, clear}
use kweb.Sessions.Context.{Context, with_session, with_rest, state_mismatch}
use kweb.Sessions.Filter.{fresh_session}
use kweb.Login.Handlers.{
  StateData, Provider, Library, encode_state, get_redirect_uri, start_redirect, start_state,
  start_oauth2_login, after_redeem, local_redirect, oauth_callback,
}
use kweb.Login.Redeems.{Held, Refused, Tied, cleared, oauth_callback-Tied}
use kweb.Login.SignIn.{sign_in}

-- States of the provider "p" with the redirect "/x", which stand for their provider.
abbrev state_kind : Message StateData
state_kind = record {
  full_name = codes "state";
  marshal = λ d. d.provider_id;
  unmarshal = λ b. (record { provider_id = b; redirect = codes "/x"; nonce = codes "n" }, true);
}

abbrev lib : Library
lib = record { state_message = state_kind; base64 = λ b. b; url_string = λ scheme host path. path }

-- The rest of the context records the codes that were redeemed.
abbrev World : Type 0
World = Context ℕ (List Text)

abbrev provider : Provider World
provider = record {
  provider_id = codes "p";
  redeem = λ uri code w. (none, with_rest (code ∷ w.rest) w);
  get_login_url = λ uri state. state;
}

abbrev providers : Dict (Provider World)
providers = (codes "p", provider) ∷ []

-- A request with the same text for every field of its form, or only for one.
abbrev request : (Text → Text) → Text → Request
request form state = record {
  cookie = λ k. err no_cookie;
  host = codes "localhost";
  scheme = [];
  forwarded_proto = [];
  parse_form = none;
  form = form;
  query = λ k. state;
}

abbrev begin : Request
begin = request (λ k. codes "/x") []

form_with_code : Text → Text
form_with_code k = if text_eq k (codes "code") then codes "c" else []

abbrev finish : Request
finish = request form_with_code (codes "p")

abbrev start : World
start = record { session = fresh_session; store = 0; set_cookies = []; rest = [] }

abbrev begun : World
begun =
    with_session (set state_kind (start_state lib (codes "n") begin provider) fresh_session) start

abbrev finished : World
finished = with_session (clear state_kind begun.session) begun

code_given : finish.form (codes "code") ≢ []
unfolding form_with_code text_eq
code_given h = cc

no_error : finish.form (codes "error") ≡ []
unfolding form_with_code text_eq
no_error = refl

registered : lookup (codes "p") providers ≡ some provider
unfolding lookup text_eq
registered = refl

anonymous : lookup [] providers ≡ none
unfolding lookup text_eq
anonymous = refl

reads_back :
    state_kind.unmarshal (state_kind.marshal (start_state lib (codes "n") begin provider))
    ≡ (start_state lib (codes "n") begin provider, true)
unfolding start_redirect text_eq
reads_back = refl

held : Held lib providers begun.session
unfolding set insert lookup text_eq start_redirect
held = inr (start_state lib (codes "n") begin provider, refl, reads_back)

same_state :
    finish.query (codes "state") ≡ encode_state lib (start_state lib (codes "n") begin provider)
unfolding encode_state
same_state = refl

not_empty : encode_state lib (start_state lib (codes "n") begin provider) ≢ []
unfolding encode_state
not_empty h = cc

kept :
    (k : Text)
    → lookup k begun.session.values
      ≡ lookup k (start_oauth2_login lib (codes "n") provider begin start).1.session.values
unfolding start_oauth2_login
kept k = refl

oauth_callback-Tied_example :
    Refused lib providers begun (oauth_callback lib providers finish begun)
    ⊎ (Refused lib providers
          (cleared lib providers begun)
          (oauth_callback lib providers finish begun)
        ⊎ Tied lib providers finish begun (oauth_callback lib providers finish begun))
oauth_callback-Tied_example = oauth_callback-Tied lib providers finish begun held anonymous

sign_in_example :
    ((start_oauth2_login lib (codes "n") provider begin start).0 ≡ (
      redirect_response (
          provider.get_login_url
            (get_redirect_uri lib begin provider.provider_id)
            (encode_state lib (start_state lib (codes "n") begin provider))),
      none,
    ))
    × (oauth_callback lib providers finish begun
        ≡ after_redeem (local_redirect (start_redirect begin)) (
            provider.redeem
              (get_redirect_uri lib finish provider.provider_id)
              (finish.form (codes "code"))
              (with_session (clear lib.state_message begun.session) begun)))
    × (oauth_callback lib providers finish finished ≡ (
      (
        nil,
        some (state_mismatch (encode_state lib (start_state lib (codes "n") begin provider)) []),
      ),
      finished,
    ))
sign_in_example =
    sign_in lib providers (codes "n") provider begin finish start begun finished refl reads_back
      kept refl same_state no_error code_given registered not_empty (λ k. refl)

-- A redirect to another host, for a browser, starts with a slash as well.
other_host : local_redirect (codes "//example.com") ≡ codes "//example.com"
unfolding local_redirect has_prefix
other_host = refl
