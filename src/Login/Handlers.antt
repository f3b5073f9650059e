-- ===== src/Login/Handlers.antt =====
-- components/login/handlers.go, state.go, and the providers of component.go. The providers' calls,
-- url.URL.String, base64 and the protocol buffer of the state are parameters.
use kweb.Base.{Bool, if◌then◌else◌, Option, none, some, [], ◌++◌, Text, codes, text_eq}
use kweb.Base.Dict.{Dict, lookup}
use kweb.Base.Strings.{has_prefix}
use kweb.Components.Request.{Request, browser_using_https}
use kweb.Components.Response.{nil, error_response, redirect_response}
use kweb.Components.Serve.{Reply, Handler}
use kweb.Sessions.Session.{Message, set, get, clear}
use kweb.Sessions.Context.{
  Context, with_session, Error, bad_form, state_mismatch, permission_denied, missing_code,
  unknown_provider,
}

pub record StateData : Type 0 where
  pub provider_id : Text
  pub redirect : Text
  pub nonce : Text

abbrev pub empty_state : StateData
empty_state = record { provider_id = []; redirect = []; nonce = [] }

-- An AuthenticationProvider; `Redeem` may change the whole context.
pub record Provider (W : Type 0) : Type 0 where
  pub provider_id : Text
  pub redeem : Text → Text → W → Option Error × W
  pub get_login_url : Text → Text → Text

pub record Library : Type 0 where
  pub state_message : Message StateData
  pub base64 : Text → Text
  pub url_string : (scheme host path : Text) → Text

-- The redirect that a sign-in asks for.
unfoldable pub start_redirect : Request → Text
start_redirect req =
    if text_eq (req.form (codes "redirect")) [] then codes "/" else req.form (codes "redirect")

unfoldable pub local_redirect : Text → Text
local_redirect redirect = if has_prefix redirect (codes "/") then redirect else codes "/"

module _ {S X : Type 0} where
  -- `OAuthCallback` behind the provider's answer.
  unfoldable pub after_redeem : Text → Option Error × Context S X → Reply Error × Context S X
  after_redeem redirect (some e, w) = ((nil, some e), w)
  after_redeem redirect (none, w) = ((redirect_response redirect, none), w)

module _ (lib : Library) where
  unfoldable pub encode_state : StateData → Text
  encode_state d = lib.base64 (lib.state_message.marshal d)

  unfoldable pub get_redirect_uri : Request → Text → Text
  get_redirect_uri req id =
      let scheme = if text_eq req.scheme [] then codes "http" else req.scheme in
      lib.url_string (if browser_using_https req then codes "https" else scheme) req.host
        (codes "/_login/oauth2-callback/" ++ id)

  -- The state that is expected of the request.
  unfoldable pub state_string : StateData × Bool → Text
  state_string (d, found) = if found then encode_state d else []

  module _ {S X : Type 0} where
    abbrev pub start_state : Text → Request → Provider (Context S X) → StateData
    start_state nonce req p = record {
      provider_id = p.provider_id;
      redirect = start_redirect req;
      nonce = nonce;
    }

    -- `StartOAuth2Login`, with the nonce that randomID draws.
    unfoldable pub start_oauth2_login : Text → Provider (Context S X) → Handler Error (Context S X)
    unfolding start_redirect
    start_oauth2_login nonce p req w =
        let state = start_state nonce req p in
        elim req.parse_form [
          | some e ↦ ((error_response 400, some (bad_form e)), w)
          | none ↦ (
            (
              redirect_response
                  (p.get_login_url (get_redirect_uri req p.provider_id) (encode_state state)),
              none,
            ),
            with_session (set lib.state_message state w.session) w,
          )
        ]

    -- `OAuthCallback` with a code.
    unfoldable pub redeem_code :
        Dict (Provider (Context S X)) → StateData → Text → Handler Error (Context S X)
    redeem_code providers state code req w = elim (lookup state.provider_id providers) [
      | none ↦ ((nil, some (unknown_provider state.provider_id)), w)
      | some p ↦
          after_redeem (local_redirect state.redirect)
            (p.redeem (get_redirect_uri req state.provider_id) code w)
    ]

    -- `OAuthCallback` behind the check of the state.
    unfoldable pub check_code :
        Dict (Provider (Context S X)) → StateData → Handler Error (Context S X)
    check_code providers state req w =
        if text_eq (req.form (codes "error")) []
        then (if text_eq (req.form (codes "code")) []
            then ((error_response 400, some missing_code), w)
            else redeem_code providers state (req.form (codes "code")) req w)
        else ((error_response 403, some (permission_denied (req.form (codes "error")))), w)

    unfoldable pub oauth_callback : Dict (Provider (Context S X)) → Handler Error (Context S X)
    oauth_callback providers req w =
        let state = get lib.state_message empty_state w.session in
        elim req.parse_form [
          | some e ↦ ((nil, some (bad_form e)), w)
          | none ↦
              if text_eq (req.query (codes "state")) (state_string state)
              then check_code providers state.0 req
                  (with_session (clear lib.state_message w.session) w)
              else (
                (nil, some (state_mismatch (req.query (codes "state")) (state_string state))),
                w,
              )
        ]
