-- ===== src/Login/SignIn.antt =====
-- components/login/handlers.go: a sign-in from its start to the callback, and a second callback.
use kweb.Base.{
  true, false, none, some, [], Text, codes, text_eq, text_eq-false, text_eq_refl, ◌≡◌, ◌≢◌, refl,
  sym, ap, ◌∙◌,
}
use kweb.Base.Dict.{Dict, lookup}
use kweb.Components.Request.{Request}
use kweb.Components.Response.{nil, redirect_response}
use kweb.Sessions.Session.{Session, Message, set, get, clear}
use kweb.Sessions.Session.Laws.{get-set, get-clear}
use kweb.Sessions.Storage.{Alike}
use kweb.Sessions.Context.{Context, with_session, state_mismatch}
use kweb.Login.Handlers.{
  StateData, empty_state, Provider, Library, encode_state, get_redirect_uri, start_redirect,
  start_state, start_oauth2_login, after_redeem, local_redirect, redeem_code, check_code,
  state_string, oauth_callback,
}
use kweb.Login.Redeems.{cleared, answer, stated}

text_eq_same : (a b : Text) → a ≡ b → text_eq a b ≡ true
text_eq_same a b e = rw e (text_eq_refl b)

get-Alike :
    {M : Type 0} (message : Message M) (dest : M) (s s' : Session)
    → Alike s.values s'.values
    → get message dest s ≡ get message dest s'
unfolding get
get-Alike message dest s s' same = rw (same message.full_name, get) refl

module _ (lib : Library) {S X : Type 0} (providers : Dict (Provider (Context S X))) where
  check_code_redeems :
      (d : StateData) (req : Request) (w : Context S X) (p : Provider (Context S X))
      → req.form (codes "error") ≡ []
      → req.form (codes "code") ≢ []
      → lookup d.provider_id providers ≡ some p
      → check_code lib providers d req w
        ≡ after_redeem
            (local_redirect d.redirect)
            (p.redeem (get_redirect_uri lib req d.provider_id) (req.form (codes "code")) w)
  unfolding check_code redeem_code
  check_code_redeems d req w p e c l =
      simp (check_code, e, text_eq_refl, text_eq-false _ [] c, redeem_code, l)

  -- The session behind the start of a sign-in holds the state whose encoding the login URL has.
  started :
      (nonce : Text) (p : Provider (Context S X)) (req : Request) (w : Context S X)
      → req.parse_form ≡ none
      → start_oauth2_login lib nonce p req w ≡ (
        (
          redirect_response (
              p.get_login_url
                (get_redirect_uri lib req p.provider_id)
                (encode_state lib (start_state lib nonce req p))),
          none,
        ),
        with_session (set lib.state_message (start_state lib nonce req p) w.session) w,
      )
  unfolding start_oauth2_login
  started nonce p req w e = simp (start_oauth2_login, e)

  -- A sign-in starts and ends. If the form of the first request is parsed, its answer redirects to
  -- the provider's login URL for the state, and let a later request's session hold the values
  -- that the first left. If that request's form is parsed, its parameter `state` is the state's
  -- encoding, it has a code and no error, the provider is registered under its name, and the
  -- state's encoding can be read back, then the answer is that of the provider for the code, with
  -- a redirect to where the first request asked, and the provider sees a session without the state.
  -- The same request sent again, with a session that holds the values behind the clearing, is
  -- refused unless the state's encoding is empty, and no provider is called.
  pub sign_in :
      (nonce : Text) (p : Provider (Context S X)) (req req' : Request) (w w2 w3 : Context S X)
      → req.parse_form ≡ none
      → lib.state_message.unmarshal (lib.state_message.marshal (start_state lib nonce req p))
        ≡ (start_state lib nonce req p, true)
      → Alike w2.session.values (start_oauth2_login lib nonce p req w).1.session.values
      → req'.parse_form ≡ none
      → req'.query (codes "state") ≡ encode_state lib (start_state lib nonce req p)
      → req'.form (codes "error") ≡ []
      → req'.form (codes "code") ≢ []
      → lookup p.provider_id providers ≡ some p
      → encode_state lib (start_state lib nonce req p) ≢ []
      → Alike w3.session.values (clear lib.state_message w2.session).values
      → ((start_oauth2_login lib nonce p req w).0 ≡ (
        redirect_response (
            p.get_login_url
              (get_redirect_uri lib req p.provider_id)
              (encode_state lib (start_state lib nonce req p))),
        none,
      ))
        × (oauth_callback lib providers req' w2
            ≡ after_redeem (local_redirect (start_redirect req)) (
                p.redeem
                  (get_redirect_uri lib req' p.provider_id)
                  (req'.form (codes "code"))
                  (with_session (clear lib.state_message w2.session) w2)))
        × (oauth_callback lib providers req' w3 ≡ (
          (nil, some (state_mismatch (encode_state lib (start_state lib nonce req p)) [])),
          w3,
        ))
  unfolding state_string
  sign_in nonce p req req' w w2 w3 e back kept e' same no_error c l ne again =
      let state = start_state lib nonce req p in
      let begun = started nonce p req w e in
      let held =
        get-Alike lib.state_message empty_state w2.session _ kept
        ∙ ap (λ r. get lib.state_message empty_state r.1.session) begun
        ∙ get-set lib.state_message state empty_state w.session
        ∙ back in
      let gone =
        get-Alike lib.state_message empty_state w3.session _ again
        ∙ get-clear lib.state_message empty_state w2.session in
      (
        ap (λ r. r.0) begun,
        stated lib providers req' w2 (state, true) e' held
            ∙ ap (answer lib providers req' w2 (state, true)) (text_eq_same _ _ same)
            ∙ check_code_redeems state req' (cleared lib providers w2) p no_error c l,
        stated lib providers req' w3 (empty_state, false) e' gone
            ∙ ap (answer lib providers req' w3 (empty_state, false))
                (text_eq-false _ _ (λ z. ne (sym same ∙ z)))
            ∙ ap (λ t. ((nil, some (state_mismatch t [])), w3)) same,
      )
