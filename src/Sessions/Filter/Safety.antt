-- ===== src/Sessions/Filter/Safety.antt =====
-- components/sessions/component.go and components/cookies: where a request's session comes from, and
-- what an error does to the reply.
use kweb.Base.{
  ℕ, Bool-cases, some, List, [], ◌∷◌, Text, text_eq, text_eq_differ, Result, Result-cases,
  Option-cases, ok, ◌≡◌, ◌≢◌, ◌⊎◌, inl, inr, refl, ap, sym, ◌∙◌,
}
use kweb.Components.Request.{Request, no_cookie, other_error}
use kweb.Components.Response.{Response, http_error, is_nil}
use kweb.Components.Serve.{Handler, Filter, chain, chain_cons, chain_nil, write_reply, serve_http}
use kweb.Sessions.Session.{Session}
use kweb.Sessions.Storage.{Storage}
use kweb.Sessions.Context.{Context, with_session, with_cookies, Error}
use kweb.Sessions.Cookies.{add_cookies, process_request as cookies_filter}
use kweb.Sessions.Filter.{
  cookie_session_id, fresh_session, find_session, before_request, after_request,
  process_request as sessions_filter,
}
use kweb.Sessions.Filter.Persistence.{process_request_ok}

ok_value : {E A : Type 0} {a b : A} → ◌≡◌ {A = Result E A} (ok a) (ok b) → a ≡ b
ok_value h = cc

module _ {S : Type 0} (st : Storage S) where
  -- The session is a fresh one, or the storage has it under the ID of the request's cookie.
  abbrev pub Origin : Request → S → Session → Type 0
  Origin req s session =
      (session ≡ fresh_session)
      ⊎ ((id : Text) × (req.cookie cookie_session_id ≡ ok id)
          × (id ≢ [])
          × (st.lookup_session id s ≡ ok (some session)))

  find_session-origin :
      (id : Text) (s : S) (session : Session)
      → find_session st id s ≡ ok session
      → (session ≡ fresh_session) ⊎ ((id ≢ []) × (st.lookup_session id s ≡ ok (some session)))
  unfolding find_session
  find_session-origin id s session = elim (Bool-cases (text_eq id [])) [
    | inl e ↦ rw (e, find_session) (λ h. inl (sym (ok_value h)))
    | inr e ↦ elim (Result-cases (st.lookup_session id s)) [
      | inr (why, l) ↦ rw (e, find_session, l) (λ h. cc)
      | inl (found, l) ↦ elim (Option-cases found) [
        | inl n ↦ rw (e, find_session, l, n) (λ h. inl (sym (ok_value h)))
        | inr (y, n) ↦
            rw (e, find_session, l, n)
              (λ h. inr (text_eq_differ id [] e, ap (λ x. ok (some x)) (ok_value h)))
      ]
    ]
  ]

  -- The session that a handler is given is a fresh one, without an ID and without values, or the
  -- storage has it under the ID in the request's cookie: an ID that the storage does not know is
  -- never taken over from the request.
  pub before_request-Origin :
      (req : Request) (s : S) (session : Session)
      → before_request st req s ≡ ok session
      → Origin req s session
  unfolding before_request
  before_request-Origin req s session = elim (Result-cases (req.cookie cookie_session_id)) [
    | inl (id, e) ↦
        rw (e, before_request)
          (λ h. elim (find_session-origin id s session h) [
            | inl fresh ↦ inl fresh
            | inr (ne, l) ↦ inr (id, refl, ne, l)
          ])
    | inr (no_cookie, e) ↦
        rw (e, before_request)
          (λ h. elim (find_session-origin [] s session h) [
            | inl fresh ↦ inl fresh
            | inr (ne, l) ↦ elim (ne refl) [ ]
          ])
    | inr (other_error why, e) ↦ rw (e, before_request) (λ h. cc)
  ]

module _ (split_host_port : Text → Result Text (Text × Text)) (now : ℕ) (status_text : ℕ → Text)
    {S X : Type 0} (st : Storage S) where
  -- The filters of components/cookies and components/sessions, in the order of server/server.go.
  abbrev pub filters : List (Filter Error (Context S X))
  filters = cookies_filter ∷ sessions_filter split_host_port now st ∷ []

  chain-filters :
      (fn : Handler Error (Context S X)) (req : Request) (w : Context S X) (session : Session)
      → before_request st req w.store ≡ ok session
      → chain filters fn req w
        ≡ add_cookies w.set_cookies (
            after_request split_host_port now st req
              (fn req (with_session session (with_cookies [] w))))
  unfolding cookies_filter
  chain-filters fn req w session e =
      let sessions = sessions_filter split_host_port now st in
      ap (λ h. h req w)
        (chain_cons cookies_filter (sessions ∷ []) fn
          ∙ ap cookies_filter (chain_cons sessions [] fn ∙ ap sessions (chain_nil fn)))
      ∙ ap (add_cookies w.set_cookies)
          (process_request_ok split_host_port now st fn req (with_cookies [] w) session e)

  -- Behind the filters of cookies and sessions, a handler that returns an error is answered with
  -- status 500, whichever response it returns with the error. The session is not written: the store
  -- is as the handler left it, and no cookie is set.
  pub serve_http_error :
      (fn : Handler Error (Context S X)) (req : Request) (w w1 : Context S X)
      → (session : Session) (response : Response) (e : Error)
      → before_request st req w.store ≡ ok session
      → fn req (with_session session (with_cookies [] w)) ≡ ((response, some e), w1)
      → serve_http status_text filters fn req w
        ≡ (http_error (status_text 500) 500 ∷ [], with_cookies w.set_cookies w1)
  unfolding serve_http write_reply add_cookies after_request is_nil
  serve_http_error fn req w w1 session response e h ran =
      ap (λ r. (write_reply status_text r.0, r.1))
        (chain-filters fn req w session h
          ∙ ap (λ r. add_cookies w.set_cookies (after_request split_host_port now st req r)) ran)
