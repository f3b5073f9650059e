-- ===== src/Sessions/Filter/Persistence.antt =====
-- components/sessions/component.go: what a handler leaves in a session is there for the next request
-- that carries the session's cookie.
use kweb.Base.{
  ℕ, true, false, if◌then◌else◌, none, [], ◌∷◌, ◌++◌, Text, text_eq-false, Bool-cases, Result, ok,
  ◌≡◌, ◌≢◌, inl, inr, refl, ap, subst, ◌∙◌,
}
use kweb.Components.Request.{Request}
use kweb.Components.Response.{Response}
use kweb.Components.Serve.{Handler}
use kweb.Base.Dict.{lookup}
use kweb.Sessions.Session.{Session}
use kweb.Sessions.Storage.{Storage, Distinct, Alike, Found, Kept, Keeps}
use kweb.Sessions.Context.{Context, with_session, written, Error}
use kweb.Sessions.Cookies.{set_cookie}
use kweb.Sessions.Filter.{
  cookie_session_id, session_cookie, find_session, before_request, send_cookie, after_write,
  after_request, process_request, settled,
}

module _ {S : Type 0} (st : Storage S) where
  -- A request with the cookie of a session starts with its values.
  abbrev pub Persisted : Session → S → Type 0
  Persisted x s =
      (req : Request)
      → req.cookie cookie_session_id ≡ ok x.id
      → (y : Session) × (before_request st req s ≡ ok y) × Alike y.values x.values

  pub Found-Persisted : (x : Session) (s : S) → x.id ≢ [] → Found st s x → Persisted x s
  unfolding before_request find_session
  Found-Persisted x s ne (y, e, same_id, alike) req h =
      (y, rw (h, before_request, text_eq-false x.id [] ne, find_session, e) refl, alike)

module _ (split_host_port : Text → Result Text (Text × Text)) (now : ℕ) {S X : Type 0} where
  -- The context `w2` behind a write of the session of `w1`: the flags are down, and a session that
  -- was new, and no other, has sent its cookie.
  abbrev pub Sent : Request → Context S X → Context S X → Type 0
  Sent req w1 w2 =
      (w2.session.new_session ≡ false)
      × (w2.session.dirty ≡ false)
      × (w2.rest ≡ w1.rest)
      × (w1.session.new_session ≡ true
          → w2.set_cookies
            ≡ w1.set_cookies ++ session_cookie split_host_port now req w2.session.id ∷ [])
      × (w1.session.new_session ≡ false → w2.set_cookies ≡ w1.set_cookies)

  pub send_cookie-Sent :
      (req : Request) (x : Session) (s : S) (w : Context S X)
      → x.new_session ≡ w.session.new_session
      → Sent req w (send_cookie split_host_port now req (written x s w))
  unfolding send_cookie settled set_cookie
  send_cookie-Sent req x s w e = elim (Bool-cases x.new_session) [
    | inl t ↦ rw (t, send_cookie) (refl, refl, refl, λ _. refl, λ f. cc)
    | inr t ↦ rw (t, send_cookie) (refl, refl, refl, λ f. cc, λ _. refl)
  ]

  send_cookie_keeps :
      (req : Request) (w : Context S X)
      → ((send_cookie split_host_port now req w).session ≡ settled w.session)
        × ((send_cookie split_host_port now req w).store ≡ w.store)
  unfolding send_cookie set_cookie
  send_cookie_keeps req w = elim (Bool-cases w.session.new_session) [
    | inl t ↦ rw (t, send_cookie) (refl, refl)
    | inr t ↦ rw (t, send_cookie) (refl, refl)
  ]

  module _ (st : Storage S) where
    pub process_request_ok :
        (next : Handler Error (Context S X)) (req : Request) (w : Context S X) (session : Session)
        → before_request st req w.store ≡ ok session
        → process_request split_host_port now st next req w
          ≡ after_request split_host_port now st req (next req (with_session session w))
    unfolding process_request
    process_request_ok next req w session e = rw (e, process_request) refl

    after_request_dirty :
        (req : Request) (response : Response) (w : Context S X)
        → w.session.dirty ≡ true
        → after_request split_host_port now st req ((response, none), w)
          ≡ after_write split_host_port now req response w (st.write_session w.session w.store)
    unfolding after_request
    after_request_dirty req response w e =
        ap
          (λ b.
            if b
            then after_write split_host_port now req response w (st.write_session w.session w.store)
            else ((response, none), w))
          e

  module _ (st : Storage S) (keeps : Keeps st) where
    send_cookie-Persisted :
        (req : Request) (x x' : Session) (s s' : S) (w : Context S X)
        → Distinct x.values
        → st.write_session x s ≡ (ok tt, x', s')
        → Persisted st
            (send_cookie split_host_port now req (written x' s' w)).session
            (send_cookie split_host_port now req (written x' s' w)).store
    unfolding settled
    send_cookie-Persisted req x x' s s' w d h =
        let (e, same) = send_cookie_keeps req (written x' s' w) in
        let (same_values, new, ne, found) = subst (Kept st x) h (keeps x s) refl in
        rw (e, same) (Found-Persisted st (settled x') s' ne (found d))

    -- If the storage keeps what is written, the request's session is read, the handler answers
    -- without an error and leaves the session dirty with distinct keys, and the write of the session
    -- succeeds, then the filter passes the handler's response on, and later requests with a cookie
    -- that names the session start with the values that the handler left. Both flags are down. A
    -- session that was new has its ID added as a cookie; for an old
    -- one no cookie is added.
    pub process_request-Persisted :
        (next : Handler Error (Context S X)) (req : Request) (w w1 : Context S X)
        → (session x : Session) (s : S) (response : Response)
        → before_request st req w.store ≡ ok session
        → next req (with_session session w) ≡ ((response, none), w1)
        → w1.session.dirty ≡ true
        → Distinct w1.session.values
        → st.write_session w1.session w1.store ≡ (ok tt, x, s)
        → (w2 : Context S X) × (process_request split_host_port now st next req w
            ≡ ((response, none), w2))
          × Persisted st w2.session w2.store
          × Alike w2.session.values w1.session.values
          × Sent req w1 w2
    unfolding after_write settled
    process_request-Persisted next req w w1 session x s response e h dirty d written_ok =
        let (same, new, _, _) =
          subst (Kept st w1.session) written_ok (keeps w1.session w1.store) refl in
        (
          send_cookie split_host_port now req (written x s w1),
          process_request_ok st next req w session e
              ∙ ap (after_request split_host_port now st req) h
              ∙ after_request_dirty st req response w1 dirty
              ∙ ap (after_write split_host_port now req response w1) written_ok,
          send_cookie-Persisted req w1.session x w1.store s w1 d written_ok,
          λ k.
              ap (λ y. lookup k y.values) (send_cookie_keeps req (written x s w1)).0
              ∙ ap (lookup k) same,
          send_cookie-Sent req x s w1 new,
        )
