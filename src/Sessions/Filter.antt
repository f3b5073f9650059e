-- ===== src/Sessions/Filter.antt =====
-- components/sessions/component.go: the filter that reads a session before the handler and writes it
-- behind it.
pub mod Persistence
pub mod Safety
use kweb.Base.{
  ℕ, ◌+◌, ◌*◌, Bool, true, false, ◌||◌, not, if◌then◌else◌, Option, none, some, [], ◌∷◌, Text,
  codes, text_eq, Result, ok, err,
}
use kweb.Components.Request.{
  Request, CookieError, no_cookie, other_error, is_localhost, browser_using_https,
}
use kweb.Components.Response.{Cookie, Response, nil}
use kweb.Components.Serve.{Reply, Handler, Filter}
use kweb.Sessions.Session.{Session}
use kweb.Sessions.Storage.{Storage}
use kweb.Sessions.Context.{
  Context, with_session, written, Error, error_reading_cookie, storage_error,
}
use kweb.Sessions.Cookies.{set_cookie}

abbrev pub cookie_session_id : Text
cookie_session_id = codes "session"

abbrev pub fresh_session : Session
fresh_session = record { id = []; new_session = true; dirty = false; values = [] }

-- The session with both flags lowered, as the filter leaves it once it is written.
unfoldable pub settled : Session → Session
settled s = record { id = s.id; new_session = false; dirty = false; values = s.values }

module _ {S : Type 0} (st : Storage S) where
  -- `beforeRequest` with the session ID of the cookie.
  unfoldable pub find_session : Text → S → Result Error Session
  find_session id s = if text_eq id [] then ok fresh_session else elim (st.lookup_session id s) [
    | err e ↦ err (storage_error e)
    | ok none ↦ ok fresh_session
    | ok (some found) ↦ ok found
  ]

  unfoldable pub before_request : Request → S → Result Error Session
  before_request req s = elim (req.cookie cookie_session_id) [
    | err (other_error e) ↦ err (error_reading_cookie e)
    | err no_cookie ↦ find_session [] s
    | ok id ↦ find_session id s
  ]

-- `net.SplitHostPort`, and the time of the request in seconds.
module _ (split_host_port : Text → Result Text (Text × Text)) (now : ℕ) where
  unfoldable pub session_cookie : Request → Text → Cookie
  session_cookie req id = record {
    name = cookie_session_id;
    value = id;
    expires = now + 3600 * 24 * 365;
    http_only = true;
    secure = browser_using_https req || not (is_localhost split_host_port req);
    path = codes "/";
  }

  module _ {S X : Type 0} where
    -- Behind a write: the cookie of a new session, and the flags.
    unfoldable pub send_cookie : Request → Context S X → Context S X
    send_cookie req w =
        let w' =
          if w.session.new_session then set_cookie (session_cookie req w.session.id) w else w in
        with_session (settled w'.session) w'

    unfoldable pub after_write :
        Request
        → Response
        → Context S X
        → Result Text (Unit {0}) × Session × S
        → Reply Error × Context S X
    after_write req response w (r, session, store) = elim r [
      | err e ↦ ((nil, some (storage_error e)), written session store w)
      | ok _ ↦ ((response, none), send_cookie req (written session store w))
    ]

  module _ {S X : Type 0} (st : Storage S) where
    -- Behind the handler.
    unfoldable pub after_request : Request → Reply Error × Context S X → Reply Error × Context S X
    after_request req ((response, some e), w) = ((nil, some e), w)
    after_request req ((response, none), w) =
        if w.session.dirty
        then after_write req response w (st.write_session w.session w.store)
        else ((response, none), w)

    unfoldable pub process_request : Filter Error (Context S X)
    process_request next req w = elim (before_request st req w.store) [
      | err e ↦ ((nil, some e), w)
      | ok session ↦ after_request req (next req (with_session session w))
    ]
