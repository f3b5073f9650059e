-- ===== src/Sessions/Context.antt =====
-- The state behind the context of a request: its session, the store of sessions, the cookies to set
-- (the context value of components/cookies, which server/server.go installs before sessions), and
-- whatever else the handlers change.
use kweb.Base.{List, Text}
use kweb.Components.Response.{Cookie}
use kweb.Sessions.Session.{Session}

pub record Context (S X : Type 0) : Type 0 where
  pub session : Session
  pub store : S
  pub set_cookies : List Cookie
  pub rest : X

module _ {S X : Type 0} where
  abbrev pub with_session : Session → Context S X → Context S X
  with_session s c = record {
    session = s;
    store = c.store;
    set_cookies = c.set_cookies;
    rest = c.rest;
  }

  -- The context behind a write of its session.
  abbrev pub written : Session → S → Context S X → Context S X
  written s st c = record { session = s; store = st; set_cookies = c.set_cookies; rest = c.rest }

  abbrev pub with_cookies : List Cookie → Context S X → Context S X
  with_cookies cs c = record {
    session = c.session;
    store = c.store;
    set_cookies = cs;
    rest = c.rest;
  }

  abbrev pub with_rest : X → Context S X → Context S X
  with_rest x c = record {
    session = c.session;
    store = c.store;
    set_cookies = c.set_cookies;
    rest = x;
  }

-- The errors that the filters and handlers return.
pub data Error : Type 0 where
  error_reading_cookie : Text → Error
  storage_error : Text → Error
  bad_form : Text → Error
  state_mismatch : Text → Text → Error
  permission_denied : Text → Error
  missing_code : Error
  unknown_provider : Text → Error
  other_error : Text → Error
