-- ===== src/Sessions/Cookies.antt =====
-- components/cookies: a filter that collects the cookies which handlers set.
use kweb.Base.{◌==◌, if◌then◌else◌, none, some, List, [], ◌∷◌, ◌++◌, length}
use kweb.Components.Response.{Cookie, Response, nil, add_cookies_response}
use kweb.Components.Serve.{Reply, Filter}
use kweb.Sessions.Context.{Context, with_cookies, Error}

unfoldable pub wrap_response : List Cookie → Response → Response
wrap_response cs response = if length cs == 0 then response else add_cookies_response cs response

module _ {S X : Type 0} where
  unfoldable pub set_cookie : Cookie → Context S X → Context S X
  set_cookie c w = with_cookies (w.set_cookies ++ c ∷ []) w

  -- What the filter makes of the reply; the outer context has the outer cookies.
  unfoldable pub add_cookies : List Cookie → Reply Error × Context S X → Reply Error × Context S X
  unfolding wrap_response
  add_cookies outer ((response, some e), w) = ((nil, some e), with_cookies outer w)
  add_cookies outer ((response, none), w) =
      ((wrap_response w.set_cookies response, none), with_cookies outer w)

  unfoldable pub process_request : Filter Error (Context S X)
  unfolding add_cookies
  process_request next req w = add_cookies w.set_cookies (next req (with_cookies [] w))
