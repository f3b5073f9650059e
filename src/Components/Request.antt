-- ===== src/Components/Request.antt =====
-- components/request.go, with what the handlers read of an http.Request. The third-party methods of
-- a request are its fields: `cookie` is Cookie, `parse_form` the error of ParseForm, `form` is
-- Form.Get and FormValue, and `query` is URL.Query().Get.
use kweb.Base.{
  Bool, true, false, ◌&&◌, if◌then◌else◌, Option, Text, codes, text_eq, Result, ok, err,
}
use kweb.Base.Strings.{has_prefix}

pub data CookieError : Type 0 where
  no_cookie : CookieError
  other_error : Text → CookieError

pub record Request : Type 0 where
  pub cookie : Text → Result CookieError Text
  pub host : Text
  pub scheme : Text
  pub forwarded_proto : Text
  pub parse_form : Option Text
  pub form : Text → Text
  pub query : Text → Text

-- The function net.SplitHostPort is the parameter, its host and port or an error.
module _ (split_host_port : Text → Result Text (Text × Text)) where
  is_local : Result Text (Text × Text) → Bool
  is_local (ok (h, port)) = text_eq h (codes "localhost")
  is_local (err e) = false

  unfoldable pub is_localhost : Request → Bool
  unfolding is_local
  is_localhost r =
      if has_prefix r.host (codes "localhost")
      then (if text_eq r.host (codes "localhost")
          then true
          else has_prefix r.host (codes "localhost:") && is_local (split_host_port r.host))
      else false

unfoldable pub browser_using_https : Request → Bool
browser_using_https r =
    if text_eq r.forwarded_proto (codes "http")
    then false
    else if text_eq r.forwarded_proto (codes "https")
    then true
    else text_eq r.scheme (codes "https")
