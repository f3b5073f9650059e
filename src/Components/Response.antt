-- ===== src/Components/Response.antt =====
-- components/response.go, and the wrapper of components/cookies: what a response writes. A nil
-- response is a constructor; writing it panics. http.StatusText is a parameter.
use kweb.Base.{ℕ, ◌==◌, if◌then◌else◌, Bool, true, false, List, [], ◌∷◌, ◌++◌, Text, text_eq}

-- http.Cookie, with the time it expires in seconds.
pub record Cookie : Type 0 where
  pub name : Text
  pub value : Text
  pub expires : ℕ
  pub http_only : Bool
  pub secure : Bool
  pub path : Text

pub record StaticResponse : Type 0 where
  pub status_code : ℕ
  pub status_text : Text
  pub redirect_url : Text

pub record SimpleResponse : Type 0 where
  pub status_code : ℕ
  pub status_text : Text
  pub headers : List (Text × List Text)
  pub body : Text

pub data Response : Type 0 where
  nil : Response
  static_response : StaticResponse → Response
  simple_response : SimpleResponse → Response
  add_cookies_response : List Cookie → Response → Response

-- The calls on the http.ResponseWriter.
pub data Effect : Type 0 where
  set_cookie : Cookie → Effect
  redirect : Text → ℕ → Effect
  http_error : Text → ℕ → Effect
  add_header : Text → Text → Effect
  write_header : ℕ → Effect
  write : Text → Effect
  panic : Effect

unfoldable pub is_nil : Response → Bool
is_nil nil = true
is_nil _ = false

abbrev pub error_response : ℕ → Response
error_response code =
    static_response record { status_code = code; status_text = []; redirect_url = [] }

abbrev pub redirect_response : Text → Response
redirect_response url =
    static_response record { status_code = 302; status_text = []; redirect_url = url }

module _ (status_text : ℕ → Text) where
  unfoldable pub write_static : StaticResponse → List Effect
  write_static r =
      let text = if text_eq r.status_text [] then status_text r.status_code else r.status_text in
      if text_eq r.redirect_url []
      then http_error text r.status_code ∷ []
      else redirect r.redirect_url r.status_code ∷ []

  write_values : Text → List Text → List Effect
  write_values key [] = []
  write_values key (v ∷ vs) = add_header key v ∷ write_values key vs

  write_headers : List (Text × List Text) → List Effect
  unfolding write_values
  write_headers [] = []
  write_headers ((key, values) ∷ headers) = write_values key values ++ write_headers headers

  unfoldable pub write_simple : SimpleResponse → List Effect
  unfolding write_headers
  write_simple r =
      let code = if r.status_code == 0 then 200 else r.status_code in
      write_headers r.headers ++ write_header code ∷ write r.body ∷ []

  write_cookies : List Cookie → List Effect
  write_cookies [] = []
  write_cookies (c ∷ cs) = set_cookie c ∷ write_cookies cs

  unfoldable pub write_to : Response → List Effect
  unfolding write_static write_simple write_cookies
  write_to nil = panic ∷ []
  write_to (static_response r) = write_static r
  write_to (simple_response r) = write_simple r
  write_to (add_cookies_response cs inner) = write_cookies cs ++ write_to inner
