-- ===== src/Components/Serve.antt =====
-- components/serve.go: a handler behind the filters of a server's components. The state that the
-- handlers share is a parameter, and so is the type of errors.
use kweb.Base.{ℕ, Option, none, some, if◌then◌else◌, List, [], ◌∷◌, ◌++◌, Text, ◌≡◌, refl}
use kweb.Components.Request.{Request}
use kweb.Components.Response.{Response, is_nil, Effect, http_error, write_to}

-- A response and an error; the source may return both.
abbrev pub Reply : Type 0 → Type 0
Reply E = Response × Option E

-- The context of the source is a part of the state.
abbrev pub Handler : Type 0 → Type 0 → Type 0
Handler E W = Request → W → Reply E × W

abbrev pub Filter : Type 0 → Type 0 → Type 0
Filter E W = Handler E W → Handler E W

-- The reply of a chain, written.
unfoldable pub write_reply : {E : Type 0} → (ℕ → Text) → Reply E → List Effect
write_reply status_text (response, none) = write_to status_text response
write_reply status_text (response, some e) =
    if is_nil response then http_error (status_text 500) 500 ∷ [] else write_to status_text response

module _ {E W : Type 0} where
  -- The loop of ServeHTTP, on the filters from the last to the first.
  wrap : List (Filter E W) → Handler E W → Handler E W
  wrap [] next = next
  wrap (filter ∷ filters) next = wrap filters (filter next)

  reverse : List (Filter E W) → List (Filter E W)
  reverse [] = []
  reverse (filter ∷ filters) = reverse filters ++ filter ∷ []

  unfoldable pub chain : List (Filter E W) → Handler E W → Handler E W
  unfolding wrap reverse
  chain filters fn = wrap (reverse filters) fn

  wrap-append :
      (fs gs : List (Filter E W)) (fn : Handler E W) → wrap (fs ++ gs) fn ≡ wrap gs (wrap fs fn)
  unfolding wrap
  wrap-append [] gs fn = refl
  wrap-append (f ∷ fs) gs fn = wrap-append fs gs (f fn)

  -- The first component's filter is the outermost.
  pub chain_cons :
      (f : Filter E W) (fs : List (Filter E W)) (fn : Handler E W)
      → chain (f ∷ fs) fn ≡ f (chain fs fn)
  unfolding chain wrap reverse
  chain_cons f fs fn = wrap-append (reverse fs) (f ∷ []) fn

  pub chain_nil : (fn : Handler E W) → chain [] fn ≡ fn
  unfolding chain wrap reverse
  chain_nil fn = refl

  unfoldable pub serve_http :
      (ℕ → Text) → List (Filter E W) → Handler E W → Request → W → List Effect × W
  unfolding write_reply
  serve_http status_text filters fn req w =
      let (reply, w') = chain filters fn req w in (write_reply status_text reply, w')
