-- ===== src/Pages/Route.antt =====
-- components/pages/component.go: where a file is served, and which file a request gets. A handler
-- is a value of a type `H`, the page.
pub mod Parameters
pub mod Served
use kweb.Base.{
  ℕ, zero, suc, Bool, true, false, ◌&&◌, ◌==◌, if◌then◌else◌, Option, none, some, List, [], ◌∷◌,
  ◌++◌, length, Text, codes, text_eq,
}
use kweb.Base.Dict.{Dict, insert}
use kweb.Base.Strings.{has_prefix, has_suffix, trim_prefix, trim_suffix, trim, split}

-- The pages below "pages" are served from the root.
unfoldable pub below_pages : Text → Text
below_pages s = if has_prefix s (codes "/pages/") then trim_prefix s (codes "/pages") else s

unfoldable pub without_html : Text → Text
without_html s = if has_suffix s (codes ".html") then trim_suffix s (codes ".html") else s

unfoldable pub without_index : Text → Text
without_index s = if has_suffix s (codes "/index") then trim_suffix s (codes "index") else s

-- `serveOn`
unfoldable pub serve_on : Text → Text
unfolding below_pages without_html without_index
serve_on p = without_index (without_html (below_pages (codes "/" ++ p)))

-- The tokens of a path.
unfoldable pub tokens_of : Text → List Text
tokens_of path = split 47 (trim 47 path)

abbrev pub template_tokens : Text → List Text
template_tokens p = tokens_of (serve_on p)

abbrev pub is_parameter : Text → Bool
is_parameter s = has_prefix s (codes "_")

unfoldable pub match_of : List Text → List Text
match_of [] = []
match_of (s ∷ ss) = (if is_parameter s then [] else s) ∷ match_of ss

-- From an index on.
unfoldable pub template_map : ℕ → List Text → List (ℕ × Text)
template_map i [] = []
template_map i (s ∷ ss) =
    let rest = template_map (suc i) ss in
    if is_parameter s then (i, trim_prefix s (codes "_")) ∷ rest else rest

unfoldable pub pattern_of : List Text → Text
pattern_of [] = []
pattern_of (s ∷ ss) =
    let rest = pattern_of ss in if is_parameter s then codes "/" else codes "/" ++ (s ++ rest)

pub record PatternHandler (H : Type 0) : Type 0 where
  pub match : List Text
  pub template_map : List (ℕ × Text)
  pub handler : H

abbrev pub page_handler : {H : Type 0} → Text → H → PatternHandler H
page_handler p h = record {
  match = match_of (template_tokens p);
  template_map = template_map 0 (template_tokens p);
  handler = h;
}

-- The loop over a match; the tokens are as many.
unfoldable pub all_match : List Text → List Text → Bool
all_match [] tokens = true
all_match (s ∷ ss) [] = false
all_match (s ∷ ss) (t ∷ ts) =
    let rest = all_match ss ts in if text_eq s [] then rest else if text_eq s t then rest else false

unfoldable pub accepts : List Text → List Text → Bool
unfolding all_match
accepts m tokens = if length m == length tokens then all_match m tokens else false

unfoldable pub token_at : ℕ → List Text → Text
token_at i [] = []
token_at zero (t ∷ ts) = t
token_at (suc i) (t ∷ ts) = token_at i ts

-- The parameters of a request, in the order in which the entries are visited.
unfoldable pub set_parameters : List (ℕ × Text) → List Text → Dict Text → Dict Text
unfolding token_at
set_parameters [] tokens parameters = parameters
set_parameters ((i, s) ∷ m) tokens parameters =
    set_parameters m tokens (insert s (token_at i tokens) parameters)

-- `iterate` is the order in which the loop visits a Go map.
module _ {H : Type 0} (iterate : List (ℕ × Text) → List (ℕ × Text)) where
  -- The handler of the first match with the parameters, or none: status 404.
  unfoldable pub serve_tokens :
      List (PatternHandler H) → List Text → Dict Text → Option (H × Dict Text)
  unfolding accepts set_parameters
  serve_tokens [] tokens parameters = none
  serve_tokens (h ∷ hs) tokens parameters =
      let rest = serve_tokens hs tokens parameters in
      if accepts h.match tokens
      then some (h.handler, set_parameters (iterate h.template_map) tokens parameters)
      else rest

  -- `patternMux.ServeHTTP`
  unfoldable pub serve_http : List (PatternHandler H) → Text → Dict Text → Option (H × Dict Text)
  unfolding serve_tokens tokens_of
  serve_http hs path parameters = serve_tokens hs (tokens_of path) parameters
