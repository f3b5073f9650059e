-- ===== src/Pages/Route/Served.antt =====
-- components/pages/component.go: which requests a page gets, and what its parameters are.
use kweb.Base.{
  ℕ, suc, true, false, Bool-cases, if◌then◌else◌, ◌==◌, Option, none, some, List, [], ◌∷◌, length,
  Text, text_eq, text_eq_iff, All, ==_iff, ◌≡◌, ◌↔◌, ◌⊎◌, inl, inr, refl, sym, ap, ◌∙◌, arith,
}
use kweb.Base.Dict.{Dict}
use kweb.Pages.Route.Parameters.{Fits, Stands, SetBy, Visits, set_parameters-Stands}
use kweb.Pages.Route.{
  is_parameter, match_of, template_tokens, PatternHandler, page_handler, all_match, accepts,
  serve_tokens, serve_http, tokens_of,
}

-- No token is empty.
abbrev pub Full : List Text → Type 0
Full ss = All (λ s. text_eq s [] ≡ false) ss

all_match_at :
    (s t : Text) (ss ts : List Text)
    → text_eq s [] ≡ false
    → all_match (match_of (s ∷ ss)) (t ∷ ts) ≡ (
        if is_parameter s
        then all_match (match_of ss) ts
        else (if text_eq s t then all_match (match_of ss) ts else false))
unfolding all_match match_of text_eq
all_match_at s t ss ts h = elim (Bool-cases (is_parameter s)) [
  | inl e ↦ rw (all_match, match_of, e) refl
  | inr e ↦ rw (all_match, match_of, e, h) refl
]

Fits-length : (ss ts : List Text) → Fits ss ts → length (match_of ss) ≡ length ts
unfolding match_of
Fits-length [] [] f = refl
Fits-length [] (t ∷ ts) f = elim f [ ]
Fits-length (s ∷ ss) [] f = elim f [ ]
Fits-length (s ∷ ss) (t ∷ ts) (_, f) = ap suc (Fits-length ss ts f)

Fits-all_match : (ss ts : List Text) → Full ss → Fits ss ts → all_match (match_of ss) ts ≡ true
unfolding match_of all_match
Fits-all_match [] ts full f = refl
Fits-all_match (s ∷ ss) [] full f = elim f [ ]
Fits-all_match (s ∷ ss) (t ∷ ts) (h, full) (same, f) =
    all_match_at s t ss ts h ∙ elim (Bool-cases (is_parameter s)) [
      | inl e ↦ rw e (Fits-all_match ss ts full f)
      | inr e ↦ rw (e, (text_eq_iff s t).1 (same e)) (Fits-all_match ss ts full f)
    ]

all_match-Fits :
    (ss ts : List Text)
    → Full ss
    → length (match_of ss) ≡ length ts
    → all_match (match_of ss) ts ≡ true
    → Fits ss ts
unfolding match_of
all_match-Fits [] [] full l h = tt
all_match-Fits [] (t ∷ ts) full l h = omega (arith, l)
all_match-Fits (s ∷ ss) [] full l h = omega (arith, l)
all_match-Fits (s ∷ ss) (t ∷ ts) (x, full) l h =
    let k = sym (all_match_at s t ss ts x) ∙ h in
    elim (Bool-cases (is_parameter s)) [
      | inl e ↦ (λ e'. cc (e, e'), all_match-Fits ss ts full (omega (arith, l)) (rw e at k))
      | inr e ↦ elim (Bool-cases (text_eq s t)) [
        | inl f ↦ (
          λ _. (text_eq_iff s t).0 f,
          all_match-Fits ss ts full (omega (arith, l)) (rw (e, f) at k),
        )
        | inr f ↦ cc (rw (e, f) at k)
      ]
    ]

-- A page of which no token is empty accepts the tokens of a request if they are as many, and the
-- same where the page has no parameter; and no others.
accepts_iff : (ss ts : List Text) → Full ss → (accepts (match_of ss) ts ≡ true) ↔ Fits ss ts
unfolding accepts
accepts_iff ss ts full = (
  λ h. elim (Bool-cases (length (match_of ss) == length ts)) [
    | inl e ↦ all_match-Fits ss ts full ((==_iff _ _).0 e) (rw (accepts, e) at h)
    | inr e ↦ cc (rw (accepts, e) at h)
  ],
  λ f.
      rw (accepts, (==_iff (length (match_of ss)) (length ts)).1 (Fits-length ss ts f))
        (Fits-all_match ss ts full f),
)

module _ {H : Type 0} where
  abbrev pub handlers_of : List (Text × H) → List (PatternHandler H)
  handlers_of [] = []
  handlers_of ((p, h) ∷ pages) = page_handler p h ∷ handlers_of pages

  -- What is found for a request: the first page whose tokens those of the request fit, with a token
  -- that stands there for each parameter; or none when they fit no page.
  abbrev pub Found : List (Text × H) → List Text → Dict Text → Option (H × Dict Text) → Type 0
  Found [] ts parameters found = found ≡ none
  Found ((p, h) ∷ pages) ts parameters found =
      (Fits (template_tokens p) ts
        × ((set : Dict Text) × (found ≡ some (h, set))
            × SetBy (Stands (template_tokens p) ts) parameters set))
      ⊎ ((Fits (template_tokens p) ts → ⊥) × Found pages ts parameters found)

  module _ (iterate : List (ℕ × Text) → List (ℕ × Text)) where
    serve_tokens-Found :
        (pages : List (Text × H)) (ts : List Text) (parameters : Dict Text)
        → Visits iterate
        → All (λ page. Full (template_tokens page.0)) pages
        → Found pages ts parameters (serve_tokens iterate (handlers_of pages) ts parameters)
    unfolding serve_tokens
    serve_tokens-Found [] ts parameters visits full = refl
    serve_tokens-Found ((p, h) ∷ pages) ts parameters visits (x, full) =
        elim (Bool-cases (accepts (match_of (template_tokens p)) ts)) [
          | inl e ↦
              let f = (accepts_iff (template_tokens p) ts x).0 e in
              inl (
                f,
                (
                  _,
                  rw (serve_tokens, e) refl,
                  set_parameters-Stands iterate (template_tokens p) ts parameters visits f,
                ),
              )
          | inr e ↦ inr (
            λ f. cc (e, (accepts_iff (template_tokens p) ts x).1 f),
            rw (serve_tokens, e) (serve_tokens-Found pages ts parameters visits full),
          )
        ]

    -- If the loop over a Go map visits each of its entries, in any order, and no page has an empty
    -- token, then a request gets the first page of its pattern whose tokens its path fits: they are
    -- as many, and the same where the page has no parameter. The name of each parameter is set to a
    -- token of the path that stands where the page has a parameter of this name, so to the only one
    -- if the name is not repeated; all other names are as before. If the path fits no page, the
    -- request gets none.
    pub serve_http-Found :
        (pages : List (Text × H)) (path : Text) (parameters : Dict Text)
        → Visits iterate
        → All (λ page. Full (template_tokens page.0)) pages
        → Found pages
            (tokens_of path)
            parameters
            (serve_http iterate (handlers_of pages) path parameters)
    unfolding serve_http
    serve_http-Found pages path parameters visits full =
        serve_tokens-Found pages (tokens_of path) parameters visits full
