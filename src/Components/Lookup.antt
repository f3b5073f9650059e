-- ===== src/Components/Lookup.antt =====
-- components/serve.go: GetComponentFromServer. The test of a component's type is a parameter, which
-- gives the component as a value of the type.
use kweb.Base.{
  Option, none, some, Option-cases, List, [], ◌∷◌, ◌++◌, All, ◌≡◌, inl, inr, refl, ap, ◌∙◌, subst,
  Result, ok, err,
}

pub data LookupError : Type 0 where
  component_not_found : LookupError
  multiple_components : LookupError

module _ {A T : Type 0} (as_type : A → Option T) where
  -- The loop over the components.
  unfoldable pub matches : List A → List T
  matches [] = []
  matches (c ∷ cs) = let rest = matches cs in elim (as_type c) [ none ↦ rest | some t ↦ t ∷ rest ]

  unfoldable pub only : List T → Result LookupError T
  only [] = err component_not_found
  only (t ∷ []) = ok t
  only (t ∷ u ∷ ts) = err multiple_components

  unfoldable pub get_component_from_server : List A → Result LookupError T
  unfolding matches only
  get_component_from_server cs = only (matches cs)

  -- None of the components has the type.
  abbrev pub NoMatch : List A → Type 0
  NoMatch cs = All (λ c. as_type c ≡ none) cs

  -- One component alone has the type; or none has; or one has, and another behind it.
  abbrev pub Chosen : List A → Result LookupError T → Type 0
  Chosen cs (ok t) =
      (before : List A) × (c : A) × (behind : List A) × (cs ≡ before ++ c ∷ behind)
      × (as_type c ≡ some t)
      × NoMatch before
      × NoMatch behind
  Chosen cs (err component_not_found) = NoMatch cs
  Chosen cs (err multiple_components) =
      (before : List A) × (c : A) × (between : List A) × (d : A) × (behind : List A) × (cs
        ≡ before ++ c ∷ (between ++ d ∷ behind))
      × ((t : T) × (as_type c ≡ some t))
      × ((u : T) × (as_type d ≡ some u))

  matches-none : (cs : List A) → matches cs ≡ [] → NoMatch cs
  unfolding matches
  matches-none [] h = tt
  matches-none (c ∷ cs) h = elim (Option-cases (as_type c)) [
    | inl e ↦ (e, matches-none cs (rw (matches, e) at h))
    | inr (t, e) ↦ cc (rw (matches, e) at h)
  ]

  -- The first match, and what matches behind it.
  matches-some :
      (cs : List A) (t : T) (ts : List T)
      → matches cs ≡ t ∷ ts
      → (before : List A) × (c : A) × (behind : List A) × (cs ≡ before ++ c ∷ behind)
        × (as_type c ≡ some t)
        × NoMatch before
        × (matches behind ≡ ts)
  unfolding matches
  matches-some [] t ts h = cc
  matches-some (c ∷ cs) t ts h = elim (Option-cases (as_type c)) [
    | inl e ↦
        let (before, d, behind, eq, m, none_before, rest) =
          matches-some cs t ts (rw (matches, e) at h) in
        (c ∷ before, d, behind, ap (λ x. c ∷ x) eq, m, (e, none_before), rest)
    | inr (u, e) ↦
        let k : u ∷ matches cs ≡ t ∷ ts = (rw (matches, e) at h) in
        let same : u ≡ t = cc k in
        let rest : matches cs ≡ ts = cc k in
        ([], c, cs, refl, subst (λ x. as_type c ≡ some x) same e, tt, rest)
  ]

  -- GetComponentFromServer gives the component that has the type if it is the only one, and an error
  -- that says whether there is none or more than one otherwise.
  pub get_component_from_server-Chosen : (cs : List A) → Chosen cs (get_component_from_server cs)
  unfolding get_component_from_server only
  get_component_from_server-Chosen cs = chosen (matches cs) refl
    where
      chosen : (ts : List T) → matches cs ≡ ts → Chosen cs (only ts)
      chosen [] h = matches-none cs h
      chosen (t ∷ []) h =
          let (before, c, behind, eq, m, none_before, rest) = matches-some cs t [] h in
          (before, c, behind, eq, m, none_before, matches-none behind rest)
      chosen (t ∷ u ∷ ts) h =
          let (before, c, behind, eq, m, none_before, rest) = matches-some cs t (u ∷ ts) h in
          let (between, d, last, eq', m', none_between, rest') = matches-some behind u ts rest in
          (before, c, between, d, last, eq ∙ ap (λ x. before ++ c ∷ x) eq', (t, m), (u, m'))
