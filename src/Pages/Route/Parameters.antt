-- ===== src/Pages/Route/Parameters.antt =====
-- components/pages/component.go: the parameters of a request, whatever the order of its Go map.
use mathlib.Core.List.{Memᴰ}
use mathlib.Core.List.Memᴰ.{head, tail}
use kweb.Base.{
  ℕ, suc, true, false, Bool-cases, some, List, [], ◌∷◌, ◌++◌, length, length-append, append_assoc,
  Text, codes, text_eq, text_eq_iff, ◌≡◌, ◌↔◌, ◌⊎◌, inl, inr, refl, sym, ap, ◌∙◌, subst, arith,
}
use kweb.Base.Dict.{Dict, lookup, insert, lookup-insert}
use kweb.Base.Strings.{trim_prefix}
use kweb.Pages.Route.{is_parameter, template_map, token_at, set_parameters}

-- The tokens of a request fit those of a page: where the page has no parameter they are the same.
abbrev pub Fits : List Text → List Text → Type 0
Fits [] [] = Unit
Fits [] (t ∷ ts) = ⊥
Fits (s ∷ ss) [] = ⊥
Fits (s ∷ ss) (t ∷ ts) = (is_parameter s ≡ false → s ≡ t) × Fits ss ts

-- The token `t` of a request stands where the page has a parameter of this name.
abbrev pub Stands : List Text → List Text → Text → Text → Type 0
Stands [] ts name t = ⊥
Stands (s ∷ ss) [] name t = ⊥
Stands (s ∷ ss) (x ∷ ts) name t =
    ((is_parameter s ≡ true) × (trim_prefix s (codes "_") ≡ name) × (x ≡ t)) ⊎ Stands ss ts name t

-- What the keys of a dictionary are set to: one of the values that `P` has for the key, if it has
-- one; else the key is as before.
abbrev pub SetBy : (Text → Text → Type 0) → Dict Text → Dict Text → Type 0
SetBy P before after =
    (name : Text)
    → ((t : Text) × P name t × (lookup name after ≡ some t))
      ⊎ (((t : Text) → P name t → ⊥) × (lookup name after ≡ lookup name before))

-- A token at the place of an entry.
abbrev Entered : List (ℕ × Text) → List Text → Text → Text → Type 0
Entered m tokens name t = (i : ℕ) × Memᴰ (i, name) m × (token_at i tokens ≡ t)

SetBy-same :
    {P Q : Text → Text → Type 0} (before after : Dict Text)
    → ((name t : Text) → P name t ↔ Q name t)
    → SetBy P before after
    → SetBy Q before after
SetBy-same before after h set name = elim (set name) [
  | inl (t, p, e) ↦ inl (t, (h name t).0 p, e)
  | inr (nothing, e) ↦ inr (λ t q. nothing t ((h name t).1 q), e)
]

name_of : {i j : ℕ} {s t : Text} → ◌≡◌ {A = ℕ × Text} (i, s) (j, t) → s ≡ t
name_of e = ap (λ x. x.1) e

-- The loop sets the parameters of a list of entries.
pub set_parameters-SetBy :
    (m : List (ℕ × Text)) (tokens : List Text) (before : Dict Text)
    → SetBy (Entered m tokens) before (set_parameters m tokens before)
unfolding set_parameters
set_parameters-SetBy [] tokens before name = inr (λ t (i, h, e). elim h [ ], refl)
set_parameters-SetBy ((i, s) ∷ m) tokens before name =
    elim (set_parameters-SetBy m tokens (insert s (token_at i tokens) before) name) [
      | inl (t, (j, h, e), found) ↦ inl (t, (j, tail h, e), found)
      | inr (nothing, e) ↦
          let step = e ∙ lookup-insert s name (token_at i tokens) before in
          elim (Bool-cases (text_eq s name)) [
            | inl same ↦
                let s≡name = (text_eq_iff s name).0 same in
                inl (
                  token_at i tokens,
                  (i, head (ap (λ x. (i, x)) (sym s≡name)), refl),
                  rw same at step,
                )
            | inr other ↦ inr (
              λ t (j, h, e'). elim h [
                | head x ↦ cc (other, (text_eq_iff s name).1 (sym (name_of x)))
                | tail h' ↦ nothing t (j, h', e')
              ],
              rw other at step,
            )
          ]
    ]

token_at-append :
    (before : List Text) (t : Text) (ts : List Text)
    → token_at (length before) (before ++ t ∷ ts) ≡ t
unfolding token_at
token_at-append [] t ts = refl
token_at-append (b ∷ before) t ts = token_at-append before t ts

-- The entries of a page name the places of its parameters.
template_map-Stands :
    (before ss ts : List Text) (name t : Text)
    → Fits ss ts
    → Entered (template_map (length before) ss) (before ++ ts) name t ↔ Stands ss ts name t
unfolding template_map
template_map-Stands before [] [] name t f = (λ (i, h, e). elim h [ ], λ h. elim h [ ])
template_map-Stands before [] (x ∷ ts) name t f = elim f [ ]
template_map-Stands before (s ∷ ss) [] name t f = elim f [ ]
template_map-Stands before (s ∷ ss) (x ∷ ts) name t (_, f) =
    let next : Entered (template_map (suc (length before)) ss) (before ++ x ∷ ts) name t
        ↔ Stands ss ts name t =
      subst (λ n. Entered (template_map n ss) (before ++ x ∷ ts) name t ↔ Stands ss ts name t)
        (length-append before (x ∷ []) ∙ omega arith)
        (subst
          (λ xs.
            Entered (template_map (length (before ++ x ∷ [])) ss) xs name t ↔ Stands ss ts name t)
          (append_assoc before (x ∷ []) ts)
          (template_map-Stands (before ++ x ∷ []) ss ts name t f)) in
    let here = token_at-append before x ts in
    elim (Bool-cases (is_parameter s)) [
      | inl e ↦
          rw (template_map, e)
            (
              λ (i, h, at). elim h [
                | head k ↦
                    let place : i ≡ length before = ap (λ y. y.0) k in
                    inl (
                      refl,
                      sym (name_of k),
                      sym here ∙ ap (λ j. token_at j (before ++ x ∷ ts)) (sym place) ∙ at,
                    )
                | tail h' ↦ inr (next.0 (i, h', at))
              ],
              λ h. elim h [
                | inl (_, same, at) ↦
                    (length before, head (ap (λ y. (length before, y)) (sym same)), here ∙ at)
                | inr h' ↦ let (i, k, at) = next.1 h' in (i, tail k, at)
              ],
            )
      | inr e ↦
          rw (template_map, e)
            (λ h. inr (next.0 h), λ h. elim h [ inl (marked, _, _) ↦ cc | inr h' ↦ next.1 h' ])
    ]

-- A Go map is visited in any order: each of its entries is.
abbrev pub Visits : (List (ℕ × Text) → List (ℕ × Text)) → Type 0
Visits iterate = (m : List (ℕ × Text)) (x : ℕ × Text) → Memᴰ x (iterate m) ↔ Memᴰ x m

-- The parameters of a page that fits.
pub set_parameters-Stands :
    (iterate : List (ℕ × Text) → List (ℕ × Text)) (ss ts : List Text) (before : Dict Text)
    → Visits iterate
    → Fits ss ts
    → SetBy (Stands ss ts) before (set_parameters (iterate (template_map 0 ss)) ts before)
set_parameters-Stands iterate ss ts before visits f =
    SetBy-same before _
      (λ name t.
        let stands = template_map-Stands [] ss ts name t f in
        (
          λ (i, h, e). stands.0 (i, (visits _ _).0 h, e),
          λ h. let (i, k, e) = stands.1 h in (i, (visits _ _).1 k, e),
        ))
      (set_parameters-SetBy (iterate (template_map 0 ss)) ts before)
