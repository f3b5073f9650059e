-- ===== src/Login/Redeems.antt =====
-- components/login/handlers.go: when the callback redeems a code.
use kweb.Base.{
  Bool, true, false, Bool-cases, if◌then◌else◌, none, some, Option-cases, [], Text, codes, text_eq,
  text_eq_iff, text_eq_differ, ◌≡◌, ◌≢◌, ◌⊎◌, inl, inr, refl, sym, ap, subst, ◌∙◌,
}
use kweb.Base.Dict.{Dict, lookup}
use kweb.Base.Strings.{has_prefix}
use kweb.Components.Request.{Request}
use kweb.Components.Response.{nil}
use kweb.Components.Serve.{Reply}
use kweb.Sessions.Session.{Session, get, clear}
use kweb.Sessions.Context.{Context, with_session, Error, state_mismatch, bad_form}
use kweb.Login.Handlers.{
  StateData, empty_state, Provider, Library, encode_state, get_redirect_uri, after_redeem,
  local_redirect, redeem_code, check_code, state_string, oauth_callback,
}

none_differs : {A : Type 0} {x : A} → none ≢ some x
none_differs e = cc

has_prefix_self : has_prefix (codes "/") (codes "/") ≡ true
unfolding has_prefix
has_prefix_self = refl

local_redirect_lem : (r : Text) → has_prefix (local_redirect r) (codes "/") ≡ true
unfolding local_redirect
local_redirect_lem r = elim (Bool-cases (has_prefix r (codes "/"))) [
  | inl e ↦ rw (e, local_redirect) e
  | inr e ↦ rw (e, local_redirect) has_prefix_self
]

module _ (lib : Library) {S X : Type 0} (providers : Dict (Provider (Context S X))) where
  -- The session holds no state, or one that can be read back.
  abbrev pub Held : Session → Type 0
  Held s =
      (lookup lib.state_message.full_name s.values ≡ none)
      ⊎ ((d : StateData) × (lookup lib.state_message.full_name s.values
            ≡ some (lib.state_message.marshal d))
          × (lib.state_message.unmarshal (lib.state_message.marshal d) ≡ (d, true)))

  -- An error, and no provider was called.
  abbrev pub Refused : Context S X → Reply Error × Context S X → Type 0
  Refused w (reply, w') = ((e : Error) × (reply.1 ≡ some e)) × (w' ≡ w)

  -- The answer of the provider for a state, with a redirect on this site.
  abbrev pub Redeemed : StateData → Request → Context S X → Reply Error × Context S X → Type 0
  Redeemed d req w r =
      (p : Provider (Context S X)) × (lookup d.provider_id providers ≡ some p)
      × (req.form (codes "code") ≢ [])
      × (has_prefix (local_redirect d.redirect) (codes "/") ≡ true)
      × (r
          ≡ after_redeem (local_redirect d.redirect)
              (p.redeem (get_redirect_uri lib req d.provider_id) (req.form (codes "code")) w))

  check_code-cases :
      (d : StateData) (req : Request) (w : Context S X)
      → Refused w (check_code lib providers d req w)
        ⊎ Redeemed d req w (check_code lib providers d req w)
  unfolding check_code redeem_code
  check_code-cases d req w = elim (Bool-cases (text_eq (req.form (codes "error")) [])) [
    | inr e ↦ inl (rw (e, check_code) ((_, refl), refl))
    | inl e ↦ elim (Bool-cases (text_eq (req.form (codes "code")) [])) [
      | inl c ↦ inl (rw (e, check_code, c) ((_, refl), refl))
      | inr c ↦ elim (Option-cases (lookup d.provider_id providers)) [
        | inl n ↦ inl (rw (e, check_code, c, redeem_code, n) ((_, refl), refl))
        | inr (p, n) ↦ inr (
          p,
          n,
          text_eq_differ _ [] c,
          local_redirect_lem d.redirect,
          rw (e, check_code, c, redeem_code, n) refl,
        )
      ]
    ]
  ]

  abbrev pub cleared : Context S X → Context S X
  cleared w = with_session (clear lib.state_message w.session) w

  -- The code was redeemed for the state that the session held, which the request named.
  abbrev pub Tied : Request → Context S X → Reply Error × Context S X → Type 0
  Tied req w r =
      (d : StateData) × (lookup lib.state_message.full_name w.session.values
        ≡ some (lib.state_message.marshal d))
      × (req.query (codes "state") ≡ encode_state lib d)
      × Redeemed d req (cleared w) r

  abbrev Outcome : Request → Context S X → Reply Error × Context S X → Type 0
  Outcome req w r = Refused w r ⊎ (Refused (cleared w) r ⊎ Tied req w r)

  -- The callback's answer, by the comparison of the states.
  abbrev pub answer : Request → Context S X → StateData × Bool → Bool → Reply Error × Context S X
  answer req w state same =
      if same
      then check_code lib providers state.0 req (cleared w)
      else ((nil, some (state_mismatch (req.query (codes "state")) (state_string lib state))), w)

  pub stated :
      (req : Request) (w : Context S X) (state : StateData × Bool)
      → req.parse_form ≡ none
      → get lib.state_message empty_state w.session ≡ state
      → oauth_callback lib providers req w
        ≡ answer req w state (text_eq (req.query (codes "state")) (state_string lib state))
  unfolding oauth_callback
  stated req w state e g = simp (oauth_callback, e, g)

  -- The callback on either side of the comparison of the states.
  compared :
      (req : Request) (w : Context S X) (state : StateData × Bool)
      → req.parse_form ≡ none
      → get lib.state_message empty_state w.session ≡ state
      → Refused w (oauth_callback lib providers req w)
        ⊎ ((req.query (codes "state") ≡ state_string lib state)
            × (oauth_callback lib providers req w
                ≡ check_code lib providers state.0 req (cleared w)))
  compared req w state e g =
      elim (Bool-cases (text_eq (req.query (codes "state")) (state_string lib state))) [
        | inl t ↦ inr (
          (text_eq_iff (req.query (codes "state")) (state_string lib state)).0 t,
          stated req w state e g ∙ ap (answer req w state) t,
        )
        | inr t ↦ inl (
            subst (Refused w) (sym (stated req w state e g ∙ ap (answer req w state) t))
              ((_, refl), refl))
      ]

  get_absent :
      (s : Session)
      → lookup lib.state_message.full_name s.values ≡ none
      → get lib.state_message empty_state s ≡ (empty_state, false)
  unfolding get
  get_absent s n = rw (n, get) refl

  get_held :
      (s : Session) (d : StateData)
      → lookup lib.state_message.full_name s.values ≡ some (lib.state_message.marshal d)
      → lib.state_message.unmarshal (lib.state_message.marshal d) ≡ (d, true)
      → get lib.state_message empty_state s ≡ (d, true)
  unfolding get
  get_held s d v u = rw (v, get) u

  bad_form_lem :
      (req : Request) (w : Context S X) (why : Text)
      → req.parse_form ≡ some why
      → oauth_callback lib providers req w ≡ ((nil, some (bad_form why)), w)
  unfolding oauth_callback
  bad_form_lem req w why e = rw (e, oauth_callback) refl

  anonymous :
      (req : Request) (w : Context S X)
      → lookup [] providers ≡ none
      → Refused (cleared w) (check_code lib providers empty_state req (cleared w))
  anonymous req w anon = elim (check_code-cases empty_state req (cleared w)) [
    | inl refused ↦ refused
    | inr (p, n, _, _, _) ↦ elim (none_differs (sym anon ∙ n)) [ ]
  ]

  pub state_string_found : (d : StateData) → state_string lib (d, true) ≡ encode_state lib d
  unfolding state_string
  state_string_found d = refl

  -- If the session holds no state or one that can be read back, and no provider has an empty
  -- name, then the callback either returns an error and calls no provider, with the context as it
  -- was or with the state cleared from the session; or the session held a state whose encoding is
  -- the request's parameter `state`, the request has a code, and the answer is that of the
  -- provider which the state names, called once with the code and behind the clearing of the
  -- state, with a redirect to the state's redirect or to the root, and to a text that starts with
  -- a slash in either case.
  pub oauth_callback-Tied :
      (req : Request) (w : Context S X)
      → Held w.session
      → lookup [] providers ≡ none
      → Refused w (oauth_callback lib providers req w)
        ⊎ (Refused (cleared w) (oauth_callback lib providers req w)
            ⊎ Tied req w (oauth_callback lib providers req w))
  oauth_callback-Tied req w held anon = elim (Option-cases req.parse_form) [
    | inr (why, e) ↦ inl (subst (Refused w) (sym (bad_form_lem req w why e)) ((_, refl), refl))
    | inl e ↦ elim held [
      | inl n ↦ elim (compared req w (empty_state, false) e (get_absent w.session n)) [
        | inl refused ↦ inl refused
        | inr (_, eq) ↦ inr (inl (subst (Refused (cleared w)) (sym eq) (anonymous req w anon)))
      ]
      | inr (d, v, u) ↦ elim (compared req w (d, true) e (get_held w.session d v u)) [
        | inl refused ↦ inl refused
        | inr (same, eq) ↦ elim (check_code-cases d req (cleared w)) [
          | inl refused ↦ inr (inl (subst (Refused (cleared w)) (sym eq) refused))
          | inr redeemed ↦ inr (
              inr (
                d,
                v,
                same ∙ state_string_found d,
                subst (Redeemed d req (cleared w)) (sym eq) redeemed,
              ))
        ]
      ]
    ]
  ]
