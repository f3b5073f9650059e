-- ===== src/OauthSessions/Best.antt =====
-- components/oauthsessions/component.go: which session GetOauthSession gives.
use mathlib.Core.List.{Memᴰ}
use mathlib.Core.List.Memᴰ.{head, tail}
use kweb.Base.{
  true, false, Bool-cases, Option, none, some, List, [], ◌∷◌, All, Text, text_eq, text_eq_iff,
  text_eq_differ, ok, ◌≡◌, ◌≢◌, ◌⊎◌, inl, inr, refl, ap, ◌∙◌,
}
use kweb.Base.Integers.{ℤ, int_leb, int_leb_refl, int_leb_trans, int_leb_total}
use kweb.OauthSessions.{
  OauthSession, Owner, Client, sessions_of, best_from, load_oauth_sessions, get_oauth_session,
}

-- No session of the user expires later.
abbrev pub Latest : Text → ℤ → List OauthSession → Type 0
Latest user expires ss = All (λ s. s.user ≡ user → int_leb s.expires_at expires ≡ true) ss

-- The session is one of the user's, of which none expires later; or the user has none.
abbrev pub BestOf : Text → List OauthSession → Option OauthSession → Type 0
BestOf user ss none = All (λ s. s.user ≢ user) ss
BestOf user ss (some b) = Memᴰ b ss × (b.user ≡ user) × Latest user b.expires_at ss

-- The best of a session and of others that are the user's.
best_from-some :
    (user : Text) (b : OauthSession) (ss : List OauthSession)
    → (r : OauthSession) × (best_from (some b) (sessions_of user ss) ≡ some r)
      × ((r ≡ b) ⊎ (Memᴰ r ss × (r.user ≡ user)))
      × (int_leb b.expires_at r.expires_at ≡ true)
      × Latest user r.expires_at ss
unfolding best_from sessions_of
best_from-some user b [] = (b, refl, inl refl, int_leb_refl b.expires_at, tt)
best_from-some user b (s ∷ ss) = elim (Bool-cases (text_eq s.user user)) [
  | inr e ↦
      let (r, eq, from, above, latest) = best_from-some user b ss in
      (
        r,
        rw (sessions_of, e) eq,
        elim from [ inl same ↦ inl same | inr (m, own) ↦ inr (tail m, own) ],
        above,
        ((λ own. elim (text_eq_differ s.user user e own) [ ]), latest),
      )
  | inl e ↦ elim (Bool-cases (int_leb s.expires_at b.expires_at)) [
    | inl below ↦
        let (r, eq, from, above, latest) = best_from-some user b ss in
        (
          r,
          rw (sessions_of, e, best_from, below) eq,
          elim from [ inl same ↦ inl same | inr (m, own) ↦ inr (tail m, own) ],
          above,
          ((λ own. int_leb_trans s.expires_at b.expires_at r.expires_at below above), latest),
        )
    | inr higher ↦
        let (r, eq, from, above, latest) = best_from-some user s ss in
        (
          r,
          rw (sessions_of, e, best_from, higher) eq,
          elim from [
            | inl same ↦ inr (head same, ap (λ x. x.user) same ∙ (text_eq_iff s.user user).0 e)
            | inr (m, own) ↦ inr (tail m, own)
          ],
          int_leb_trans b.expires_at s.expires_at r.expires_at
              (int_leb_total s.expires_at b.expires_at higher) above,
          ((λ own. above), latest),
        )
  ]
]

best_from-BestOf :
    (user : Text) (ss : List OauthSession) → BestOf user ss (best_from none (sessions_of user ss))
unfolding best_from sessions_of
best_from-BestOf user [] = tt
best_from-BestOf user (s ∷ ss) = elim (Bool-cases (text_eq s.user user)) [
  | inl e ↦
      let (r, eq, from, above, latest) = best_from-some user s ss in
      rw (sessions_of, e, best_from, eq)
        (
          elim from [ inl same ↦ head same | inr (m, own) ↦ tail m ],
          elim from [
            | inl same ↦ ap (λ x. x.user) same ∙ (text_eq_iff s.user user).0 e
            | inr (m, own) ↦ own
          ],
          ((λ own. above), latest),
        )
  | inr e ↦
      rw (sessions_of, e)
        (later s ss e (best_from none (sessions_of user ss)) (best_from-BestOf user ss))
]
  where
    later :
        (s : OauthSession) (ss : List OauthSession)
        → text_eq s.user user ≡ false
        → (o : Option OauthSession) → BestOf user ss o
        → BestOf user (s ∷ ss) o
    later s ss e none h = (text_eq_differ s.user user e, h)
    later s ss e (some b) (m, own, latest) =
        (tail m, own, ((λ same. elim (text_eq_differ s.user user e same) [ ]), latest))

module _ {C : Type 0} (client : Client C) where
  -- If the sessions in the namespace of a user can be listed, GetOauthSession gives one of them that
  -- is the user's and than which no other of the user's expires later; or none, and then no session
  -- in the list is the user's.
  pub get_oauth_session-BestOf :
      (owner : Owner) (ss : List OauthSession) (c : C)
      → client.list owner.namespace c ≡ ok ss
      → (o : Option OauthSession) × (get_oauth_session client (some owner) c ≡ ok o)
        × BestOf owner.name ss o
  unfolding get_oauth_session load_oauth_sessions
  get_oauth_session-BestOf owner ss c h = (
    best_from none (sessions_of owner.name ss),
    rw (get_oauth_session, load_oauth_sessions, h) refl,
    best_from-BestOf owner.name ss,
  )
