-- ===== src/Sessions/Session/Laws.antt =====
-- components/sessions/session.go: what `Get` returns behind `Set` and `Clear`.
use kweb.Base.{
  false, none, Text, text_eq_refl, text_eq_iff, Option-cases, inl, inr, ◌≡◌, refl, ◌≢◌, arith,
}
use kweb.Base.Dict.{Dict, lookup, erase, lookup-insert_self, lookup-insert_other, lookup-erase}
use kweb.Sessions.Session.{Session, Message, set, clear, get}

lookup-erase_self : (k : Text) (m : Dict Text) → lookup k (erase k m) ≡ none
lookup-erase_self k m = simp (lookup-erase, text_eq_refl)

lookup-erase_other : (k j : Text) (m : Dict Text) → k ≢ j → lookup j (erase k m) ≡ lookup j m
lookup-erase_other k j m ne = ground (arith, lookup-erase k j m, text_eq_iff k j)

module _ {M : Type 0} (message : Message M) where
  pub get-set :
      (m dest : M) (s : Session)
      → get message dest (set message m s) ≡ message.unmarshal (message.marshal m)
  unfolding get set
  get-set m dest s =
      rw (lookup-insert_self message.full_name (message.marshal m) s.values, get) refl

  pub get-clear : (dest : M) (s : Session) → get message dest (clear message s) ≡ (dest, false)
  unfolding get clear
  get-clear dest s = elim (Option-cases (lookup message.full_name s.values)) [
    | inl e ↦ rw (e, clear, e, get) refl
    | inr (v, e) ↦ rw (e, clear, lookup-erase_self message.full_name s.values, get) refl
  ]

module _ {M N : Type 0} (message : Message M) (other : Message N) where
  get-set-other :
      (m : M) (dest : N) (s : Session)
      → message.full_name ≢ other.full_name
      → get other dest (set message m s) ≡ get other dest s
  unfolding get set
  get-set-other m dest s ne =
      rw
        (lookup-insert_other message.full_name other.full_name (message.marshal m) s.values ne, get)
        refl

  get-clear-other :
      (dest : N) (s : Session)
      → message.full_name ≢ other.full_name
      → get other dest (clear message s) ≡ get other dest s
  unfolding get clear
  get-clear-other dest s ne = elim (Option-cases (lookup message.full_name s.values)) [
    | inl e ↦ rw (e, clear) refl
    | inr (v, e) ↦
        rw (e, clear, lookup-erase_other message.full_name other.full_name s.values ne, get) refl
  ]

  -- Behind `Set` of a message, `Get` of its kind returns what proto.Unmarshal reads from its
  -- encoding; behind `Clear`, `Get` of that kind finds nothing and leaves its argument alone. A
  -- `Get` of a kind with another name returns behind both what it returned before.
  pub get_laws :
      (m dest : M) (dest' : N) (s : Session)
      → (get message dest (set message m s) ≡ message.unmarshal (message.marshal m))
        × (get message dest (clear message s) ≡ (dest, false))
        × (message.full_name ≢ other.full_name
            → (get other dest' (set message m s) ≡ get other dest' s)
              × (get other dest' (clear message s) ≡ get other dest' s))
  get_laws m dest dest' s = (
    get-set message m dest s,
    get-clear message dest s,
    λ ne. (get-set-other m dest' s ne, get-clear-other dest' s ne),
  )
