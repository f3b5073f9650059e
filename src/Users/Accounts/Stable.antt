-- ===== src/Users/Accounts/Stable.antt =====
-- components/users/component.go: an account leads to the same user again.
use kweb.Base.{
  true, Bool-cases, ◌&&◌, none, some, Option-cases, List, [], ◌∷◌, ◌++◌, Text, text_eq,
  text_eq_refl, Result, Result-cases, ok, err, ◌≡◌, refl, sym, ap, ◌∙◌, subst, ◌⊎◌, inl, inr,
}
use kweb.Sessions.Kube.{not_found, api_failed}
use kweb.Users.Current.{
  NamespaceMapper, single_namespace, namespace_per_user, namespace_for_user_id,
}
use kweb.Users.Accounts.{
  LinkedAccount, UserObject, Directory, has_account, find_user, listed_namespace, ensure_namespace,
  created, create_in, new_user, create_user, map_to_user,
}

-- What is documented of the API server: creating a namespace does not change the users that are
-- listed, and creating a user adds it to the lists that it belongs in, at some place.
pub record Faithful {C : Type 0} (directory : Directory C) : Type 0 where
  pub namespace_created :
      (n ns : Text) (c : C)
      → directory.list ns (directory.create_namespace n c).1 ≡ directory.list ns c
  pub user_created :
      (u : UserObject) (ns : Text) (users : List UserObject) (c c' : C)
      → directory.create u c ≡ (ok tt, c')
      → (ns ≡ []) ⊎ (u.namespace ≡ ns)
      → directory.list ns c ≡ ok users
      → (before : List UserObject) × (behind : List UserObject) × (directory.list ns c'
          ≡ ok (before ++ u ∷ behind))
        × (before ++ behind ≡ users)

has_account-append :
    (a : LinkedAccount) (accounts : List LinkedAccount)
    → has_account a.provider_id a.provider_user_id (accounts ++ a ∷ []) ≡ true
unfolding has_account
has_account-append a [] =
    rw (has_account, text_eq_refl a.provider_id, text_eq_refl a.provider_user_id) refl
has_account-append a (b ∷ accounts) =
    elim (Bool-cases
      (text_eq b.provider_id a.provider_id && text_eq b.provider_user_id a.provider_user_id)) [
        | inl e ↦ rw (has_account, e) refl
        | inr e ↦ rw (has_account, e) (has_account-append a accounts)
      ]

find_user-has_account :
    (p id : Text) (users : List UserObject) (u : UserObject)
    → find_user p id users ≡ some u
    → has_account p id u.linked_accounts ≡ true
unfolding find_user
find_user-has_account p id [] u h = cc
find_user-has_account p id (v ∷ users) u h =
    elim (Bool-cases (has_account p id v.linked_accounts)) [
      | inl e ↦
          let same : v ≡ u = cc (rw (find_user, e) at h) in
          subst (λ x. has_account p id x.linked_accounts ≡ true) same e
      | inr e ↦ find_user-has_account p id users u (rw (find_user, e) at h)
    ]

-- A user with the account among users without it is the one that is found.
find_user-append :
    (p id : Text) (before behind : List UserObject) (u : UserObject)
    → find_user p id (before ++ behind) ≡ none
    → has_account p id u.linked_accounts ≡ true
    → find_user p id (before ++ u ∷ behind) ≡ some u
unfolding find_user
find_user-append p id [] behind u h k = rw (find_user, k) refl
find_user-append p id (v ∷ before) behind u h k =
    elim (Bool-cases (has_account p id v.linked_accounts)) [
      | inl e ↦ cc (rw (find_user, e) at h)
      | inr e ↦ rw (find_user, e) (find_user-append p id before behind u (rw (find_user, e) at h) k)
    ]

-- A new user belongs in the list that is searched.
new_user-listed :
    (mapper : NamespaceMapper) (id : Text)
    → (listed_namespace mapper ≡ []) ⊎ (namespace_for_user_id mapper id ≡ listed_namespace mapper)
unfolding namespace_for_user_id
new_user-listed (single_namespace ns) id = inr refl
new_user-listed (namespace_per_user prefix) id = inl refl

module _ {C : Type 0} (directory : Directory C) (mapper : NamespaceMapper)
    (faithful : Faithful directory) where
  -- The user is listed, at the first place with the account.
  abbrev pub Linked : LinkedAccount → UserObject → C → Type 0
  Linked a u c =
      (users : List UserObject) × (directory.list (listed_namespace mapper) c ≡ ok users)
      × (find_user a.provider_id a.provider_user_id users ≡ some u)

  Linked-again :
      (a : LinkedAccount) (u : UserObject) (c : C) (spec : Result Text (Text × List LinkedAccount))
      (id : Text)
      → Linked a u c
      → map_to_user directory mapper a spec id c ≡ (ok u, c)
  unfolding map_to_user
  Linked-again a u c spec id (users, hl, hf) = rw (map_to_user, hl, hf) refl

  ensure_namespace-list :
      (n ns : Text) (c : C)
      → directory.list ns (ensure_namespace directory mapper n c).1 ≡ directory.list ns c
  unfolding ensure_namespace
  ensure_namespace-list n ns c = elim (Result-cases (directory.get_namespace n c)) [
    | inl (x, e) ↦ rw (ensure_namespace, e) refl
    | inr (api_failed m, e) ↦ rw (ensure_namespace, e) refl
    | inr (not_found, e) ↦ rw (ensure_namespace, e) (faithful.namespace_created n ns c)
  ]

  same-Linked :
      (a : LinkedAccount) (u u' : UserObject) (c c' : C)
      → ◌≡◌ {A = Result Text UserObject × C} (ok u, c) (ok u', c')
      → Linked a u c
      → Linked a u' c'
  same-Linked a u u' c c' h l =
      let same_user : u ≡ u' = cc (ap (λ x. x.0) h) in
      let same_state : c ≡ c' = ap (λ x. x.1) h in
      subst (λ x. Linked a u' x) same_state (subst (λ x. Linked a x c) same_user l)

  created-Linked :
      (a : LinkedAccount) (u u' : UserObject) (users : List UserObject) (c c' : C)
      (answer : Result Text (Unit {0}) × C)
      → directory.create u c ≡ answer
      → has_account a.provider_id a.provider_user_id u.linked_accounts ≡ true
      → (listed_namespace mapper ≡ []) ⊎ (u.namespace ≡ listed_namespace mapper)
      → directory.list (listed_namespace mapper) c ≡ ok users
      → find_user a.provider_id a.provider_user_id users ≡ none
      → created directory mapper u answer ≡ (ok u', c')
      → Linked a u' c'
  created-Linked a u u' users c c' (err e, d) hc ha hn hl hf h = cc
  created-Linked a u u' users c c' (ok _, d) hc ha hn hl hf h =
      let (before, behind, listed, same) =
        faithful.user_created u (listed_namespace mapper) users c d hc hn hl in
      same-Linked a u u' d c' h (
        before ++ u ∷ behind,
        listed,
        find_user-append a.provider_id a.provider_user_id before behind u
            (subst (λ x. find_user a.provider_id a.provider_user_id x ≡ none) (sym same) hf) ha,
      )

  create_in-Linked :
      (a : LinkedAccount) (u u' : UserObject) (users : List UserObject)
      (o : Result Text (Unit {0}) × C) (c' : C)
      → has_account a.provider_id a.provider_user_id u.linked_accounts ≡ true
      → (listed_namespace mapper ≡ []) ⊎ (u.namespace ≡ listed_namespace mapper)
      → directory.list (listed_namespace mapper) o.1 ≡ ok users
      → find_user a.provider_id a.provider_user_id users ≡ none
      → create_in directory mapper u o ≡ (ok u', c')
      → Linked a u' c'
  create_in-Linked a u u' users (err e, c) c' ha hn hl hf h = cc
  create_in-Linked a u u' users (ok _, c) c' ha hn hl hf h =
      created-Linked a u u' users c c' (directory.create u c) refl ha hn hl hf h

  create_user-Linked :
      (a : LinkedAccount) (u : UserObject) (users : List UserObject) (c c' : C)
      (spec : Result Text (Text × List LinkedAccount)) (id : Text)
      → directory.list (listed_namespace mapper) c ≡ ok users
      → find_user a.provider_id a.provider_user_id users ≡ none
      → create_user directory mapper id a spec c ≡ (ok u, c')
      → Linked a u c'
  unfolding create_user
  create_user-Linked a u users c c' (err e) id hl hf h = cc
  create_user-Linked a u users c c' (ok (profile, accounts)) id hl hf h =
      let ns = namespace_for_user_id mapper id in
      create_in-Linked a (new_user directory mapper id a (profile, accounts)) u users
        (ensure_namespace directory mapper ns c) c' (has_account-append a accounts)
        (new_user-listed mapper id) (ensure_namespace-list ns (listed_namespace mapper) c ∙ hl) hf h

  map_to_user-Linked :
      (a : LinkedAccount) (u : UserObject) (c c' : C)
      (spec : Result Text (Text × List LinkedAccount)) (id : Text)
      → map_to_user directory mapper a spec id c ≡ (ok u, c')
      → Linked a u c'
  unfolding map_to_user
  map_to_user-Linked a u c c' spec id h =
      elim (Result-cases (directory.list (listed_namespace mapper) c)) [
        | inr (e, hl) ↦ cc (rw (map_to_user, hl) at h)
        | inl (users, hl) ↦ elim (Option-cases (find_user a.provider_id a.provider_user_id users)) [
          | inr (v, hf) ↦ same-Linked a v u c c' (rw (map_to_user, hl, hf) at h) (users, hl, hf)
          | inl hf ↦ create_user-Linked a u users c c' spec id hl hf (rw (map_to_user, hl, hf) at h)
        ]
      ]

  -- If MapToUser returns a user for an account, then this user is linked to the account; and as long
  -- as the cluster stays as it leaves it, MapToUser returns the same user for the account again and
  -- changes nothing, whatever ID is drawn.
  pub map_to_user-Stable :
      (a : LinkedAccount) (u : UserObject) (c c' : C)
      (spec : Result Text (Text × List LinkedAccount)) (id : Text)
      → map_to_user directory mapper a spec id c ≡ (ok u, c')
      → (has_account a.provider_id a.provider_user_id u.linked_accounts ≡ true)
        × ((spec' : Result Text (Text × List LinkedAccount)) (id' : Text)
            → map_to_user directory mapper a spec' id' c' ≡ (ok u, c'))
  map_to_user-Stable a u c c' spec id h =
      let linked = map_to_user-Linked a u c c' spec id h in
      let (users, hl, hf) = linked in
      (
        find_user-has_account a.provider_id a.provider_user_id users u hf,
        λ spec' id'. Linked-again a u c' spec' id' linked,
      )
