-- ===== src/Users/Accounts.antt =====
-- components/users/component.go: the user that a provider's account is linked to. The API server and
-- the ID that is drawn for a new user are parameters.
pub mod Stable
mod Tests
use kweb.Base.{
  Bool, true, false, ◌&&◌, if◌then◌else◌, Option, none, some, List, [], ◌∷◌, ◌++◌, Text, text_eq,
  Result, ok, err,
}
use kweb.Sessions.Kube.{ApiError, not_found, api_failed}
use kweb.Users.Current.{
  NamespaceMapper, single_namespace, namespace_per_user, namespace_for_user_id,
}

pub record LinkedAccount : Type 0 where
  pub provider_id : Text
  pub provider_user_id : Text
  pub provider_user_name : Text

-- A user object: its key, the accounts, and what else is in its spec.
pub record UserObject : Type 0 where
  pub namespace : Text
  pub name : Text
  pub profile : Text
  pub linked_accounts : List LinkedAccount

-- The calls of the API server on the state `C` of the cluster.
pub record Directory (C : Type 0) : Type 0 where
  pub list : (namespace : Text) → C → Result Text (List UserObject)
  pub create : UserObject → C → Result Text (Unit {0}) × C
  pub get_namespace : Text → C → Result ApiError (Unit {0})
  pub create_namespace : Text → C → Result Text (Unit {0}) × C

-- The loop over the accounts of a user.
unfoldable pub has_account : Text → Text → List LinkedAccount → Bool
has_account provider id [] = false
has_account provider id (a ∷ accounts) =
    let rest = has_account provider id accounts in
    if text_eq a.provider_id provider && text_eq a.provider_user_id id then true else rest

-- The loop over the users: the first with the account.
unfoldable pub find_user : Text → Text → List UserObject → Option UserObject
unfolding has_account
find_user provider id [] = none
find_user provider id (u ∷ users) =
    let rest = find_user provider id users in
    if has_account provider id u.linked_accounts then some u else rest

-- The namespace that is listed; the empty one stands for all.
abbrev pub listed_namespace : NamespaceMapper → Text
listed_namespace (single_namespace ns) = ns
listed_namespace (namespace_per_user prefix) = []

module _ {C : Type 0} (directory : Directory C) (mapper : NamespaceMapper) where
  unfoldable pub ensure_namespace : Text → C → Result Text (Unit {0}) × C
  ensure_namespace ns c = elim (directory.get_namespace ns c) [
    | ok _ ↦ (ok tt, c)
    | err (api_failed e) ↦ (err e, c)
    | err not_found ↦ directory.create_namespace ns c
  ]

  abbrev pub created : UserObject → Result Text (Unit {0}) × C → Result Text UserObject × C
  created u (ok _, c) = (ok u, c)
  created u (err e, c) = (err e, c)

  abbrev pub create_in : UserObject → Result Text (Unit {0}) × C → Result Text UserObject × C
  create_in u (ok _, c) = created u (directory.create u c)
  create_in u (err e, c) = (err e, c)

  abbrev pub new_user : Text → LinkedAccount → Text × List LinkedAccount → UserObject
  new_user user_id account (profile, accounts) = record {
    namespace = namespace_for_user_id mapper user_id;
    name = user_id;
    profile = profile;
    linked_accounts = accounts ++ account ∷ [];
  }

  -- A new user with what the provider has of it.
  unfoldable pub create_user :
      Text
      → LinkedAccount
      → Result Text (Text × List LinkedAccount)
      → C
      → Result Text UserObject × C
  unfolding ensure_namespace
  create_user user_id account (err e) c = (err e, c)
  create_user user_id account (ok spec) c =
      create_in (new_user user_id account spec)
        (ensure_namespace (namespace_for_user_id mapper user_id) c)

  -- `MapToUser`, for an account, with what PopulateUserData returns and the ID for a new user.
  unfoldable pub map_to_user :
      LinkedAccount
      → Result Text (Text × List LinkedAccount)
      → Text
      → C
      → Result Text UserObject × C
  unfolding find_user create_user
  map_to_user account spec user_id c = elim (directory.list (listed_namespace mapper) c) [
    | err e ↦ (err e, c)
    | ok users ↦ elim (find_user account.provider_id account.provider_user_id users) [
      | some u ↦ (ok u, c)
      | none ↦ create_user user_id account spec c
    ]
  ]
