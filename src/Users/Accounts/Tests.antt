-- ===== src/Users/Accounts/Tests.antt =====
-- The linking of accounts on a cluster with one namespace, and the result applied to it.
use kweb.Base.{true, List, [], ◌∷◌, Text, codes, text_eq, Result, ok, err, ◌≡◌, refl, sym, ap, ◌∙◌}
use kweb.Sessions.Kube.{not_found}
use kweb.Users.Current.{NamespaceMapper, single_namespace, namespace_for_user_id}
use kweb.Users.Accounts.{
  LinkedAccount, UserObject, Directory, has_account, find_user, ensure_namespace, create_user,
  map_to_user,
}
use kweb.Users.Accounts.Stable.{Faithful, map_to_user-Stable}

-- The cluster is the list of its users; the namespace is created on every sign-up.
abbrev directory : Directory (List UserObject)
directory = record {
  list = λ ns c. ok c;
  create = λ u c. (ok tt, u ∷ c);
  get_namespace = λ n c. err not_found;
  create_namespace = λ n c. (ok tt, c);
}

directory-Faithful : Faithful directory
directory-Faithful = record {
  namespace_created = λ n ns c. refl;
  user_created = λ u ns users c c' made listed found.
      let same : c ≡ users = cc found in
      ([], users, ap (λ x. ok x) (sym (ap (λ x. x.1) made) ∙ ap (λ x. u ∷ x) same), refl);
}

abbrev mapper : NamespaceMapper
mapper = single_namespace (codes "users")

abbrev account : LinkedAccount
account = record {
  provider_id = codes "github";
  provider_user_id = codes "17";
  provider_user_name = codes "ann";
}

abbrev other : UserObject
other = record {
  namespace = codes "users";
  name = codes "u1";
  profile = [];
  linked_accounts =
      record {
        provider_id = codes "google";
        provider_user_id = codes "17";
        provider_user_name = codes "bob";
      }
      ∷ [];
}

abbrev signed_up : UserObject
signed_up = record {
  namespace = codes "users";
  name = codes "u2";
  profile = codes "Ann";
  linked_accounts = account ∷ [];
}

sign_up :
    map_to_user directory mapper account (ok (codes "Ann", [])) (codes "u2") (other ∷ [])
    ≡ (ok signed_up, signed_up ∷ other ∷ [])
unfolding map_to_user find_user has_account create_user ensure_namespace namespace_for_user_id
    text_eq
sign_up = refl

map_to_user-Stable_example :
    (has_account (codes "github") (codes "17") (account ∷ []) ≡ true)
    × ((spec' : Result Text (Text × List LinkedAccount)) (id' : Text)
        → map_to_user directory mapper account spec' id' (signed_up ∷ other ∷ [])
          ≡ (ok signed_up, signed_up ∷ other ∷ []))
map_to_user-Stable_example =
    map_to_user-Stable directory mapper directory-Faithful account signed_up (other ∷ [])
      (signed_up ∷ other ∷ []) (ok (codes "Ann", [])) (codes "u2") sign_up
