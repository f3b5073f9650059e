-- ===== src/Users/Current.antt =====
-- components/users/cookie.go, and of component.go the filter, SetUser, GetUser and the namespaces.
-- The read of a user from the Kubernetes API and the message UserSessionInfo are parameters.
pub mod Laws
use kweb.Base.{
  Bool, if◌then◌else◌, Option, none, some, [], ◌++◌, Text, text_eq, Result, ok, err, ◌>>=◌,
}
use kweb.Components.Response.{nil}
use kweb.Components.Serve.{Handler, Filter}
use kweb.Sessions.Session.{Session, Message, set, get, clear}
use kweb.Sessions.Context.{Context, with_session, with_rest, Error}

-- `namespace` of the single mapper, or the prefix of one namespace for each user.
pub data NamespaceMapper : Type 0 where
  single_namespace : Text → NamespaceMapper
  namespace_per_user : Text → NamespaceMapper

unfoldable pub namespace_for_user_id : NamespaceMapper → Text → Text
namespace_for_user_id (single_namespace ns) id = ns
namespace_for_user_id (namespace_per_user prefix) id = prefix ++ id

-- A user object, with what nothing here reads of it.
pub record User : Type 0 where
  pub name : Text
  pub spec : Text

-- UserSessionInfo is the text of its one field. `get_object` reads an object by namespace and name.
pub record Library (S : Type 0) : Type 0 where
  pub session_info : Message Text
  pub get_object : Text → Text → S → Result Error User
  pub mapper : NamespaceMapper

module _ {S : Type 0} (lib : Library S) where
  unfoldable pub load_user : Text → S → Result Error (Option User)
  unfolding namespace_for_user_id
  load_user id s =
      if text_eq id []
      then ok none
      else (lib.get_object (namespace_for_user_id lib.mapper id) id s >>= λ u. ok (some u))

  -- The result of `Get` is not looked at.
  unfoldable pub user_from_session : Session → S → Result Error (Option User)
  unfolding load_user
  user_from_session session s =
      let id = (get lib.session_info [] session).0 in
      if text_eq id [] then ok none else load_user id s

  unfoldable pub store_user : Option User → Session → Session
  store_user none session = clear lib.session_info session
  store_user (some u) session = set lib.session_info u.name session

-- The rest of the context starts with the current user.
abbrev pub UserContext : Type 0 → Type 0 → Type 0
UserContext S Y = Context S (Option User × Y)

unfoldable pub get_user : {S Y : Type 0} → UserContext S Y → Option User
get_user w = w.rest.0

module _ {S Y : Type 0} (lib : Library S) where
  unfoldable pub set_user : Option User → UserContext S Y → UserContext S Y
  unfolding store_user
  set_user user w = with_session (store_user lib user w.session) (with_rest (user, w.rest.1) w)

  unfoldable pub logout : UserContext S Y → UserContext S Y
  logout w = set_user none w

  unfoldable pub process_request : Filter Error (UserContext S Y)
  unfolding user_from_session
  process_request next req w = elim (user_from_session lib w.session w.store) [
    | err e ↦ ((nil, some e), w)
    | ok user ↦ next req (with_rest (user, w.rest.1) w)
  ]
