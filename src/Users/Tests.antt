-- ===== src/Users/Tests.antt =====
-- A sign-in and a sign-out with a concrete user.
use kweb.Base.{ℕ, true, none, some, [], codes, ok, ◌≡◌, ◌≢◌, refl}
use kweb.Components.Response.{nil}
use kweb.Components.Serve.{Handler}
use kweb.Sessions.Context.{with_rest, Error}
use kweb.Sessions.Filter.{fresh_session}
use kweb.Sessions.Tests.{get_page}
use kweb.Users.Current.{
  User, Library, single_namespace, UserContext, namespace_for_user_id, get_user, set_user, logout,
  process_request,
}
use kweb.Users.Current.Laws.{set_user_lem}

abbrev ann : User
ann = record { name = codes "ann"; spec = [] }

abbrev lib : Library ℕ
lib = record {
  session_info = record { full_name = codes "info"; marshal = λ t. t; unmarshal = λ t. (t, true) };
  get_object = λ namespace name s. ok record { name = name; spec = namespace };
  mapper = single_namespace (codes "users");
}

abbrev start : UserContext ℕ ℕ
start = record { session = fresh_session; store = 0; set_cookies = []; rest = (none, 0) }

abbrev answer : Handler Error (UserContext ℕ ℕ)
answer req w = ((nil, none), w)

abbrev loaded : User
loaded = record { name = codes "ann"; spec = codes "users" }

ann_named : ann.name ≢ []
ann_named h = cc

found : lib.get_object (namespace_for_user_id lib.mapper ann.name) ann.name start.store ≡ ok loaded
unfolding namespace_for_user_id
found = refl

set_user_lem_example :
    (get_user (set_user lib (some ann) start) ≡ some ann)
    × (process_request lib answer get_page (set_user lib (some ann) start)
        ≡ answer get_page (with_rest (some loaded, 0) (set_user lib (some ann) start)))
    × (get_user (logout lib start) ≡ none)
    × (process_request lib answer get_page (logout lib start)
        ≡ answer get_page (with_rest (none, 0) (logout lib start)))
set_user_lem_example = set_user_lem lib answer get_page start ann loaded refl ann_named found
