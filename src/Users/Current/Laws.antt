-- ===== src/Users/Current/Laws.antt =====
-- components/users: who the user of a request is behind SetUser and Logout.
use kweb.Base.{
  true, if◌then◌else◌, none, some, [], text_eq, text_eq-false, ok, ◌≡◌, ◌≢◌, refl, ap, ◌∙◌,
}
use kweb.Components.Request.{Request}
use kweb.Components.Serve.{Handler}
use kweb.Sessions.Session.{Session}
use kweb.Sessions.Session.Laws.{get-set, get-clear}
use kweb.Sessions.Context.{with_rest, Error}
use kweb.Users.Current.{
  User, Library, UserContext, namespace_for_user_id, get_user, load_user, user_from_session,
  store_user, set_user, logout, process_request,
}

module _ {S : Type 0} (lib : Library S) where
  -- The user behind a session that names it.
  signed_in :
      (u v : User) (session : Session) (s : S)
      → lib.session_info.unmarshal (lib.session_info.marshal u.name) ≡ (u.name, true)
      → u.name ≢ []
      → lib.get_object (namespace_for_user_id lib.mapper u.name) u.name s ≡ ok v
      → user_from_session lib (store_user lib (some u) session) s ≡ ok (some v)
  unfolding user_from_session load_user store_user
  signed_in u v session s back ne found =
      let e = get-set lib.session_info u.name [] session ∙ back in
      ap (λ r. if text_eq r.0 [] then ok none else load_user lib r.0 s) e ∙ loaded
    where
      loaded : (if text_eq u.name [] then ok none else load_user lib u.name s) ≡ ok (some v)
      loaded = rw (text_eq-false u.name [] ne, found) refl

  signed_out :
      (session : Session) (s : S) → user_from_session lib (store_user lib none session) s ≡ ok none
  unfolding user_from_session store_user text_eq
  signed_out session s =
      ap (λ r. if text_eq r.0 [] then ok none else load_user lib r.0 s)
        (get-clear lib.session_info [] session)

module _ {S Y : Type 0} (lib : Library S) where
  -- If the session's message of a user's name can be read back, the name is not empty and the API
  -- has an object for it, then behind SetUser the user is the current one, and a request with that
  -- session is handled with the object as its user; behind Logout there is no current user, and a
  -- request with that session is handled without one.
  pub set_user_lem :
      (next : Handler Error (UserContext S Y)) (req : Request) (w : UserContext S Y) (u v : User)
      → lib.session_info.unmarshal (lib.session_info.marshal u.name) ≡ (u.name, true)
      → u.name ≢ []
      → lib.get_object (namespace_for_user_id lib.mapper u.name) u.name w.store ≡ ok v
      → (get_user (set_user lib (some u) w) ≡ some u)
        × (process_request lib next req (set_user lib (some u) w)
            ≡ next req (with_rest (some v, w.rest.1) (set_user lib (some u) w)))
        × (get_user (logout lib w) ≡ none)
        × (process_request lib next req (logout lib w)
            ≡ next req (with_rest (none, w.rest.1) (logout lib w)))
  unfolding get_user set_user logout process_request
  set_user_lem next req w u v back ne found = (
    refl,
    simp (process_request, signed_in lib u v w.session w.store back ne found),
    refl,
    simp (process_request, signed_out lib w.session w.store),
  )
