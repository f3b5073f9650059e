-- ===== src/Sessions/Kube.antt =====
-- components/sessions/kubesessionstorage/storage.go. The Kubernetes API server and the IDs that
-- GenerateSessionID draws are parameters.
pub mod Laws
mod Tests
use kweb.Base.{ℕ, suc, Option, none, some, if◌then◌else◌, [], Text, text_eq, Result, ok, err, ◌>>=◌}
use kweb.Sessions.Session.{Session}
use kweb.Sessions.Codec.{Library, encode, decode}
use kweb.Sessions.Storage.{Storage}

pub data ApiError : Type 0 where
  not_found : ApiError
  api_failed : Text → ApiError

-- A Session object in the namespace "sessions", with the version that the server keeps.
pub record Object : Type 0 where
  pub name : Text
  pub bytes : Text
  pub version : Text

-- The calls of the uncached client on the state `C` of the cluster.
pub record Client (C : Type 0) : Type 0 where
  pub get : Text → C → Result ApiError Object
  pub create : Object → C → Result ApiError (Unit {0}) × C
  pub update : Object → C → Result ApiError (Unit {0}) × C

pub record State (C : Type 0) : Type 0 where
  pub cluster : C
  pub drawn : ℕ

unfoldable pub error_text : ApiError → Text
error_text not_found = []
error_text (api_failed e) = e

module _ (lib : Library) (random : ℕ → Text) {C : Type 0} (client : Client C) where
  abbrev pub Written : Type 0
  Written = Result Text (Unit {0}) × Session × State C

  -- An uncached read finds an object or its absence, or fails.
  unfoldable pub lookup_session : Text → State C → Result Text (Option Session)
  unfolding error_text
  lookup_session id st = if text_eq id [] then ok none else elim (client.get id st.cluster) [
    | err not_found ↦ ok none
    | err (api_failed e) ↦ err e
    | ok obj ↦ (decode lib id obj.bytes >>= λ s. ok (some s))
  ]

  -- The answer of a create or an update.
  unfoldable pub finish : Session → ℕ → Result ApiError (Unit {0}) × C → Written
  unfolding error_text
  finish s n (err e, c) = (err (error_text e), s, record { cluster = c; drawn = n })
  finish s n (ok _, c) = (ok tt, s, record { cluster = c; drawn = n })

  unfoldable pub write_new : Session → State C → Written
  unfolding finish
  write_new s st = elim (encode lib s) [
    | err e ↦ (err e, s, st)
    | ok b ↦
        finish s st.drawn
          (client.create (record { name = s.id; bytes = b; version = [] }) st.cluster)
  ]

  unfoldable pub update_object : Session → State C → Text → Result ApiError Object → Written
  unfolding finish error_text
  update_object s st b (err e) = (err (error_text e), s, st)
  update_object s st b (ok obj) =
      finish s st.drawn
        (client.update (record { name = obj.name; bytes = b; version = obj.version }) st.cluster)

  unfoldable pub write_known : Session → State C → Written
  unfolding update_object
  write_known s st = elim (encode lib s) [
    | err e ↦ (err e, s, st)
    | ok b ↦ update_object s st b (client.get s.id st.cluster)
  ]

  unfoldable pub write_session : Session → State C → Written
  unfolding write_new write_known
  write_session s st =
      if text_eq s.id []
      then write_new
          record {
            id = random st.drawn;
            new_session = s.new_session;
            dirty = s.dirty;
            values = s.values;
          }
          record { cluster = st.cluster; drawn = suc st.drawn }
      else write_known s st

  abbrev pub storage : Storage (State C)
  storage = record { lookup_session = lookup_session; write_session = write_session }
