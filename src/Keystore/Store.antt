-- ===== src/Keystore/Store.antt =====
-- components/keystore/kubernetes.go: KubernetesKeyStore. The API server is a parameter.
use kweb.Base.{
  ℕ, Bool, true, false, if◌then◌else◌, Option, none, some, List, [], Text, Result, ok, err,
}
use kweb.Base.Dict.{Dict, lookup}
use kweb.Base.Integers.{ℤ, int_leb, parse_int64}
use kweb.Sessions.Kube.{ApiError, not_found, api_failed}
use kweb.Keystore.Keys.{
  KeyType, secretbox, KeyError, fetch_failed, write_failed, key_not_found, Library,
}
use kweb.Keystore.KeySet.{KeySet, find}
use kweb.Keystore.Secret.{Secret, decode_secret, ensure_in_secret}

-- What a watch reports.
pub data Event : Type 0 where
  bookmark : Event
  added : Secret → Event
  modified : Secret → Event
  deleted : Secret → Event
  watch_error : Event
  unknown_event : Event

-- How a watch ends, when it is not that the list of its events does.
pub data WatchError : Type 0 where
  list_failed : Text → WatchError
  watch_failed : Text → WatchError
  unexpected_object : Text → WatchError
  error_reported : WatchError
  unknown_reported : WatchError
  channel_closed : WatchError

-- The calls on the one secret of the store, on the state `C` of the cluster. What a watch reports
-- until its channel is closed is a list.
pub record Client (C : Type 0) : Type 0 where
  pub get : C → Result ApiError Secret
  pub create : Secret → C → Result Text Secret × C
  pub update : Secret → C → Result Text Secret × C
  pub list : C → Result Text (List Secret)
  pub watch : C → Result Text (List Event)

pub record Store (P C : Type 0) : Type 0 where
  pub key_sets : Dict (KeySet P)
  pub resource_version : ℤ
  pub cluster : C
  pub drawn : ℕ

module _ {P : Type 0} where
  abbrev pub has_active : KeySet P → Bool
  has_active ks = elim (find ks.set_data.active_id ks.versions) [ none ↦ false | some _ ↦ true ]

module _ {P C : Type 0} where
  -- The key set of a name, if it has an active key.
  unfoldable pub usable : Text → Store P C → Option (KeySet P)
  usable name st = elim (lookup name st.key_sets) [
    | none ↦ none
    | some ks ↦ if has_active ks then some ks else none
  ]

  abbrev pub with_sets : Dict (KeySet P) → ℤ → Store P C → Store P C
  with_sets sets version st = record {
    key_sets = sets;
    resource_version = version;
    cluster = st.cluster;
    drawn = st.drawn;
  }

  -- The key sets replaced, unless the version is a number that is not newer.
  unfoldable pub replace : ℤ × Bool → Dict (KeySet P) → Store P C → Store P C
  replace (version, false) sets st = with_sets sets version st
  replace (version, true) sets st =
      if int_leb version st.resource_version then st else with_sets sets version st

module _ {P C : Type 0} (lib : Library P) where
  unfoldable pub on_update_secret : Secret → Store P C → Store P C
  unfolding replace
  on_update_secret s st = replace (parse_int64 s.version) (decode_secret lib s.contents) st

  unfoldable pub on_delete_secret : Text → Store P C → Store P C
  unfolding replace
  on_delete_secret version st = replace (parse_int64 version) [] st

module _ {P C : Type 0} (lib : Library P) (own_name : Text) (client : Client C) where
  abbrev pub Outcome : Type 0 → Type 0
  Outcome A = Result KeyError A × Store P C

  -- The answer of a create or an update.
  unfoldable pub finish : ℕ → Store P C → Result Text Secret × C → Outcome (Unit {0})
  unfolding on_update_secret
  finish n st (err e, c) = (
    err (write_failed e),
    record {
      key_sets = st.key_sets;
      resource_version = st.resource_version;
      cluster = c;
      drawn = n;
    },
  )
  finish n st (ok s, c) = (
    ok tt,
    on_update_secret lib s record {
      key_sets = st.key_sets;
      resource_version = st.resource_version;
      cluster = c;
      drawn = n;
    },
  )

  abbrev pub drew : ℕ → Store P C → Store P C
  drew n st = record {
    key_sets = st.key_sets;
    resource_version = st.resource_version;
    cluster = st.cluster;
    drawn = n;
  }

  unfoldable pub write_changed :
      (write : Secret → C → Result Text Secret × C)
      → Store P C
      → Result KeyError Secret × ℕ
      → Outcome (Unit {0})
  unfolding finish
  write_changed write st (err e, n) = (err e, drew n st)
  write_changed write st (ok s, n) = finish n st (write s st.cluster)

  unfoldable pub mutate_secret :
      (Secret → ℕ → Result KeyError Secret × ℕ) → Store P C → Outcome (Unit {0})
  unfolding write_changed
  mutate_secret mutator st = elim (client.get st.cluster) [
    | err (api_failed e) ↦ (err (fetch_failed e), st)
    | err not_found ↦
        write_changed client.create st
          (mutator (record { name = own_name; contents = []; version = [] }) st.drawn)
    | ok s ↦ write_changed client.update st (mutator s st.drawn)
  ]

  unfoldable pub ensure_key_set : Text → KeyType → Store P C → Outcome (Unit {0})
  unfolding mutate_secret
  ensure_key_set name key_type st = mutate_secret (ensure_in_secret lib name key_type) st

  -- The end of `KeySet`, behind `ensureKeySet`.
  unfoldable pub found_set : Text → Outcome (Unit {0}) → Outcome (KeySet P)
  unfolding usable
  found_set name (err e, st) = (err e, st)
  found_set name (ok _, st) = elim (usable name st) [
    | none ↦ (err key_not_found, st)
    | some ks ↦ (ok ks, st)
  ]

  -- `KeySet`
  unfoldable pub key_set : Text → KeyType → Store P C → Outcome (KeySet P)
  unfolding ensure_key_set found_set
  key_set name key_type st = elim (usable name st) [
    | some ks ↦ (ok ks, st)
    | none ↦ found_set name (ensure_key_set name key_type st)
  ]

  -- `ensureKeyset`, which makes a secretbox key if the name has no key set.
  unfoldable pub found_any : Text → Outcome (Unit {0}) → Outcome (KeySet P)
  found_any name (err e, st) = (err e, st)
  found_any name (ok _, st) = elim (lookup name st.key_sets) [
    | none ↦ (err key_not_found, st)
    | some ks ↦ (ok ks, st)
  ]

  unfoldable pub ensure_keyset : Text → Store P C → Outcome (KeySet P)
  unfolding ensure_key_set found_any
  ensure_keyset name st = elim (lookup name st.key_sets) [
    | some ks ↦ (ok ks, st)
    | none ↦ found_any name (ensure_key_set name secretbox st)
  ]
