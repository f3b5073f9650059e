-- ===== src/Keystore/Secret.antt =====
-- components/keystore/kubernetes.go: the key sets of a Kubernetes secret, read by decodeSecret and
-- changed by ensureKeySet.
pub mod Reads
pub mod Loaded
pub mod Collected
pub mod Ensures
use kweb.Base.{
  ℕ, suc, Bool, true, false, not, if◌then◌else◌, Option, none, some, List, [], ◌∷◌, ◌++◌, Text,
  codes, text_eq, Result, ok, err, ◌>>=◌,
}
use kweb.Base.Dict.{Dict, lookup, insert}
use kweb.Base.Strings.{has_prefix, split}
use kweb.Base.Integers.{ℤ, pos, int_leb, int_eq, int32_suc}
use kweb.Keystore.Keys.{
  KeyType, KeyData, KeySetData, KeyError, marshal_failed, nil_dereference, Library, InternalKey,
  id_of, data_of, load, generate,
}
use kweb.Keystore.KeySet.{Versions, KeySet, find, put}

pub record Secret : Type 0 where
  pub name : Text
  pub contents : Dict Text
  pub version : Text

-- The tokens of an entry that holds a key set.
unfoldable pub name_of_tokens : List Text → Option Text
name_of_tokens (a ∷ name ∷ []) = if text_eq a (codes "secret") then some name else none
name_of_tokens _ = none

-- The name of the key set that an entry holds.
unfoldable pub entry_name : Text → Option Text
unfolding name_of_tokens
entry_name key = name_of_tokens (split 46 key)

-- The entry of a key set.
abbrev pub entry_key : Text → Text
entry_key name = codes "secret." ++ name

unfoldable pub erase_prefix : Text → Dict Text → Dict Text
erase_prefix prefix [] = []
erase_prefix prefix ((k, v) ∷ m) =
    let rest = erase_prefix prefix m in if has_prefix k prefix then rest else (k, v) ∷ rest

unfoldable pub insert_id : ℤ → List ℤ → List ℤ
insert_id x [] = x ∷ []
insert_id x (y ∷ ys) = let rest = insert_id x ys in if int_leb x y then x ∷ y ∷ ys else y ∷ rest

unfoldable pub sort_ids : List ℤ → List ℤ
unfolding insert_id
sort_ids [] = []
sort_ids (x ∷ xs) = insert_id x (sort_ids xs)

module _ {P : Type 0} where
  -- The loop for the largest ID, from the largest so far.
  unfoldable pub max_id : ℤ → Versions P → ℤ
  max_id most [] = most
  max_id most ((i, _) ∷ vs) = max_id (if int_leb i most then most else i) vs

  unfoldable pub ids_of : Versions P → List ℤ
  ids_of [] = []
  ids_of ((_, key) ∷ vs) = id_of key ∷ ids_of vs

  -- The data of the versions; for an ID without a version the method is called on nil.
  unfoldable pub collect : Versions P → List ℤ → Result KeyError (List KeyData)
  collect vs [] = ok []
  collect vs (id ∷ ids) = elim (find id vs) [
    | none ↦ err nil_dereference
    | some key ↦ (collect vs ids >>= λ ds. ok (data_of key ∷ ds))
  ]

module _ {P : Type 0} (lib : Library P) where
  unfoldable pub load_versions : Versions P → List KeyData → Versions P
  load_versions vs [] = vs
  load_versions vs (d ∷ ds) =
      load_versions (elim (load lib d) [ none ↦ vs | some key ↦ put (id_of key) key vs ]) ds

  unfoldable pub decode_entry : Text → Text → Option (KeySet P)
  unfolding load_versions
  decode_entry name value = elim (lib.unmarshal_key_set value) [
    | none ↦ none
    | some d ↦ some record { name = name; set_data = d; versions = load_versions [] d.keys }
  ]

  -- One entry of a secret added to the key sets of the others.
  unfoldable pub add_entry : Option Text → Text → Dict (KeySet P) → Dict (KeySet P)
  unfolding decode_entry
  add_entry none value sets = sets
  add_entry (some name) value sets = elim (decode_entry name value) [
    | none ↦ sets
    | some ks ↦ insert name ks sets
  ]

  -- `decodeSecret`; no two entries of a map have a name in common, so their order does not matter.
  unfoldable pub decode_secret : Dict Text → Dict (KeySet P)
  unfolding entry_name add_entry
  decode_secret [] = []
  decode_secret ((k, v) ∷ m) = add_entry (entry_name k) v (decode_secret m)

  abbrev pub fresh_set : Text → KeySet P
  fresh_set name = record {
    name = name;
    set_data = record { keys = []; active_id = pos 0 };
    versions = [];
  }

  abbrev pub known_set : Text → Dict (KeySet P) → KeySet P
  known_set name sets = elim (lookup name sets) [ none ↦ fresh_set name | some ks ↦ ks ]

  abbrev pub next_id : KeySet P → ℤ
  next_id ks = int32_suc (max_id (pos 0) ks.versions)

  abbrev pub with_key : KeySet P → InternalKey P → KeySet P
  with_key ks key = record {
    name = ks.name;
    set_data = record { keys = ks.set_data.keys; active_id = id_of key };
    versions = put (id_of key) key ks.versions;
  }

  -- A key set without an active key is given a new one; the number of draws is the second result.
  unfoldable pub ensure_active : KeyType → KeySet P → ℕ → Result KeyError (KeySet P) × ℕ
  unfolding max_id
  ensure_active key_type ks drawn = elim (find ks.set_data.active_id ks.versions) [
    | some _ ↦ (ok ks, drawn)
    | none ↦ (generate lib key_type (next_id ks) drawn >>= λ key. ok (with_key ks key), suc drawn)
  ]

  -- The secret with the entries of a name replaced by a key set.
  unfoldable pub store_set : Text → Secret → KeySet P → Result KeyError Secret
  unfolding collect ids_of sort_ids erase_prefix
  store_set name s ks = collect ks.versions (sort_ids (ids_of ks.versions)) >>= λ ds.
      elim (lib.marshal_key_set record { keys = ds; active_id = ks.set_data.active_id }) [
        | err e ↦ err (marshal_failed e)
        | ok b ↦ ok record {
          name = s.name;
          contents =
              insert (entry_key name) b
                (erase_prefix (codes "secret." ++ (ks.name ++ codes ".")) s.contents);
          version = s.version;
        }
      ]

  unfoldable pub store_ensured :
      Text → Secret → Result KeyError (KeySet P) × ℕ → Result KeyError Secret × ℕ
  unfolding store_set
  store_ensured name s (err e, n) = (err e, n)
  store_ensured name s (ok ks, n) = (store_set name s ks, n)

  -- The function that `ensureKeySet` gives to `mutateSecret`.
  unfoldable pub ensure_in_secret : Text → KeyType → Secret → ℕ → Result KeyError Secret × ℕ
  unfolding decode_secret ensure_active store_ensured
  ensure_in_secret name key_type s drawn =
      store_ensured name s
        (ensure_active key_type (known_set name (decode_secret s.contents)) drawn)
