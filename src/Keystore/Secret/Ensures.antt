-- ===== src/Keystore/Secret/Ensures.antt =====
-- components/keystore/kubernetes.go: a key set that ensureKeySet stores has an active key.
use kweb.Base.{
  ℕ, suc, Option, none, some, Option-cases, [], ◌∷◌, Text, All, Result-cases, ok, ◌>>=◌, >>=-eq-ok,
  ◌++◌, codes, ◌≡◌, refl, ap, subst, inl, inr,
}
use kweb.Base.Dict.{Dict, lookup, insert, lookup-insert_self}
use kweb.Base.Integers.{ℤ}
use kweb.Keystore.Keys.{
  KeyType, secretbox, rsa, KeySetData, Library, InternalKey, secretbox_key, rsa_key, id_of, load_of,
  load_rsa_key, generate, generate_secretbox_key, generate_rsa_key, read_crypto_rand,
}
use kweb.Keystore.KeySet.{KeySet, find}
use kweb.Keystore.Secret.{
  Secret, erase_prefix, entry_name, entry_key, add_entry, sort_ids, ids_of, load_versions,
  decode_entry, decode_secret, known_set, next_id, with_key, ensure_active, store_set,
  store_ensured, ensure_in_secret,
}
use kweb.Keystore.Secret.Reads.{Undotted, lookup-decode_secret}
use kweb.Keystore.Secret.Loaded.{
  Has, Has-put_self, lookup-All, insert-All, Loads, Sound, find-Sound, put-Sound,
  load_versions-Sound, load_versions-Mem,
}
use kweb.Keystore.Secret.Collected.{sort_ids-All, sort_ids-Mem, ids_of-Has, Has-ids_of, collect_lem}

-- The data of a new RSA key is read back, and so is a message; every key set has a message.
pub record KeyLaws {P : Type 0} (lib : Library P) : Type 0 where
  pub parse-marshal : (key : P) → lib.parse_private_key (lib.marshal_private_key key) ≡ some key
  pub marshal : (d : KeySetData) → (b : Text) × (lib.marshal_key_set d ≡ ok b)
  pub unmarshal-marshal :
      (d : KeySetData) (b : Text) → lib.marshal_key_set d ≡ ok b → lib.unmarshal_key_set b ≡ some d

module _ {P : Type 0} (lib : Library P) where
  add_entry-Sound :
      (o : Option Text) (v : Text) (sets : Dict (KeySet P))
      → All (λ e. Sound lib e.1.versions) sets
      → All (λ e. Sound lib e.1.versions) (add_entry lib o v sets)
  unfolding add_entry decode_entry
  add_entry-Sound none v sets hs = hs
  add_entry-Sound (some n) v sets hs = elim (Option-cases (lib.unmarshal_key_set v)) [
    | inl e ↦ rw (add_entry, decode_entry, e) hs
    | inr (d, e) ↦
        rw (add_entry, decode_entry, e)
          (insert-All (λ ks. Sound lib ks.versions) sets n _ (load_versions-Sound lib [] d.keys tt)
            hs)
  ]

  decode_secret-Sound : (m : Dict Text) → All (λ e. Sound lib e.1.versions) (decode_secret lib m)
  unfolding decode_secret
  decode_secret-Sound [] = tt
  decode_secret-Sound ((k, v) ∷ m) =
      add_entry-Sound (entry_name k) v (decode_secret lib m) (decode_secret-Sound m)

  known_set-Sound :
      (name : Text) (m : Dict Text) → Sound lib (known_set lib name (decode_secret lib m)).versions
  known_set-Sound name m = elim (Option-cases (lookup name (decode_secret lib m))) [
    | inl e ↦ rw (known_set, e) tt
    | inr (ks, e) ↦
        rw (known_set, e)
          (lookup-All (λ k. Sound lib k.versions) (decode_secret lib m) name ks
            (decode_secret-Sound m) e)
  ]

  module _ (laws : KeyLaws lib) where
    generate-Loads :
        (t : KeyType) (id : ℤ) (drawn : ℕ) (key : InternalKey P)
        → generate lib t id drawn ≡ ok key
        → Loads lib key
    unfolding generate generate_secretbox_key generate_rsa_key read_crypto_rand load_of load_rsa_key
    generate-Loads secretbox id drawn key h = elim (Result-cases (lib.random drawn 32)) [
      | inr (e, k) ↦ cc (rw (generate, generate_secretbox_key, read_crypto_rand, k) at h)
      | inl (b, k) ↦
          let same : secretbox_key
                record { id = id; secret = b; created = lib.now drawn; key_type = secretbox } b
              ≡ key =
            cc (rw (generate, generate_secretbox_key, read_crypto_rand, k) at h) in
          subst (Loads lib) same refl
    ]
    generate-Loads rsa id drawn key h = elim (Result-cases (lib.generate_key drawn)) [
      | inr (e, k) ↦ cc (rw (generate, generate_rsa_key, k) at h)
      | inl (p, k) ↦
          let same : rsa_key
                record {
                  id = id;
                  secret = lib.marshal_private_key p;
                  created = lib.now drawn;
                  key_type = rsa;
                }
                p
              ≡ key =
            cc (rw (generate, generate_rsa_key, k) at h) in
          subst (Loads lib) same (rw (load_of, load_rsa_key, laws.parse-marshal p) refl)
    ]
    generate-Loads _ id drawn key h = cc

    -- An active key is found, and all versions are loaded from their data.
    abbrev pub Ready : KeySet P → Type 0
    Ready ks = Sound lib ks.versions × Has ks.set_data.active_id ks.versions

    ensure_active-Ready :
        (t : KeyType) (ks ks' : KeySet P) (drawn n : ℕ)
        → Sound lib ks.versions
        → ensure_active lib t ks drawn ≡ (ok ks', n)
        → Ready ks'
    unfolding ensure_active
    ensure_active-Ready t ks ks' drawn n hs h =
        elim (Option-cases (find ks.set_data.active_id ks.versions)) [
          | inr (key, e) ↦
              let same : ks ≡ ks' = cc (ap (λ x. x.0) (rw (ensure_active, e) at h)) in
              subst Ready same (hs, (key, e))
          | inl e ↦
              let made : (generate lib t (next_id lib ks) drawn >>= λ key. ok (with_key lib ks key))
                  ≡ ok ks' =
                ap (λ x. x.0) (rw (ensure_active, e) at h) in
              let (key, hg, hk) = >>=-eq-ok (generate lib t (next_id lib ks) drawn) _ made in
              let same : with_key lib ks key ≡ ks' = cc hk in
              subst Ready same (
                put-Sound lib key ks.versions (generate-Loads t (next_id lib ks) drawn key hg) hs,
                (key, Has-put_self (id_of key) key ks.versions),
              )
        ]

    -- The key set that is stored is read back under its name with an active key.
    store_set_lem :
        (name : Text) (s : Secret) (ks : KeySet P)
        → Undotted name
        → Ready ks
        → (s' : Secret) × (ks' : KeySet P) × (store_set lib name s ks ≡ ok s')
          × (lookup name (decode_secret lib s'.contents) ≡ some ks')
          × Has ks'.set_data.active_id ks'.versions
    unfolding store_set decode_entry
    store_set_lem name s ks hn (hs, ha) =
        let (ds, hc, all_in) = collect_lem lib ks.versions (sort_ids (ids_of ks.versions)) (
          sort_ids-All (λ id. Has id ks.versions) (ids_of ks.versions)
            (ids_of-Has lib ks.versions ks.versions hs (λ id h. h))) in
        let d : KeySetData = record { keys = ds; active_id = ks.set_data.active_id } in
        let (b, hb) = laws.marshal d in
        let (key, hk) = ha in
        let (same, loads) = find-Sound lib ks.set_data.active_id ks.versions key hs hk in
        let s' : Secret = record {
          name = s.name;
          contents =
              insert (entry_key name) b
                (erase_prefix (codes "secret." ++ (ks.name ++ codes ".")) s.contents);
          version = s.version;
        } in
        let ks' : KeySet P = record {
          name = name;
          set_data = d;
          versions = load_versions lib [] ds;
        } in
        (
          s',
          ks',
          rw (store_set, hc, hb) refl,
          lookup-decode_secret lib name b ks' s'.contents hn
              (lookup-insert_self (entry_key name) b _)
              (rw (decode_entry, laws.unmarshal-marshal d b hb) refl),
          subst (λ x. Has x (load_versions lib [] ds)) same
              (load_versions-Mem lib key ds [] loads (
                all_in ks.set_data.active_id key
                  (sort_ids-Mem _ _ (Has-ids_of lib ks.set_data.active_id ks.versions hs ha)) hk)),
        )

    ensure_active_lem :
        (t : KeyType) (ks : KeySet P) (drawn : ℕ)
        → ((id : ℤ) → (key : InternalKey P) × (generate lib t id drawn ≡ ok key))
        → (ks' : KeySet P) × (n : ℕ) × (ensure_active lib t ks drawn ≡ (ok ks', n))
    unfolding ensure_active
    ensure_active_lem t ks drawn draw =
        elim (Option-cases (find ks.set_data.active_id ks.versions)) [
          | inr (key, e) ↦ (ks, drawn, rw (ensure_active, e) refl)
          | inl e ↦
              let (key, h) = draw (next_id lib ks) in
              (with_key lib ks key, suc drawn, rw (ensure_active, e, h) refl)
        ]

    -- If a key is made when one is wanted, the changed secret has a key set with an active key.
    pub ensure_in_secret_lem :
        (name : Text) (t : KeyType) (s : Secret) (drawn : ℕ)
        → Undotted name
        → ((id : ℤ) → (key : InternalKey P) × (generate lib t id drawn ≡ ok key))
        → (s' : Secret) × (n : ℕ) × (ks : KeySet P) × (ensure_in_secret lib name t s drawn
            ≡ (ok s', n))
          × (lookup name (decode_secret lib s'.contents) ≡ some ks)
          × Has ks.set_data.active_id ks.versions
    unfolding ensure_in_secret store_ensured
    ensure_in_secret_lem name t s drawn hn draw =
        let known : KeySet P = known_set lib name (decode_secret lib s.contents) in
        let (ks, n, he) = ensure_active_lem t known drawn draw in
        let ready = ensure_active-Ready t known ks drawn n (known_set-Sound name s.contents) he in
        let (s', ks', hs, hl, ha) = store_set_lem name s ks hn ready in
        (s', n, ks', rw (ensure_in_secret, he, store_ensured, hs) refl, hl, ha)
