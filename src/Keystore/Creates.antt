-- ===== src/Keystore/Creates.antt =====
-- components/keystore/kubernetes.go: for which names KeySet gives a key set that can be used.
use kweb.Base.{
  ℕ, true, false, some, Option-cases, [], Text, Result, ok, err, ◌≡◌, ◌⊎◌, inl, inr, refl, sym,
  subst,
}
use kweb.Base.Dict.{lookup}
use kweb.Base.Integers.{ℤ, int_leb, parse_int64}
use kweb.Sessions.Kube.{not_found}
use kweb.Keystore.Keys.{KeyType, Library, InternalKey, generate}
use kweb.Keystore.KeySet.{KeySet, find, active_key}
use kweb.Keystore.Secret.{Secret, decode_secret}
use kweb.Keystore.Secret.Reads.{Undotted}
use kweb.Keystore.Secret.Loaded.{Has}
use kweb.Keystore.Secret.Ensures.{KeyLaws, ensure_in_secret_lem}
use kweb.Keystore.Store.{
  Client, Store, has_active, usable, replace, on_update_secret, finish, write_changed,
  mutate_secret, ensure_key_set, found_set, key_set,
}

-- The answer to a write: the secret as it was sent, at a version that is a number above `v`.
abbrev pub Stored : {C : Type 0} → ℤ → Secret → Result Text Secret × C → Type 0
Stored {C} v s answer =
    (s' : Secret) × (c : C) × (n : ℤ) × (answer ≡ (ok s', c))
    × (s'.contents ≡ s.contents)
    × (parse_int64 s'.version ≡ (n, true))
    × (int_leb n v ≡ false)

-- The API server answers, and a write is stored at a version above `v`.
pub record Answers {C : Type 0} (client : Client C) (v : ℤ) (c : C) : Type 0 where
  pub got : (client.get c ≡ err not_found) ⊎ ((s : Secret) × (client.get c ≡ ok s))
  pub created : (s : Secret) → Stored v s (client.create s c)
  pub updated : (s : Secret) → Stored v s (client.update s c)

module _ {P C : Type 0} where
  usable-active :
      (name : Text) (st : Store P C) (ks : KeySet P)
      → usable name st ≡ some ks
      → (key : InternalKey P) × (active_key ks ≡ ok key)
  unfolding usable active_key
  usable-active name st ks h = elim (Option-cases (lookup name st.key_sets)) [
    | inl e ↦ cc (rw (usable, e) at h)
    | inr (k, e) ↦ elim (Option-cases (find k.set_data.active_id k.versions)) [
      | inl f ↦ cc (rw (usable, e, has_active, f) at h)
      | inr (key, f) ↦
          let same : k ≡ ks = cc (rw (usable, e, has_active, f) at h) in
          (key, subst (λ x. active_key x ≡ ok key) same (rw (active_key, f) refl))
    ]
  ]

  usable-Has :
      (name : Text) (st : Store P C) (ks : KeySet P)
      → lookup name st.key_sets ≡ some ks
      → Has ks.set_data.active_id ks.versions
      → usable name st ≡ some ks
  unfolding usable
  usable-Has name st ks h (key, f) = rw (usable, h, has_active, f) refl

module _ {P C : Type 0} (lib : Library P) (laws : KeyLaws lib) (own_name : Text)
    (client : Client C) where
  -- A changed secret that is stored makes its key set usable.
  write_changed-usable :
      (name : Text) (write : Secret → C → Result Text Secret × C) (st : Store P C) (s : Secret)
      (n : ℕ) (ks : KeySet P)
      → Stored st.resource_version s (write s st.cluster)
      → lookup name (decode_secret lib s.contents) ≡ some ks
      → Has ks.set_data.active_id ks.versions
      → (st' : Store P C) × (write_changed lib own_name client write st (ok s, n) ≡ (ok tt, st'))
        × (usable name st' ≡ some ks)
  unfolding write_changed finish on_update_secret replace
  write_changed-usable name write st s n ks (s', c, v, hw, hc, hv, above) hl ha =
      let st' : Store P C = record {
        key_sets = decode_secret lib s'.contents;
        resource_version = v;
        cluster = c;
        drawn = n;
      } in
      (
        st',
        rw (write_changed, hw, finish, on_update_secret, hv, replace, hv, above) refl,
        usable-Has name st' ks
            (subst (λ x. lookup name (decode_secret lib x) ≡ some ks) (sym hc) hl) ha,
      )

  ensure_key_set-usable :
      (name : Text) (t : KeyType) (st : Store P C)
      → Undotted name
      → ((id : ℤ) → (key : InternalKey P) × (generate lib t id st.drawn ≡ ok key))
      → Answers client st.resource_version st.cluster
      → (ks : KeySet P) × (st' : Store P C) × (ensure_key_set lib own_name client name t st
          ≡ (ok tt, st'))
        × (usable name st' ≡ some ks)
  unfolding ensure_key_set mutate_secret
  ensure_key_set-usable name t st hn draw answers = elim answers.got [
    | inl e ↦
        let (s, n, ks, h, hl, ha) =
          ensure_in_secret_lem lib laws name t
            (record { name = own_name; contents = []; version = [] }) st.drawn hn draw in
        let (st', hw, hu) =
          write_changed-usable name client.create st s n ks (answers.created s) hl ha in
        (ks, st', rw (ensure_key_set, mutate_secret, e, h) hw, hu)
    | inr (old, e) ↦
        let (s, n, ks, h, hl, ha) = ensure_in_secret_lem lib laws name t old st.drawn hn draw in
        let (st', hw, hu) =
          write_changed-usable name client.update st s n ks (answers.updated s) hl ha in
        (ks, st', rw (ensure_key_set, mutate_secret, e, h) hw, hu)
  ]

  -- For a name without a dot, KeySet gives a key set with an active key, which the store then has,
  -- if a key of the type can be made and the API server answers and stores what is written at a
  -- version above that of the store. The laws of the key formats are hypotheses.
  pub key_set_lem :
      (name : Text) (t : KeyType) (st : Store P C)
      → Undotted name
      → ((id : ℤ) → (key : InternalKey P) × (generate lib t id st.drawn ≡ ok key))
      → Answers client st.resource_version st.cluster
      → (ks : KeySet P) × (key : InternalKey P) × (st' : Store P C) × (key_set lib own_name client
            name t st
          ≡ (ok ks, st'))
        × (active_key ks ≡ ok key)
        × (usable name st' ≡ some ks)
  unfolding key_set found_set
  key_set_lem name t st hn draw answers = elim (Option-cases (usable name st)) [
    | inr (ks, e) ↦
        let (key, h) = usable-active name st ks e in (ks, key, st, rw (key_set, e) refl, h, e)
    | inl e ↦
        let (ks, st', he, hu) = ensure_key_set-usable name t st hn draw answers in
        let (key, h) = usable-active name st' ks hu in
        (ks, key, st', rw (key_set, e, he, found_set, hu) refl, h, hu)
  ]
