-- ===== src/Keystore/Secret/Loaded.antt =====
-- components/keystore/kubernetes.go: the map of versions, and loading it from the data of the keys.
use mathlib.Core.List.{Memᴰ}
use mathlib.Core.List.Memᴰ.{head, tail}
use kweb.Base.{
  false, Bool-cases, some, Option-cases, List, [], ◌∷◌, Text, text_eq, All, ◌≡◌, refl, sym, ap, ◌∙◌,
  subst, inl, inr,
}
use kweb.Base.Dict.{Dict, lookup, insert}
use kweb.Base.Integers.{ℤ, int_eq, int_eq-true, int_eq_refl}
use kweb.Keystore.Keys.{
  KeyType, secretbox, rsa, KeyData, Library, InternalKey, rsa_key, id_of, data_of, load, load_of,
  load_rsa_key,
}
use kweb.Keystore.KeySet.{Versions, find, put}
use kweb.Keystore.Secret.{load_versions}

module _ {P : Type 0} where
  -- There is a key of an ID.
  abbrev pub Has : ℤ → Versions P → Type 0
  Has id vs = (key : InternalKey P) × (find id vs ≡ some key)

  pub Has-put_self :
      (id : ℤ) (key : InternalKey P) (vs : Versions P) → find id (put id key vs) ≡ some key
  unfolding find put
  Has-put_self id key [] = rw (int_eq_refl id) refl
  Has-put_self id key ((i, old) ∷ vs) = elim (Bool-cases (int_eq i id)) [
    | inl e ↦ rw (put, e, find, int_eq_refl id) refl
    | inr e ↦ rw (put, e, find, e) (Has-put_self id key vs)
  ]

  Has-put_other :
      (id j : ℤ) (key : InternalKey P) (vs : Versions P)
      → int_eq j id ≡ false
      → find id (put j key vs) ≡ find id vs
  unfolding find put
  Has-put_other id j key [] ne = rw ne refl
  Has-put_other id j key ((i, old) ∷ vs) ne = elim (Bool-cases (int_eq i j)) [
    | inl e ↦
        let other : int_eq i id ≡ false =
          subst (λ x. int_eq x id ≡ false) (sym (int_eq-true i j e)) ne in
        rw (put, e, find, ne, other) refl
    | inr e ↦ elim (Bool-cases (int_eq i id)) [
      | inl f ↦ rw (put, e, find, f) refl
      | inr f ↦ rw (put, e, find, f) (Has-put_other id j key vs ne)
    ]
  ]

  pub Has-put :
      (id j : ℤ) (key : InternalKey P) (vs : Versions P) → Has id vs → Has id (put j key vs)
  Has-put id j key vs (k, h) = elim (Bool-cases (int_eq j id)) [
    | inl e ↦ (
      key,
      subst (λ x. find x (put j key vs) ≡ some key) (int_eq-true j id e) (Has-put_self j key vs),
    )
    | inr e ↦ (k, Has-put_other id j key vs e ∙ h)
  ]

  pub first : (id : ℤ) (key : InternalKey P) (vs : Versions P) → find id ((id, key) ∷ vs) ≡ some key
  unfolding find
  first id key vs = rw (int_eq_refl id) refl

  pub Has-cons : (id : ℤ) (e : ℤ × InternalKey P) (vs : Versions P) → Has id vs → Has id (e ∷ vs)
  unfolding find
  Has-cons id (i, old) vs (k, h) = elim (Bool-cases (int_eq i id)) [
    | inl e ↦ (old, rw (find, e) refl)
    | inr e ↦ (k, rw (find, e) h)
  ]

module _ {ℓ} {A : Type 0} (P : A → Type ℓ) where
  pub lookup-All : (m : Dict A) (k : Text) (v : A) → All (λ e. P e.1) m → lookup k m ≡ some v → P v
  unfolding lookup
  lookup-All [] k v hs h = cc
  lookup-All ((j, w) ∷ m) k v (hw, hs) h = elim (Bool-cases (text_eq j k)) [
    | inl e ↦ subst P (cc (rw (lookup, e) at h)) hw
    | inr e ↦ lookup-All m k v hs (rw (lookup, e) at h)
  ]

  pub insert-All :
      (m : Dict A) (k : Text) (v : A) → P v → All (λ e. P e.1) m → All (λ e. P e.1) (insert k v m)
  unfolding insert
  insert-All [] k v hv hs = (hv, tt)
  insert-All ((j, w) ∷ m) k v hv (hw, hs) = elim (Bool-cases (text_eq j k)) [
    | inl e ↦ rw (insert, e) (hv, hs)
    | inr e ↦ rw (insert, e) (hw, insert-All m k v hv hs)
  ]

module _ {P : Type 0} (lib : Library P) where
  -- A key is loaded from its own data.
  abbrev pub Loads : InternalKey P → Type 0
  Loads key = load lib (data_of key) ≡ some key

  -- A version has the ID that it is found under.
  abbrev pub Sound : Versions P → Type 0
  Sound vs = All (λ e. (id_of e.1 ≡ e.0) × Loads e.1) vs

  pub find-Sound :
      (id : ℤ) (vs : Versions P) (key : InternalKey P)
      → Sound vs
      → find id vs ≡ some key
      → (id_of key ≡ id) × Loads key
  unfolding find
  find-Sound id [] key hs h = cc
  find-Sound id ((i, k) ∷ vs) key ((hi, hl), hs) h = elim (Bool-cases (int_eq i id)) [
    | inl e ↦
        subst (λ x. (id_of x ≡ id) × Loads x) (cc (rw (find, e) at h)) (hi ∙ int_eq-true i id e, hl)
    | inr e ↦ find-Sound id vs key hs (rw (find, e) at h)
  ]

  pub put-Sound :
      (key : InternalKey P) (vs : Versions P)
      → Loads key
      → Sound vs
      → Sound (put (id_of key) key vs)
  unfolding put
  put-Sound key [] h hs = ((refl, h), tt)
  put-Sound key ((i, k) ∷ vs) h (hk, hs) = elim (Bool-cases (int_eq i (id_of key))) [
    | inl e ↦ rw (put, e) ((refl, h), hs)
    | inr e ↦ rw (put, e) (hk, put-Sound key vs h hs)
  ]

  load_of-data_of :
      (t : KeyType) (d : KeyData) (key : InternalKey P)
      → load_of lib t d ≡ some key
      → data_of key ≡ d
  unfolding load_of load_rsa_key
  load_of-data_of rsa d key h = elim (Option-cases (lib.parse_private_key d.secret)) [
    | inl e ↦ cc (rw (load_of, load_rsa_key, e) at h)
    | inr (k, e) ↦
        let same : rsa_key d k ≡ key = cc (rw (load_of, load_rsa_key, e) at h) in
        sym (ap data_of same)
  ]
  load_of-data_of secretbox d key h = cc
  load_of-data_of _ d key h = cc

  pub load-Loads : (d : KeyData) (key : InternalKey P) → load lib d ≡ some key → Loads key
  load-Loads d key h =
      subst (λ x. load lib x ≡ some key) (sym (load_of-data_of d.key_type d key h)) h

  pub load_versions-Sound :
      (vs : Versions P) (ds : List KeyData) → Sound vs → Sound (load_versions lib vs ds)
  unfolding load_versions
  load_versions-Sound vs [] hs = hs
  load_versions-Sound vs (d ∷ ds) hs = elim (Option-cases (load lib d)) [
    | inl e ↦ rw (load_versions, e) (load_versions-Sound vs ds hs)
    | inr (key, e) ↦
        rw (load_versions, e)
          (load_versions-Sound (put (id_of key) key vs) ds
            (put-Sound key vs (load-Loads d key e) hs))
  ]

  pub load_versions-Has :
      (id : ℤ) (vs : Versions P) (ds : List KeyData) → Has id vs → Has id (load_versions lib vs ds)
  unfolding load_versions
  load_versions-Has id vs [] h = h
  load_versions-Has id vs (d ∷ ds) h = elim (Option-cases (load lib d)) [
    | inl e ↦ rw (load_versions, e) (load_versions-Has id vs ds h)
    | inr (key, e) ↦
        rw (load_versions, e)
          (load_versions-Has id (put (id_of key) key vs) ds (Has-put id (id_of key) key vs h))
  ]

  -- A key whose data is in the list is loaded.
  pub load_versions-Mem :
      (key : InternalKey P) (ds : List KeyData) (vs : Versions P)
      → Loads key
      → Memᴰ (data_of key) ds
      → Has (id_of key) (load_versions lib vs ds)
  unfolding load_versions
  load_versions-Mem key [] vs h m = elim m [ ]
  load_versions-Mem key (d ∷ ds) vs h (head e) =
      let loads : load lib d ≡ some key = subst (λ x. load lib x ≡ some key) e h in
      rw (load_versions, loads)
        (load_versions-Has (id_of key) (put (id_of key) key vs) ds
          (key, Has-put_self (id_of key) key vs))
  load_versions-Mem key (d ∷ ds) vs h (tail m) = load_versions-Mem key ds _ h m
