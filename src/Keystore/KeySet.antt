-- ===== src/Keystore/KeySet.antt =====
-- The methods of `keySet` in components/keystore/kubernetes.go. A call through a nil pointer is the
-- error `nil_dereference`.
use kweb.Base.{
  ℕ, ◌==◌, if◌then◌else◌, Option, none, some, List, [], ◌∷◌, length, Text, Result, ok, err, ◌>>=◌,
}
use kweb.Base.Integers.{ℤ, int_eq}
use kweb.Keystore.Keys.{
  secretbox, KeySetData, EncryptedData, KeyError, bad_nonce, unmarshal_failed, no_active_key,
  not_initialized, unknown_key_id, not_supported, nil_dereference, Library, InternalKey,
  secretbox_key, rsa_key, read_crypto_rand,
}

-- The map from IDs to keys.
abbrev pub Versions : Type 0 → Type 0
Versions P = List (ℤ × InternalKey P)

pub record KeySet (P : Type 0) : Type 0 where
  pub name : Text
  pub set_data : KeySetData
  pub versions : Versions P

module _ {P : Type 0} where
  unfoldable pub find : ℤ → Versions P → Option (InternalKey P)
  find id [] = none
  find id ((i, key) ∷ vs) = if int_eq i id then some key else find id vs

  unfoldable pub put : ℤ → InternalKey P → Versions P → Versions P
  put id key [] = (id, key) ∷ []
  put id key ((i, old) ∷ vs) = if int_eq i id then (id, key) ∷ vs else (i, old) ∷ put id key vs

  unfoldable pub active_key : KeySet P → Result KeyError (InternalKey P)
  active_key ks = elim (find ks.set_data.active_id ks.versions) [
    | none ↦ err no_active_key
    | some key ↦ ok key
  ]

  unfoldable pub all_versions : Versions P → List (InternalKey P)
  all_versions [] = []
  all_versions ((_, key) ∷ vs) = key ∷ all_versions vs

  -- `activeKey`, which differs from `ActiveKey` in its error only.
  unfoldable pub own_active_key : KeySet P → Result KeyError (InternalKey P)
  own_active_key ks = elim (find ks.set_data.active_id ks.versions) [
    | none ↦ err not_initialized
    | some key ↦ ok key
  ]

module _ {P : Type 0} (lib : Library P) where
  -- The end of `Encrypt`, with the type assertion as it is tested: a secretbox key is refused, and
  -- for any other key the method is called on a nil pointer.
  unfoldable pub encrypt_with : InternalKey P → ℕ → Result KeyError Text
  unfolding read_crypto_rand
  encrypt_with (secretbox_key d s) drawn = err (not_supported secretbox)
  encrypt_with (rsa_key _ _) drawn = read_crypto_rand lib drawn 24 >>= λ _. err nil_dereference

  unfoldable pub encrypt_text : KeySet P → Text → ℕ → Result KeyError Text
  unfolding own_active_key encrypt_with
  encrypt_text ks plaintext drawn = own_active_key ks >>= λ key. encrypt_with key drawn

  unfoldable pub decrypt_with : InternalKey P → EncryptedData → Result KeyError Text
  decrypt_with (secretbox_key d s) e = err (not_supported secretbox)
  decrypt_with (rsa_key _ _) e = if length e.nonce == 24 then err nil_dereference else err bad_nonce

  unfoldable pub decrypt_text : KeySet P → Text → Result KeyError Text
  unfolding decrypt_with
  decrypt_text ks ciphertext = elim (lib.unmarshal_encrypted ciphertext) [
    | none ↦ err unmarshal_failed
    | some e ↦ elim (find e.key_id ks.versions) [
      | none ↦ err (unknown_key_id e.key_id)
      | some key ↦ decrypt_with key e
    ]
  ]
