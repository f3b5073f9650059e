-- ===== src/Keystore/Sealed.antt =====
-- components/keystore/secretbox.go: what a secretbox key encrypts it decrypts; and the methods of a
-- key set in kubernetes.go, which do not get there.
use kweb.Base.{
  ℕ, ◌==◌, some, Option-cases, length, Text, Result-cases, ok, err, ◌≡◌, refl, inl, inr, Bool-cases,
}
use kweb.Keystore.Keys.{
  KeyData, method_secretbox, EncryptedData, KeyError, Library, secretbox_key, rsa_key, InternalKey,
  read_crypto_rand, encrypt, authenticate_and_decrypt,
}
use kweb.Keystore.KeySet.{
  KeySet, find, own_active_key, encrypt_with, encrypt_text, decrypt_with, decrypt_text,
}

-- What is documented of secretbox and of protocol buffers: an opened box has the sealed text, and a
-- message is read back.
pub record SealLaws {P : Type 0} (lib : Library P) : Type 0 where
  pub unseal-seal :
      (plaintext nonce key : Text)
      → lib.unseal (lib.seal plaintext nonce key) nonce key ≡ some plaintext
  pub marshal : (e : EncryptedData) → (b : Text) × (lib.marshal_encrypted e ≡ ok b)
  pub unmarshal-marshal :
      (e : EncryptedData) (b : Text)
      → lib.marshal_encrypted e ≡ ok b
      → lib.unmarshal_encrypted b ≡ some e

module _ {P : Type 0} (lib : Library P) where
  -- With a key of 32 bytes, and a nonce of 24 bytes drawn without an error, encrypting any text
  -- succeeds, and what it gives is read as a message with the ID of the key, which decrypts to the
  -- text. The laws of secretbox and of the wire format are hypotheses.
  pub authenticate_and_decrypt-encrypt :
      (laws : SealLaws lib) (d : KeyData) (secret plaintext nonce : Text) (drawn : ℕ)
      → length secret ≡ 32
      → lib.random drawn 24 ≡ ok nonce
      → length nonce ≡ 24
      → (b : Text) × (e : EncryptedData) × (encrypt lib d secret plaintext drawn ≡ ok b)
        × (lib.unmarshal_encrypted b ≡ some e)
        × (e.key_id ≡ d.id)
        × (authenticate_and_decrypt lib secret e ≡ ok plaintext)
  unfolding encrypt read_crypto_rand authenticate_and_decrypt
  authenticate_and_decrypt-encrypt laws d secret plaintext nonce drawn h32 hr h24 =
      let (b, hb) = laws.marshal record {
        encryption_method = method_secretbox;
        key_id = d.id;
        nonce = nonce;
        ciphertext = lib.seal plaintext nonce secret;
      } in
      (
        b,
        _,
        rw (encrypt, read_crypto_rand, hr, h32, hb) refl,
        laws.unmarshal-marshal _ b hb,
        refl,
        rw (h24, h32, laws.unseal-seal plaintext nonce secret) refl,
      )

  encrypt_with_refused :
      (key : InternalKey P) (drawn : ℕ) → (e : KeyError) × (encrypt_with lib key drawn ≡ err e)
  unfolding encrypt_with read_crypto_rand
  encrypt_with_refused (secretbox_key _ _) drawn = (_, refl)
  encrypt_with_refused (rsa_key _ _) drawn = elim (Result-cases (lib.random drawn 24)) [
    | inl (b, h) ↦ rw (encrypt_with, read_crypto_rand, h) (_, refl)
    | inr (e, h) ↦ rw (encrypt_with, read_crypto_rand, h) (_, refl)
  ]

  decrypt_with_refused :
      (key : InternalKey P) (m : EncryptedData) → (e : KeyError) × (decrypt_with lib key m ≡ err e)
  unfolding decrypt_with
  decrypt_with_refused (secretbox_key _ _) m = (_, refl)
  decrypt_with_refused (rsa_key _ _) m = elim (Bool-cases (length m.nonce == 24)) [
    | inl h ↦ rw h (_, refl)
    | inr h ↦ rw h (_, refl)
  ]

  encrypt_text_refused :
      (ks : KeySet P) (t : Text) (drawn : ℕ)
      → (e : KeyError) × (encrypt_text lib ks t drawn ≡ err e)
  unfolding encrypt_text own_active_key
  encrypt_text_refused ks t drawn = elim (Option-cases (find ks.set_data.active_id ks.versions)) [
    | inl h ↦ rw (encrypt_text, own_active_key, h) (_, refl)
    | inr (key, h) ↦ rw (encrypt_text, own_active_key, h) (encrypt_with_refused key drawn)
  ]

  decrypt_text_refused :
      (ks : KeySet P) (t : Text) → (e : KeyError) × (decrypt_text lib ks t ≡ err e)
  unfolding decrypt_text
  decrypt_text_refused ks t = elim (Option-cases (lib.unmarshal_encrypted t)) [
    | inl h ↦ rw (decrypt_text, h) (_, refl)
    | inr (m, h) ↦
        rw (decrypt_text, h)
          (elim (Option-cases (find m.key_id ks.versions)) [
            | inl k ↦ rw k (_, refl)
            | inr (key, k) ↦ rw k (decrypt_with_refused key m)
          ])
  ]

  -- Encrypt and AuthenticateAndDecrypt of a key set return an error, or panic, whatever the key set
  -- and the text are: the test of the type assertion is the wrong way around.
  pub encrypt_decrypt_refused :
      (ks : KeySet P) (t : Text) (drawn : ℕ)
      → ((e : KeyError) × (encrypt_text lib ks t drawn ≡ err e))
        × ((e : KeyError) × (decrypt_text lib ks t ≡ err e))
  encrypt_decrypt_refused ks t drawn = (encrypt_text_refused ks t drawn, decrypt_text_refused ks t)
