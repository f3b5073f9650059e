-- ===== src/Keystore/Keys.antt =====
-- The keys of components/keystore/secretbox.go and rsakey.go, and the messages of pb/keystore.proto.
-- Cryptography, random bytes, the clock and the wire format of protocol buffers are parameters.
use kweb.Base.{
  ℕ, ◌==◌, if◌then◌else◌, Option, none, some, List, length, Text, Result, ok, err, ◌>>=◌,
}
use kweb.Base.Integers.{ℤ}

pub data KeyType : Type 0 where
  unknown : KeyType
  secretbox : KeyType
  rsa : KeyType
  unrecognized : ℕ → KeyType

pub record KeyData : Type 0 where
  pub id : ℤ
  pub secret : Text
  pub created : ℤ
  pub key_type : KeyType

pub record KeySetData : Type 0 where
  pub keys : List KeyData
  pub active_id : ℤ

pub data EncryptionMethod : Type 0 where
  method_unknown : EncryptionMethod
  method_secretbox : EncryptionMethod

pub record EncryptedData : Type 0 where
  pub encryption_method : EncryptionMethod
  pub key_id : ℤ
  pub nonce : Text
  pub ciphertext : Text

pub data KeyError : Type 0 where
  random_failed : Text → KeyError
  rsa_failed : Text → KeyError
  unknown_key_type : KeyType → KeyError
  marshal_failed : Text → KeyError
  unmarshal_failed : KeyError
  no_public_key : KeyError
  cannot_sign : KeyError
  bad_key_length : ℕ → KeyError
  bad_nonce : KeyError
  not_valid : KeyError
  no_active_key : KeyError
  not_initialized : KeyError
  unknown_key_id : ℤ → KeyError
  not_supported : KeyType → KeyError
  fetch_failed : Text → KeyError
  write_failed : Text → KeyError
  key_not_found : KeyError
  nil_dereference : KeyError

-- `P` are the private keys of crypto/rsa. The random bytes and keys are those of a draw.
pub record Library (P : Type 0) : Type 0 where
  pub random : ℕ → ℕ → Result Text Text
  pub now : ℕ → ℤ
  pub generate_key : ℕ → Result Text P
  pub marshal_private_key : P → Text
  pub parse_private_key : Text → Option P
  pub marshal_key_set : KeySetData → Result Text Text
  pub unmarshal_key_set : Text → Option KeySetData
  pub marshal_encrypted : EncryptedData → Result Text Text
  pub unmarshal_encrypted : Text → Option EncryptedData
  pub seal : (plaintext nonce key : Text) → Text
  pub unseal : (ciphertext nonce key : Text) → Option Text

pub data InternalKey (P : Type 0) : Type 0 where
  secretbox_key : KeyData → Text → InternalKey P
  rsa_key : KeyData → P → InternalKey P

module _ {P : Type 0} where
  abbrev pub data_of : InternalKey P → KeyData
  data_of (secretbox_key d _) = d
  data_of (rsa_key d _) = d

  abbrev pub key_type_of : InternalKey P → KeyType
  key_type_of (secretbox_key _ _) = secretbox
  key_type_of (rsa_key _ _) = rsa

  abbrev pub id_of : InternalKey P → ℤ
  id_of key = (data_of key).id

  -- `Signer`: the private key, and `PublicKey` is that of it.
  unfoldable pub signer : InternalKey P → Result KeyError P
  signer (secretbox_key _ _) = err cannot_sign
  signer (rsa_key _ key) = ok key

module _ {P : Type 0} (lib : Library P) where
  unfoldable pub read_crypto_rand : ℕ → ℕ → Result KeyError Text
  read_crypto_rand drawn n = elim (lib.random drawn n) [
    | err e ↦ err (random_failed e)
    | ok b ↦ ok b
  ]

  unfoldable pub generate_secretbox_key : ℤ → ℕ → Result KeyError (InternalKey P)
  unfolding read_crypto_rand
  generate_secretbox_key id drawn = read_crypto_rand drawn 32 >>= λ b. ok (
      secretbox_key record { id = id; secret = b; created = lib.now drawn; key_type = secretbox } b)

  unfoldable pub generate_rsa_key : ℤ → ℕ → Result KeyError (InternalKey P)
  generate_rsa_key id drawn = elim (lib.generate_key drawn) [
    | err e ↦ err (rsa_failed e)
    | ok key ↦ ok (
        rsa_key
          record {
            id = id;
            secret = lib.marshal_private_key key;
            created = lib.now drawn;
            key_type = rsa;
          }
          key)
  ]

  -- The switch of `ensureKeySet`.
  unfoldable pub generate : KeyType → ℤ → ℕ → Result KeyError (InternalKey P)
  unfolding generate_secretbox_key generate_rsa_key
  generate secretbox id drawn = generate_secretbox_key id drawn
  generate rsa id drawn = generate_rsa_key id drawn
  generate other id drawn = err (unknown_key_type other)

  abbrev pub load_secretbox_key : KeyData → InternalKey P
  load_secretbox_key d = secretbox_key d d.secret

  unfoldable pub load_rsa_key : KeyData → Option (InternalKey P)
  load_rsa_key d = elim (lib.parse_private_key d.secret) [
    | none ↦ none
    | some key ↦ some (rsa_key d key)
  ]

  -- The switch of `decodeSecret`; a key of another type, or one that is corrupt, is skipped.
  unfoldable pub load_of : KeyType → KeyData → Option (InternalKey P)
  unfolding load_rsa_key
  load_of rsa d = load_rsa_key d
  load_of secretbox d = some (load_secretbox_key d)
  load_of _ d = none

  abbrev pub load : KeyData → Option (InternalKey P)
  load d = load_of d.key_type d

  -- `encrypt` of a secretbox key, with the nonce of a draw.
  unfoldable pub encrypt : KeyData → (secret plaintext : Text) → ℕ → Result KeyError Text
  unfolding read_crypto_rand
  encrypt d secret plaintext drawn = read_crypto_rand drawn 24 >>= λ nonce.
      if length secret == 32
      then elim (lib.marshal_encrypted record {
        encryption_method = method_secretbox;
        key_id = d.id;
        nonce = nonce;
        ciphertext = lib.seal plaintext nonce secret;
      }) [ err e ↦ err (marshal_failed e) | ok b ↦ ok b ]
      else err (bad_key_length (length secret))

  unfoldable pub authenticate_and_decrypt : (secret : Text) → EncryptedData → Result KeyError Text
  authenticate_and_decrypt secret e =
      if length e.nonce == 24
      then (if length secret == 32
          then elim (lib.unseal e.ciphertext e.nonce secret) [
            | none ↦ err not_valid
            | some plaintext ↦ ok plaintext
          ]
          else err (bad_key_length (length secret)))
      else err bad_nonce
