-- ===== src/Keystore/Tests/Wire.antt =====
-- A wire format for the messages of the key store, for the runs: lengths stand before lists.
use kweb.Base.{ℕ, zero, suc, Option, none, some, List, [], ◌∷◌, ◌++◌, length, Text, ok, ◌≡◌, refl}
use kweb.Base.Integers.{ℤ, pos, negsuc}
use kweb.Keystore.Keys.{
  KeyType, unknown, secretbox, rsa, unrecognized, KeyData, KeySetData, EncryptionMethod,
  method_unknown, method_secretbox, EncryptedData, Library,
}
use kweb.Keystore.Sealed.{SealLaws}
use kweb.Keystore.Secret.Ensures.{KeyLaws}

abbrev sign : ℤ → ℕ
sign (pos _) = 0
sign (negsuc _) = 1

abbrev size : ℤ → ℕ
size (pos n) = n
size (negsuc n) = n

abbrev signed : ℕ → ℕ → ℤ
signed zero n = pos n
signed (suc _) n = negsuc n

signed-sign : (i : ℤ) → signed (sign i) (size i) ≡ i
signed-sign (pos n) = refl
signed-sign (negsuc n) = refl

abbrev type_number : KeyType → ℕ
type_number unknown = 0
type_number secretbox = 1
type_number rsa = 2
type_number (unrecognized n) = suc (suc (suc n))

abbrev number_type : ℕ → KeyType
number_type zero = unknown
number_type (suc zero) = secretbox
number_type (suc (suc zero)) = rsa
number_type (suc (suc (suc n))) = unrecognized n

number_type-type_number : (t : KeyType) → number_type (type_number t) ≡ t
number_type-type_number unknown = refl
number_type-type_number secretbox = refl
number_type-type_number rsa = refl
number_type-type_number (unrecognized n) = refl

abbrev take : ℕ → Text → Text
take zero s = []
take (suc n) [] = []
take (suc n) (c ∷ s) = c ∷ take n s

abbrev drop : ℕ → Text → Text
drop zero s = s
drop (suc n) [] = []
drop (suc n) (c ∷ s) = drop n s

take-length : (t s : Text) → take (length t) (t ++ s) ≡ t
take-length [] s = refl
take-length (c ∷ t) s = rw (take-length t s) refl

drop-length : (t s : Text) → drop (length t) (t ++ s) ≡ s
drop-length [] s = refl
drop-length (c ∷ t) s = drop-length t s

abbrev write_keys : List KeyData → Text
write_keys [] = []
write_keys (d ∷ ds) =
    sign d.id
    ∷ size d.id
    ∷ sign d.created
    ∷ size d.created
    ∷ type_number d.key_type
    ∷ length d.secret
    ∷ (d.secret ++ write_keys ds)

abbrev read_keys : ℕ → Text → List KeyData
read_keys zero s = []
read_keys (suc n) (a ∷ b ∷ c ∷ d ∷ e ∷ l ∷ s) =
    record { id = signed a b; secret = take l s; created = signed c d; key_type = number_type e }
    ∷ read_keys n (drop l s)
read_keys (suc n) _ = []

read_keys-write_keys : (ds : List KeyData) → read_keys (length ds) (write_keys ds) ≡ ds
read_keys-write_keys [] = refl
read_keys-write_keys (d ∷ ds) =
    simp (signed-sign, number_type-type_number, take-length, drop-length, read_keys-write_keys ds)

abbrev read_key_set : Text → Option KeySetData
read_key_set (a ∷ b ∷ n ∷ s) = some record { keys = read_keys n s; active_id = signed a b }
read_key_set _ = none

abbrev method_number : EncryptionMethod → ℕ
method_number method_unknown = 0
method_number method_secretbox = 1

abbrev number_method : ℕ → EncryptionMethod
number_method zero = method_unknown
number_method (suc _) = method_secretbox

number_method-method_number : (m : EncryptionMethod) → number_method (method_number m) ≡ m
number_method-method_number method_unknown = refl
number_method-method_number method_secretbox = refl

abbrev read_encrypted : Text → Option EncryptedData
read_encrypted (m ∷ a ∷ b ∷ l ∷ s) = some record {
  encryption_method = number_method m;
  key_id = signed a b;
  nonce = take l s;
  ciphertext = drop l s;
}
read_encrypted _ = none

abbrev pub bytes : ℕ → Text
bytes zero = []
bytes (suc n) = n ∷ bytes n

-- A box that shows its text, private keys that are their data.
abbrev pub lib : Library Text
lib = record {
  random = λ drawn n. ok (bytes n);
  now = λ drawn. pos drawn;
  generate_key = λ drawn. ok (bytes drawn);
  marshal_private_key = λ key. key;
  parse_private_key = some;
  marshal_key_set =
      λ d. ok (sign d.active_id ∷ size d.active_id ∷ length d.keys ∷ write_keys d.keys);
  unmarshal_key_set = read_key_set;
  marshal_encrypted = λ e. ok (
      method_number e.encryption_method
      ∷ sign e.key_id
      ∷ size e.key_id
      ∷ length e.nonce
      ∷ (e.nonce ++ e.ciphertext));
  unmarshal_encrypted = read_encrypted;
  seal = λ plaintext nonce key. plaintext;
  unseal = λ ciphertext nonce key. some ciphertext;
}

pub key_laws : KeyLaws lib
key_laws = record {
  parse-marshal = λ key. refl;
  marshal = λ d. (_, refl);
  unmarshal-marshal = λ d b h.
      let same : sign d.active_id ∷ size d.active_id ∷ length d.keys ∷ write_keys d.keys ≡ b =
        cc h in
      rw (← same) (simp (signed-sign, read_keys-write_keys));
}

pub seal_laws : SealLaws lib
seal_laws = record {
  unseal-seal = λ plaintext nonce key. refl;
  marshal = λ e. (_, refl);
  unmarshal-marshal = λ e b h.
      let same : method_number e.encryption_method
            ∷ sign e.key_id
            ∷ size e.key_id
            ∷ length e.nonce
            ∷ (e.nonce ++ e.ciphertext)
          ≡ b =
        cc h in
      rw (← same) (simp (number_method-method_number, signed-sign, take-length, drop-length));
}
