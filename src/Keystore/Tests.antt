-- ===== src/Keystore/Tests.antt =====
-- Key stores at work, and the results applied to them.
mod Wire
use mathlib.Core.List.{Memᴰ}
use kweb.Base.{
  ℕ, suc, Bool, true, false, none, some, List, [], ◌∷◌, length, Text, codes, text_eq, Result, ok,
  err, ◌≡◌, inl, refl,
}
use kweb.Base.Dict.{lookup, insert}
use kweb.Base.Strings.{split, split_from, has_prefix}
use kweb.Base.Integers.{ℤ, pos, negsuc, parse_int64, read_unsigned, read_digits, signed, int32_suc}
use kweb.Sessions.Kube.{not_found}
use kweb.Keystore.Keys.{
  secretbox, KeyData, KeyError, EncryptedData, InternalKey, secretbox_key, generate,
  generate_secretbox_key, read_crypto_rand, encrypt, authenticate_and_decrypt,
}
use kweb.Keystore.KeySet.{KeySet, active_key, encrypt_text, decrypt_text}
use kweb.Keystore.Secret.{Secret, fresh_set, decode_secret}
use kweb.Keystore.Secret.Reads.{Undotted}
use kweb.Keystore.Store.{Event, added, deleted, bookmark, Client, Store, usable, key_set}
use kweb.Keystore.Watch.{watch_once}
use kweb.Keystore.Newest.{Newest, Numbered, round_reports, watch_once-Newest}
use kweb.Keystore.Sealed.{authenticate_and_decrypt-encrypt, encrypt_decrypt_refused}
use kweb.Keystore.Creates.{Answers, key_set_lem}
use kweb.Keystore.Names.{Readable, key_set-Readable}
use kweb.Keystore.Tests.Wire.{bytes, lib, key_laws, seal_laws}

parse_most : parse_int64 (codes "9223372036854775807") ≡ (pos 9223372036854775807, true)
unfolding parse_int64 read_unsigned read_digits signed
parse_most = refl

parse_above : parse_int64 (codes "9223372036854775808") ≡ (pos 9223372036854775807, false)
unfolding parse_int64 read_unsigned read_digits signed
parse_above = refl

parse_least : parse_int64 (codes "-9223372036854775808") ≡ (negsuc 9223372036854775807, true)
unfolding parse_int64 read_unsigned read_digits signed
parse_least = refl

-- The largest ID of an int32 is followed by the smallest.
after_most : int32_suc (pos 2147483647) ≡ negsuc 2147483647
unfolding int32_suc
after_most = refl

abbrev own_name : Text
own_name = codes "keys"

abbrev empty_secret : Text → Secret
empty_secret version = record { name = own_name; contents = []; version = version }

-- A server that has no secret, and gives each one that is written the version 5.
abbrev store_secret : Secret → ℕ → Result Text Secret × ℕ
store_secret s c = (ok record { name = s.name; contents = s.contents; version = codes "5" }, suc c)

abbrev client : Client ℕ
client = record {
  get = λ c. err not_found;
  create = store_secret;
  update = store_secret;
  list = λ c. ok (empty_secret (codes "4") ∷ []);
  watch = λ c.
      ok (bookmark ∷ added (empty_secret (codes "7")) ∷ deleted (empty_secret (codes "6")) ∷ []);
}

abbrev start : Store Text ℕ
start = record { key_sets = []; resource_version = pos 0; cluster = 0; drawn = 0 }

client-Answers : Answers client (pos 0) 0
unfolding parse_int64 read_unsigned read_digits signed
client-Answers = record {
  got = inl refl;
  created = λ s. (_, _, pos 5, refl, refl, refl, refl);
  updated = λ s. (_, _, pos 5, refl, refl, refl, refl);
}

makes_key : (id : ℤ) → (key : InternalKey Text) × (generate lib secretbox id 0 ≡ ok key)
unfolding generate generate_secretbox_key read_crypto_rand
makes_key id = (_, refl)

key_set_lem_example :
    (ks : KeySet Text) × (key : InternalKey Text) × (st' : Store Text ℕ) × (key_set lib own_name
        client
        (codes "cookies")
        secretbox
        start
      ≡ (ok ks, st'))
    × (active_key ks ≡ ok key)
    × (usable (codes "cookies") st' ≡ some ks)
key_set_lem_example =
    key_set_lem lib key_laws own_name client (codes "cookies") secretbox start
      (refl, (refl, (refl, (refl, (refl, (refl, (refl, tt))))))) makes_key client-Answers

start-Readable : Readable start
unfolding lookup
start-Readable = record { names = λ name ks h. cc }

key_set-Readable_example :
    Readable (key_set lib own_name client (codes "a.b") secretbox start).1
    × ((ks : KeySet Text) (st' : Store Text ℕ)
        → key_set lib own_name client (codes "a.b") secretbox start ≡ (ok ks, st')
        → Undotted (codes "a.b"))
key_set-Readable_example =
    key_set-Readable lib own_name client (codes "a.b") secretbox start start-Readable

reports-Numbered : Numbered (round_reports lib own_name client 0)
unfolding parse_int64 read_unsigned read_digits signed text_eq
reports-Numbered = (refl, (refl, (refl, tt)))

watch_once-Newest_example :
    Newest start (round_reports lib own_name client 0) (watch_once lib own_name client start).1
watch_once-Newest_example = watch_once-Newest lib own_name client start reports-Numbered

abbrev key_data : KeyData
key_data = record { id = pos 1; secret = bytes 32; created = pos 0; key_type = secretbox }

authenticate_and_decrypt-encrypt_example :
    (b : Text) × (e : EncryptedData) × (encrypt lib key_data (bytes 32) (codes "hi") 0 ≡ ok b)
    × (lib.unmarshal_encrypted b ≡ some e)
    × (e.key_id ≡ pos 1)
    × (authenticate_and_decrypt lib (bytes 32) e ≡ ok (codes "hi"))
authenticate_and_decrypt-encrypt_example =
    authenticate_and_decrypt-encrypt lib seal_laws key_data (bytes 32) (codes "hi") (bytes 24) 0
      refl refl refl

abbrev one_key : KeySet Text
one_key = record {
  name = codes "cookies";
  set_data = record { keys = key_data ∷ []; active_id = pos 1 };
  versions = (pos 1, secretbox_key key_data (bytes 32)) ∷ [];
}

encrypt_decrypt_refused_example :
    ((e : KeyError) × (encrypt_text lib one_key (codes "hi") 0 ≡ err e))
    × ((e : KeyError) × (decrypt_text lib one_key (codes "hi") ≡ err e))
encrypt_decrypt_refused_example = encrypt_decrypt_refused lib one_key (codes "hi") 0
