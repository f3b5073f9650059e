-- ===== src/Sessions/Codec/RoundTrip.antt =====
-- components/sessions/codec.go: a decoded session has the values of the encoded one.
use kweb.Base.{
  false, inl, inr, none, some, Option-cases, List, [], ◌∷◌, Text, text_eq_iff, ok, ◌≡◌, refl, sym,
  ◌∙◌, arith,
}
use kweb.Base.Dict.{Dict, lookup, insert, erase, lookup-insert, lookup-erase}
use kweb.Sessions.Session.{Session}
use kweb.Sessions.Codec.{Library, encode, decode, fill}
use kweb.Sessions.Storage.{Distinct, Alike}

-- A map's iteration visits every key once, and JSON reads back what it wrote.
pub record Lawful (lib : Library) : Type 0 where
  pub iterates : (m : Dict Text) → Distinct m → Distinct (lib.iterate m) × Alike (lib.iterate m) m
  pub reads_back :
      (entries : List (Text × Text)) (b : Text)
      → lib.json_marshal entries ≡ ok b
      → lib.json_unmarshal b ≡ ok entries

pub Distinct-insert : (k v : Text) (m : Dict Text) → Distinct m → Distinct (insert k v m)
unfolding insert lookup
Distinct-insert k v [] h = (refl, tt)
Distinct-insert k v ((j, w) ∷ m) (n, h) =
    ground (arith, text_eq_iff j k, text_eq_iff k j, lookup-insert k j v m, Distinct-insert k v m h)

pub Distinct-erase : (k : Text) (m : Dict Text) → Distinct m → Distinct (erase k m)
unfolding erase
Distinct-erase k [] h = tt
Distinct-erase k ((j, w) ∷ m) (n, h) =
    ground (arith, text_eq_iff j k, text_eq_iff k j, lookup-erase k j m, Distinct-erase k m h)

lookup-fill_other :
    (entries : List (Text × Text)) (values : Dict Text) (k : Text)
    → lookup k entries ≡ none
    → lookup k (fill entries values) ≡ lookup k values
unfolding lookup fill
lookup-fill_other [] values k h = refl
lookup-fill_other ((j, v) ∷ entries) values k h =
    ground (arith, lookup-insert j k v values, lookup-fill_other entries (insert j v values) k)

lookup-fill :
    (entries : List (Text × Text)) (k v : Text) (values : Dict Text)
    → Distinct entries
    → lookup k entries ≡ some v
    → lookup k (fill entries values) ≡ some v
unfolding lookup fill
lookup-fill [] k v values d h = cc
lookup-fill ((j, w) ∷ entries) k v values (n, d) h = ground (
  arith,
  text_eq_iff j k,
  lookup-insert j k w values,
  lookup-fill_other entries (insert j w values) k,
  lookup-fill entries k v (insert j w values) d,
)

lookup_nil : (k : Text) → lookup {V = Text} k [] ≡ none
unfolding lookup
lookup_nil k = refl

fill-Alike : (entries : List (Text × Text)) → Distinct entries → Alike (fill entries []) entries
fill-Alike entries d k = elim (Option-cases (lookup k entries)) [
  | inl e ↦ lookup-fill_other entries [] k e ∙ lookup_nil k ∙ sym e
  | inr (v, e) ↦ lookup-fill entries k v [] d e ∙ sym e
]

-- If a session's values have distinct keys and it is encoded, then its code decodes, under any ID,
-- to a session with that ID, with neither flag up, and with the same value under every key.
pub decode-encode :
    (lib : Library) (s : Session) (id b : Text)
    → Lawful lib
    → Distinct s.values
    → encode lib s ≡ ok b
    → (y : Session) × (decode lib id b ≡ ok y)
      × (y.id ≡ id)
      × (y.new_session ≡ false)
      × (y.dirty ≡ false)
      × Alike y.values s.values
unfolding encode decode
decode-encode lib s id b laws d h =
    let (d', same) = laws.iterates s.values d in
    (
      _,
      rw (laws.reads_back (lib.iterate s.values) b h) refl,
      refl,
      refl,
      refl,
      λ k. fill-Alike (lib.iterate s.values) d' k ∙ same k,
    )
