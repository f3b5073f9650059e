-- ===== src/Keystore/Secret/Reads.antt =====
-- components/keystore/kubernetes.go: what decodeSecret finds under a name.
use kweb.Base.{
  false, Bool-cases, Option, none, some, Option-cases, List, [], ◌∷◌, ◌++◌, append-nil,
  append_assoc, Text, codes, text_eq, text_eq_iff, text_eq_differ, All, ◌==◌, ==_iff, ◌≡◌, ◌≢◌,
  refl, sym, ap, ◌∙◌, subst, inl, inr,
}
use kweb.Base.Dict.{Dict, lookup, lookup-insert_self, lookup-insert_other}
use kweb.Base.Strings.{split, split_from}
use kweb.Keystore.Keys.{Library}
use kweb.Keystore.KeySet.{KeySet}
use kweb.Keystore.Secret.{
  name_of_tokens, entry_name, entry_key, decode_entry, add_entry, decode_secret,
}

-- A name of a key set: no dot in it.
abbrev pub Undotted : Text → Type 0
Undotted name = All (λ c. (c == 46) ≡ false) name

split_from-Undotted : (part s : Text) → Undotted s → split_from 46 part s ≡ (part ++ s) ∷ []
unfolding split_from
split_from-Undotted part [] h = simp append-nil
split_from-Undotted part (c ∷ s) (h, hs) =
    rw h
      (split_from-Undotted (part ++ c ∷ []) s hs ∙ ap (λ t. t ∷ []) (append_assoc part (c ∷ []) s))

-- An entry is that of a name without a dot.
entry_name-entry_key : (name : Text) → Undotted name → entry_name (entry_key name) ≡ some name
unfolding entry_name name_of_tokens split split_from text_eq
entry_name-entry_key name h = rw (split_from-Undotted [] name h) refl

-- There is always a first part.
split_from-cons : (part s : Text) → (t : Text) × (ts : List Text) × (split_from 46 part s ≡ t ∷ ts)
unfolding split_from
split_from-cons part [] = (_, _, refl)
split_from-cons part (c ∷ s) = elim (Bool-cases (c == 46)) [
  | inl e ↦ rw e (_, _, refl)
  | inr e ↦ rw e (split_from-cons (part ++ c ∷ []) s)
]

one_part : (part s t : Text) → split_from 46 part s ≡ t ∷ [] → (t ≡ part ++ s) × Undotted s
unfolding split_from
one_part part [] t h = (cc (h, append-nil part), tt)
one_part part (c ∷ s) t h = elim (Bool-cases (c == 46)) [
  | inl e ↦ let (u, us, k) = split_from-cons [] s in cc (rw (e, k) at h)
  | inr e ↦
      let (same, rest) = one_part (part ++ c ∷ []) s t (rw e at h) in
      (same ∙ append_assoc part (c ∷ []) s, (e, rest))
]

two_parts :
    (part s t u : Text)
    → split_from 46 part s ≡ t ∷ u ∷ []
    → (part ++ s ≡ t ++ (codes "." ++ u)) × Undotted u
unfolding split_from
two_parts part [] t u h = cc
two_parts part (c ∷ s) t u h = elim (Bool-cases (c == 46)) [
  | inl e ↦
      let (same, rest) = one_part [] s u (cc (rw e at h)) in
      let same' : part ≡ t = cc (rw e at h) in
      (
        subst (λ x. part ++ c ∷ s ≡ part ++ x ∷ u) ((==_iff c 46).0 e)
              (ap (λ x. part ++ c ∷ x) (sym same))
            ∙ ap (λ x. x ++ (codes "." ++ u)) same',
        subst Undotted (sym same) rest,
      )
  | inr e ↦
      let (same, rest) = two_parts (part ++ c ∷ []) s t u (rw e at h) in
      (sym (append_assoc part (c ∷ []) s) ∙ same, rest)
]

tokens_name :
    (tokens : List Text) (name : Text)
    → name_of_tokens tokens ≡ some name
    → tokens ≡ codes "secret" ∷ name ∷ []
unfolding name_of_tokens
tokens_name (a ∷ n ∷ []) name h = elim (Bool-cases (text_eq a (codes "secret"))) [
  | inl e ↦ cc ((text_eq_iff a (codes "secret")).0 e, (rw e at h))
  | inr e ↦ cc (rw e at h)
]
tokens_name [] name h = cc
tokens_name (a ∷ []) name h = cc
tokens_name (a ∷ b ∷ d ∷ ts) name h = cc

-- The entries that hold a key set: "secret." and a name without a dot.
entry_key-entry_name :
    (k name : Text) → entry_name k ≡ some name → (k ≡ entry_key name) × Undotted name
unfolding entry_name split
entry_key-entry_name k name h =
    two_parts [] k (codes "secret") name (tokens_name (split_from 46 [] k) name h)

module _ {P : Type 0} (lib : Library P) where
  add_entry_self :
      (o : Option Text) (name w : Text) (ks : KeySet P) (sets : Dict (KeySet P))
      → o ≡ some name
      → decode_entry lib name w ≡ some ks
      → lookup name (add_entry lib o w sets) ≡ some ks
  unfolding add_entry
  add_entry_self o name w ks sets h d = rw (h, add_entry, d) (lookup-insert_self name ks sets)

  add_entry-other :
      (o : Option Text) (name w : Text) (sets : Dict (KeySet P))
      → o ≢ some name
      → lookup name (add_entry lib o w sets) ≡ lookup name sets
  unfolding add_entry
  add_entry-other none name w sets ne = refl
  add_entry-other (some n) name w sets ne = elim (Option-cases (decode_entry lib n w)) [
    | inl h ↦ rw (add_entry, h) refl
    | inr (ks, h) ↦ rw (add_entry, h) (lookup-insert_other n name ks sets (λ e. ne (ap some e)))
  ]

  -- Under a name without a dot a key set is found that the entry of the name holds; it must decode.
  pub lookup-decode_secret :
      (name : Text) (v : Text) (ks : KeySet P) (m : Dict Text)
      → Undotted name
      → lookup (entry_key name) m ≡ some v
      → decode_entry lib name v ≡ some ks
      → lookup name (decode_secret lib m) ≡ some ks
  unfolding lookup decode_secret
  lookup-decode_secret name v ks [] h e d = cc
  lookup-decode_secret name v ks ((k, w) ∷ m) h e d =
      elim (Bool-cases (text_eq k (entry_key name))) [
        | inl same ↦
            add_entry_self (entry_name k) name w ks (decode_secret lib m)
              (ap entry_name ((text_eq_iff k (entry_key name)).0 same)
                ∙ entry_name-entry_key name h)
              (cc (d, (rw same at e)))
        | inr differ ↦
            add_entry-other (entry_name k) name w (decode_secret lib m)
              (λ n. text_eq_differ k (entry_key name) differ (entry_key-entry_name k name n).0)
            ∙ lookup-decode_secret name v ks m h (rw differ at e) d
      ]

  -- Under a name with a dot none is found.
  pub decode_secret-Undotted :
      (name : Text) (m : Dict Text) (ks : KeySet P)
      → lookup name (decode_secret lib m) ≡ some ks
      → Undotted name
  unfolding lookup decode_secret
  decode_secret-Undotted name [] ks h = cc
  decode_secret-Undotted name ((k, w) ∷ m) ks h =
      let rest : entry_name k ≢ some name → Undotted name = λ ne.
        decode_secret-Undotted name m ks
          (sym (add_entry-other (entry_name k) name w (decode_secret lib m) ne) ∙ h) in
      elim (Option-cases (entry_name k)) [
        | inl e ↦ rest (λ s. cc (e, s))
        | inr (n, e) ↦ elim (Bool-cases (text_eq n name)) [
          | inl same ↦ (entry_key-entry_name k name (e ∙ ap some ((text_eq_iff n name).0 same))).1
          | inr differ ↦ rest (λ s. text_eq_differ n name differ (cc (e, s)))
        ]
      ]
