-- ===== src/Keystore/Names.antt =====
-- components/keystore/kubernetes.go: KeySet gives no key set for a name with a dot.
use kweb.Base.{
  ℕ, Bool, true, false, Bool-cases, some, Option-cases, Text, Result, Result-cases, ok, err, ◌≡◌,
  inl, inr, sym, ap,
}
use kweb.Base.Dict.{Dict, lookup}
use kweb.Base.Integers.{ℤ, int_leb, parse_int64}
use kweb.Sessions.Kube.{not_found, api_failed}
use kweb.Keystore.Keys.{KeyType, KeyError, Library}
use kweb.Keystore.KeySet.{KeySet}
use kweb.Keystore.Secret.{Secret, decode_secret}
use kweb.Keystore.Secret.Reads.{Undotted, decode_secret-Undotted}
use kweb.Keystore.Store.{
  Client, Store, usable, replace, on_update_secret, Outcome, finish, write_changed, mutate_secret,
  ensure_key_set, found_set, key_set,
}

module _ {P C : Type 0} where
  -- The key sets of a store have names without dots.
  pub record Readable (st : Store P C) : Type 0 where
    pub names : (name : Text) (ks : KeySet P) → lookup name st.key_sets ≡ some ks → Undotted name

  replace-Readable :
      (v : ℤ × Bool) (sets : Dict (KeySet P)) (st : Store P C)
      → ((name : Text) (ks : KeySet P) → lookup name sets ≡ some ks → Undotted name)
      → Readable st
      → Readable (replace v sets st)
  unfolding replace
  replace-Readable (v, false) sets st hs h = record { names = hs }
  replace-Readable (v, true) sets st hs h = elim (Bool-cases (int_leb v st.resource_version)) [
    | inl e ↦ rw (replace, e) h
    | inr e ↦ rw (replace, e) (record { names = hs })
  ]

  usable-Undotted :
      (name : Text) (st : Store P C) (ks : KeySet P)
      → Readable st
      → usable name st ≡ some ks
      → Undotted name
  unfolding usable
  usable-Undotted name st ks h e = elim (Option-cases (lookup name st.key_sets)) [
    | inl n ↦ cc (rw (usable, n) at e)
    | inr (k, s) ↦ h.names name k s
  ]

module _ {P C : Type 0} (lib : Library P) where
  on_update_secret-Readable :
      (s : Secret) (st : Store P C) → Readable st → Readable (on_update_secret lib s st)
  unfolding on_update_secret
  on_update_secret-Readable s st h =
      replace-Readable (parse_int64 s.version) (decode_secret lib s.contents) st
        (λ name ks e. decode_secret-Undotted lib name s.contents ks e) h

module _ {P C : Type 0} (lib : Library P) (own_name : Text) (client : Client C) where
  finish-Readable :
      (n : ℕ) (st : Store P C) (answer : Result Text Secret × C)
      → Readable st
      → Readable (finish lib own_name client n st answer).1
  unfolding finish
  finish-Readable n st (err e, c) h = record { names = h.names }
  finish-Readable n st (ok s, c) h = on_update_secret-Readable lib s _ (record { names = h.names })

  write_changed-Readable :
      (write : Secret → C → Result Text Secret × C) (st : Store P C)
      (changed : Result KeyError Secret × ℕ)
      → Readable st
      → Readable (write_changed lib own_name client write st changed).1
  unfolding write_changed
  write_changed-Readable write st (err e, n) h = record { names = h.names }
  write_changed-Readable write st (ok s, n) h = finish-Readable n st (write s st.cluster) h

  ensure_key_set-Readable :
      (name : Text) (t : KeyType) (st : Store P C)
      → Readable st
      → Readable (ensure_key_set lib own_name client name t st).1
  unfolding ensure_key_set mutate_secret
  ensure_key_set-Readable name t st h = elim (Result-cases (client.get st.cluster)) [
    | inl (s, e) ↦
        rw (ensure_key_set, mutate_secret, e) (write_changed-Readable client.update st _ h)
    | inr (api_failed m, e) ↦ rw (ensure_key_set, mutate_secret, e) h
    | inr (not_found, e) ↦
        rw (ensure_key_set, mutate_secret, e) (write_changed-Readable client.create st _ h)
  ]

  found_set-Readable :
      (name : Text) (o : Outcome lib own_name client (Unit {0}))
      → Readable o.1
      → Readable (found_set lib own_name client name o).1
  unfolding found_set
  found_set-Readable name (err e, st) h = h
  found_set-Readable name (ok _, st) h = elim (Option-cases (usable name st)) [
    | inl n ↦ rw (found_set, n) h
    | inr (k, n) ↦ rw (found_set, n) h
  ]

  found_set-Undotted :
      (name : Text) (o : Outcome lib own_name client (Unit {0})) (ks : KeySet P) (st' : Store P C)
      → Readable o.1
      → found_set lib own_name client name o ≡ (ok ks, st')
      → (st' ≡ o.1) × Undotted name
  unfolding found_set
  found_set-Undotted name (err e, st) ks st' h f = cc
  found_set-Undotted name (ok _, st) ks st' h f = elim (Option-cases (usable name st)) [
    | inl n ↦ cc (rw (found_set, n) at f)
    | inr (k, n) ↦ (sym (ap (λ x. x.1) (rw (found_set, n) at f)), usable-Undotted name st k h n)
  ]

  -- From a store whose key sets have names without dots, KeySet gives a key set only for such a
  -- name, and the store that it leaves is again such a store, also if it gives none.
  pub key_set-Readable :
      (name : Text) (t : KeyType) (st : Store P C)
      → Readable st
      → Readable (key_set lib own_name client name t st).1
        × ((ks : KeySet P) (st' : Store P C)
            → key_set lib own_name client name t st ≡ (ok ks, st')
            → Undotted name)
  unfolding key_set found_set
  key_set-Readable name t st h = elim (Option-cases (usable name st)) [
    | inr (k, e) ↦ (rw (key_set, e) h, λ ks st' f. usable-Undotted name st k h e)
    | inl e ↦
        let kept = ensure_key_set-Readable name t st h in
        (
          rw (key_set, e)
              (found_set-Readable name (ensure_key_set lib own_name client name t st) kept),
          λ ks st' f.
              (found_set-Undotted name (ensure_key_set lib own_name client name t st) ks st' kept
                (rw (key_set, e) at f)).1,
        )
  ]
