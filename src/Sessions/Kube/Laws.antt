-- ===== src/Sessions/Kube/Laws.antt =====
-- components/sessions/kubesessionstorage/storage.go: the storage keeps the promises of the
-- interface.
use kweb.Base.{
  ℕ, suc, Bool-cases, inl, inr, [], Text, text_eq, text_eq-false, text_eq_differ, Result,
  Result-cases, ok, err, ◌≡◌, ◌≢◌, refl, subst, ◌∙◌,
}
use kweb.Sessions.Session.{Session}
use kweb.Sessions.Codec.{Library, encode}
use kweb.Sessions.Codec.RoundTrip.{Lawful, decode-encode}
use kweb.Sessions.Storage.{Distinct, Found, Kept, Keeps}
use kweb.Sessions.Kube.{
  ApiError, Object, Client, State, lookup_session, finish, write_new, update_object, write_known,
  write_session, storage,
}

-- An object that is created or updated is read back with its bytes, and a read returns the object
-- of the name that was asked for.
abbrev Stores : {C : Type 0} → Client C → Object → Result ApiError (Unit {0}) × C → Type 0
Stores client o (r, c) =
    r ≡ ok tt → (x : Object) × (client.get o.name c ≡ ok x) × (x.bytes ≡ o.bytes)

pub record Consistent {C : Type 0} (client : Client C) : Type 0 where
  pub creates : (o : Object) (c : C) → Stores client o (client.create o c)
  pub updates : (o : Object) (c : C) → Stores client o (client.update o c)
  pub reads_name : (n : Text) (c : C) (o : Object) → client.get n c ≡ ok o → o.name ≡ n

module _ (lib : Library) (random : ℕ → Text) {C : Type 0} (client : Client C) where
  Found-stored :
      (x : Session) (b : Text) (c : C) (n : ℕ) (o : Object)
      → Lawful lib
      → x.id ≢ []
      → Distinct x.values
      → encode lib x ≡ ok b
      → client.get x.id c ≡ ok o
      → o.bytes ≡ b
      → Found (storage lib random client) record { cluster = c; drawn = n } x
  unfolding lookup_session
  Found-stored x b c n o laws ne d h g same =
      let (y, e, same_id, new, dirty, alike) = decode-encode lib x x.id b laws d h in
      (y, rw (text_eq-false x.id [] ne, g, same, e) refl, same_id, alike)

  finish-Kept :
      (x : Session) (b : Text) (n : ℕ) (o : Object) (r : Result ApiError (Unit {0}) × C)
      → Lawful lib
      → x.id ≢ []
      → encode lib x ≡ ok b
      → o.name ≡ x.id
      → o.bytes ≡ b
      → Stores client o r
      → Kept (storage lib random client) x (finish lib random client x n r)
  unfolding finish
  finish-Kept x b n o (err e, c) laws ne h name bytes stores z = cc
  finish-Kept x b n o (ok _, c) laws ne h name bytes stores z =
      let (y, g, same) = stores refl in
      (
        refl,
        refl,
        ne,
        λ d.
            Found-stored x b c n y laws ne d h (subst (λ t. client.get t c ≡ ok y) name g)
              (same ∙ bytes),
      )

  module _ (laws : Lawful lib) (consistent : Consistent client) where
    write_new-Kept :
        (x : Session) (s : State C)
        → x.id ≢ []
        → Kept (storage lib random client) x (write_new lib random client x s)
    unfolding write_new
    write_new-Kept x s ne = elim (Result-cases (encode lib x)) [
      | inr (why, e) ↦ rw (e, write_new) (λ h. cc)
      | inl (b, e) ↦
          let o : Object = record { name = x.id; bytes = b; version = [] } in
          rw (e, write_new)
            (finish-Kept x b s.drawn o (client.create o s.cluster) laws ne e refl refl
              (consistent.creates o s.cluster))
    ]

    update_object-Kept :
        (x : Session) (s : State C) (b : Text)
        → (r : Result ApiError Object) → client.get x.id s.cluster ≡ r
        → x.id ≢ []
        → encode lib x ≡ ok b
        → Kept (storage lib random client) x (update_object lib random client x s b r)
    unfolding update_object
    update_object-Kept x s b (err why) g ne e = λ h. cc
    update_object-Kept x s b (ok obj) g ne e =
        let o : Object = record { name = obj.name; bytes = b; version = obj.version } in
        finish-Kept x b s.drawn o (client.update o s.cluster) laws ne e
          (consistent.reads_name x.id s.cluster obj g) refl (consistent.updates o s.cluster)

    write_known-Kept :
        (x : Session) (s : State C)
        → x.id ≢ []
        → Kept (storage lib random client) x (write_known lib random client x s)
    unfolding write_known
    write_known-Kept x s ne = elim (Result-cases (encode lib x)) [
      | inr (why, e) ↦ rw (e, write_known) (λ h. cc)
      | inl (b, e) ↦
          rw (e, write_known) (update_object-Kept x s b (client.get x.id s.cluster) refl ne e)
    ]

    -- If the maps and JSON keep their promises, the API server reads back what was created or
    -- updated, and the drawn IDs are not empty, every write that succeeds, of a new session by a
    -- create and of another by a read and an update, keeps the session's values, leaves it with an
    -- ID, and a lookup of the ID finds a session with the same ID and values.
    pub kube-Keeps : ((n : ℕ) → random n ≢ []) → Keeps (storage lib random client)
    unfolding write_session
    kube-Keeps named x s = elim (Bool-cases (text_eq x.id [])) [
      | inl e ↦
          rw (e, write_session)
            (write_new-Kept
              record {
                id = random s.drawn;
                new_session = x.new_session;
                dirty = x.dirty;
                values = x.values;
              }
              record { cluster = s.cluster; drawn = suc s.drawn } (named s.drawn))
      | inr e ↦ rw (e, write_session) (write_known-Kept x s (text_eq_differ x.id [] e))
    ]
