-- ===== src/Sessions/Memory/Laws.antt =====
-- components/sessions/memorysessionstorage/storage.go: the storage keeps the promises of the
-- interface.
use kweb.Base.{
  ℕ, suc, Bool-cases, inl, inr, [], Text, text_eq, text_eq-false, text_eq_differ, Result-cases, ok,
  ◌≡◌, ◌≢◌, refl,
}
use kweb.Base.Dict.{insert, lookup-insert_self}
use kweb.Sessions.Session.{Session}
use kweb.Sessions.Codec.{Library, encode}
use kweb.Sessions.Codec.RoundTrip.{Lawful, decode-encode}
use kweb.Sessions.Storage.{Distinct, Found, Kept, Keeps}
use kweb.Sessions.Memory.{MemorySessionStorage, lookup_session, write_named, write_session, storage}

module _ (lib : Library) (random : ℕ → Text) where
  Found-named :
      (x : Session) (s : MemorySessionStorage) (b : Text) (n : ℕ)
      → Lawful lib
      → x.id ≢ []
      → Distinct x.values
      → encode lib x ≡ ok b
      → Found (storage lib random) record { sessions = insert x.id b s.sessions; drawn = n } x
  unfolding lookup_session
  Found-named x s b n laws ne d h =
      let (y, e, same_id, new, dirty, alike) = decode-encode lib x x.id b laws d h in
      (
        y,
        rw (text_eq-false x.id [] ne, lookup-insert_self x.id b s.sessions, e) refl,
        same_id,
        alike,
      )

  write_named-Kept :
      (x : Session) (s : MemorySessionStorage)
      → Lawful lib
      → x.id ≢ []
      → Kept (storage lib random) x (write_named lib random x s)
  unfolding write_named
  write_named-Kept x s laws ne = elim (Result-cases (encode lib x)) [
    | inl (b, e) ↦
        rw (e, write_named) (λ _. (refl, refl, ne, λ d. Found-named x s b s.drawn laws ne d e))
    | inr (why, e) ↦ rw (e, write_named) (λ h. cc)
  ]

  -- If the maps and JSON keep their promises and the drawn IDs are not empty, every write that
  -- succeeds keeps the session's values, leaves it with an ID, and a lookup of the ID finds a
  -- session with the same ID and values.
  pub storage-Keeps : Lawful lib → ((n : ℕ) → random n ≢ []) → Keeps (storage lib random)
  unfolding write_session
  storage-Keeps laws named x s = elim (Bool-cases (text_eq x.id [])) [
    | inl e ↦
        rw (e, write_session)
          (write_named-Kept
            record {
              id = random s.drawn;
              new_session = x.new_session;
              dirty = x.dirty;
              values = x.values;
            }
            record { sessions = s.sessions; drawn = suc s.drawn } laws (named s.drawn))
    | inr e ↦ rw (e, write_session) (write_named-Kept x s laws (text_eq_differ x.id [] e))
  ]
