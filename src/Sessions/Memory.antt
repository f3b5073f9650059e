-- ===== src/Sessions/Memory.antt =====
-- components/sessions/memorysessionstorage/storage.go. The IDs that GenerateSessionID draws are a
-- parameter, a sequence.
pub mod Laws
use kweb.Base.{ℕ, suc, Option, none, some, if◌then◌else◌, [], Text, text_eq, Result, ok, err, ◌>>=◌}
use kweb.Base.Dict.{Dict, lookup, insert}
use kweb.Sessions.Session.{Session}
use kweb.Sessions.Codec.{Library, encode, decode}
use kweb.Sessions.Storage.{Storage}

pub record MemorySessionStorage : Type 0 where
  pub sessions : Dict Text
  pub drawn : ℕ

module _ (lib : Library) (random : ℕ → Text) where
  unfoldable pub lookup_session : Text → MemorySessionStorage → Result Text (Option Session)
  lookup_session id st = if text_eq id [] then ok none else elim (lookup id st.sessions) [
    | none ↦ ok none
    | some bytes ↦ (decode lib id bytes >>= λ s. ok (some s))
  ]

  -- `WriteSession` with the session's ID settled.
  unfoldable pub write_named :
      Session → MemorySessionStorage → Result Text (Unit {0}) × Session × MemorySessionStorage
  write_named s st = elim (encode lib s) [
    | err e ↦ (err e, s, st)
    | ok b ↦ (ok tt, s, record { sessions = insert s.id b st.sessions; drawn = st.drawn })
  ]

  unfoldable pub write_session :
      Session → MemorySessionStorage → Result Text (Unit {0}) × Session × MemorySessionStorage
  write_session s st =
      if text_eq s.id []
      then write_named
          record {
            id = random st.drawn;
            new_session = s.new_session;
            dirty = s.dirty;
            values = s.values;
          }
          record { sessions = st.sessions; drawn = suc st.drawn }
      else write_named s st

  abbrev pub storage : Storage MemorySessionStorage
  storage = record { lookup_session = lookup_session; write_session = write_session }
