-- ===== src/Sessions/Session.antt =====
-- components/sessions/session.go. A nil map of values is an empty one, which reads alike; the mutex
-- and the pointer to the component are never used.
pub mod Laws
use kweb.Base.{Bool, true, false, Option, none, some, Text, ◌≡◌}
use kweb.Base.Dict.{Dict, lookup, insert, erase}

pub record Session : Type 0 where
  pub id : Text
  pub new_session : Bool
  pub dirty : Bool
  pub values : Dict Text

-- What a session uses of a kind of protocol message: the full name of its descriptor, proto.Marshal,
-- and proto.Unmarshal, with what the message holds afterwards and whether there was no error.
pub record Message (M : Type 0) : Type 0 where
  pub full_name : Text
  pub marshal : M → Text
  pub unmarshal : Text → M × Bool

module _ {M : Type 0} (message : Message M) where
  unfoldable pub clear : Session → Session
  clear s = elim (lookup message.full_name s.values) [
    | none ↦ s
    | some _ ↦ record {
      id = s.id;
      new_session = s.new_session;
      dirty = true;
      values = erase message.full_name s.values;
    }
  ]

  unfoldable pub set : M → Session → Session
  set m s = record {
    id = s.id;
    new_session = s.new_session;
    dirty = true;
    values = insert message.full_name (message.marshal m) s.values;
  }

  -- `Get`, on what `dest` holds before.
  unfoldable pub get : M → Session → M × Bool
  get dest s = elim (lookup message.full_name s.values) [
    | none ↦ (dest, false)
    | some bytes ↦ message.unmarshal bytes
  ]
