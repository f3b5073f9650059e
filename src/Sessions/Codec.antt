-- ===== src/Sessions/Codec.antt =====
-- components/sessions/codec.go. encoding/json is a parameter, on the entries of `data`, and so is
-- the order in which a Go map is visited.
pub mod RoundTrip
use kweb.Base.{Bool, false, List, [], ◌∷◌, Text, Result, ok, err, ◌>>=◌}
use kweb.Base.Dict.{Dict, insert}
use kweb.Sessions.Session.{Session}

pub record Library : Type 0 where
  pub iterate : Dict Text → List (Text × Text)
  pub json_marshal : List (Text × Text) → Result Text Text
  pub json_unmarshal : Text → Result Text (List (Text × Text))

-- The loop of `Decode`.
unfoldable pub fill : List (Text × Text) → Dict Text → Dict Text
fill [] values = values
fill ((key, value) ∷ entries) values = fill entries (insert key value values)

module _ (lib : Library) where
  unfoldable pub encode : Session → Result Text Text
  encode s = lib.json_marshal (lib.iterate s.values)

  unfoldable pub decode : Text → Text → Result Text Session
  decode id b = do
    entries ← lib.json_unmarshal b
    ok record { id = id; new_session = false; dirty = false; values = fill entries [] }
