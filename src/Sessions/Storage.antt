-- ===== src/Sessions/Storage.antt =====
-- components/sessions/storage.go: the storage interface, with what its implementations promise.
use kweb.Base.{Option, none, some, [], ◌∷◌, Text, Result, ok, ◌≡◌, ◌≢◌}
use kweb.Base.Dict.{Dict, lookup}
use kweb.Sessions.Session.{Session}

-- The state of a storage is explicit. `WriteSession` may also assign the session's ID.
pub record Storage (S : Type 0) : Type 0 where
  pub lookup_session : Text → S → Result Text (Option Session)
  pub write_session : Session → S → Result Text (Unit {0}) × Session × S

-- No key stands twice in a map.
abbrev pub Distinct : Dict Text → Type 0
Distinct [] = Unit
Distinct ((k, v) ∷ m) = (lookup k m ≡ none) × Distinct m

abbrev pub Alike : Dict Text → Dict Text → Type 0
Alike m m' = (k : Text) → lookup k m ≡ lookup k m'

-- A stored session is found under its ID with the values it was written with.
abbrev pub Found : {S : Type 0} → Storage S → S → Session → Type 0
Found st s x =
    (y : Session) × (st.lookup_session x.id s ≡ ok (some y))
    × (y.id ≡ x.id)
    × Alike y.values x.values

-- A successful write keeps the values and the flag, leaves the session with an ID, and stores it.
abbrev pub Kept : {S : Type 0} → Storage S → Session → Result Text (Unit {0}) × Session × S → Type 0
Kept st x (r, x', s') =
    r ≡ ok tt
    → (x'.values ≡ x.values)
      × (x'.new_session ≡ x.new_session)
      × (x'.id ≢ [])
      × (Distinct x.values → Found st s' x')

abbrev pub Keeps : {S : Type 0} → Storage S → Type 0
Keeps {S} st = (x : Session) (s : S) → Kept st x (st.write_session x s)
