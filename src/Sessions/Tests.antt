-- ===== src/Sessions/Tests.antt =====
-- Runs of components/sessions on concrete requests, and the results applied to them.
use kweb.Base.{
  ℕ, suc, true, false, if◌then◌else◌, Bool-cases, text_eq, text_eq_iff, none, some, List, [], ◌∷◌,
  Text, codes, Result, ok, err, ◌≡◌, ◌≢◌, inl, inr, refl, ap,
}
use kweb.Base.Dict.{lookup, insert}
use kweb.Components.Request.{Request, no_cookie}
use kweb.Components.Response.{error_response, http_error}
use kweb.Components.Serve.{Handler, serve_http}
use kweb.Sessions.Session.{Session, Message, set, get, clear}
use kweb.Sessions.Session.Laws.{get_laws}
use kweb.Sessions.Codec.{Library, encode, decode}
use kweb.Sessions.Codec.RoundTrip.{Lawful, decode-encode}
use kweb.Sessions.Storage.{Storage, Distinct, Alike, Keeps}
use kweb.Sessions.Memory.{MemorySessionStorage, storage, write_session, write_named}
use kweb.Sessions.Memory.Laws.{storage-Keeps}
use kweb.Sessions.Context.{Context, with_session, Error, other_error}
use kweb.Sessions.Filter.{fresh_session, before_request, find_session, process_request}
use kweb.Sessions.Filter.Persistence.{Persisted, Sent, process_request-Persisted}
use kweb.Sessions.Filter.Safety.{Origin, before_request-Origin, filters, serve_http_error}

abbrev kind : Message Text
kind = record { full_name = codes "s"; marshal = λ t. t; unmarshal = λ t. (t, true) }

abbrev other_kind : Message Text
other_kind = record { full_name = codes "u"; marshal = λ t. t; unmarshal = λ t. (t, true) }

-- Sessions with one value of `kind`, which stands for itself.
pub marshal_one : List (Text × Text) → Result Text Text
marshal_one ((k, v) ∷ []) = if text_eq k (codes "s") then ok v else err []
marshal_one _ = err []

abbrev pub lib : Library
lib = record {
  iterate = λ m. m;
  json_marshal = marshal_one;
  json_unmarshal = λ b. ok ((codes "s", b) ∷ []);
}

marshal_one_key :
    (k v b : Text)
    → marshal_one ((k, v) ∷ []) ≡ ok b
    → ◌≡◌ {A = List (Text × Text)} ((codes "s", b) ∷ []) ((k, v) ∷ [])
unfolding marshal_one
marshal_one_key k v b = elim (Bool-cases (text_eq k (codes "s"))) [
  | inl e ↦ rw (e, marshal_one) (λ h. cc ((text_eq_iff k (codes "s")).0 e, h))
  | inr e ↦ rw (e, marshal_one) (λ h. cc)
]

marshal_one_lem :
    (entries : List (Text × Text)) (b : Text)
    → marshal_one entries ≡ ok b
    → ◌≡◌ {A = List (Text × Text)} ((codes "s", b) ∷ []) entries
unfolding marshal_one
marshal_one_lem ((k, v) ∷ []) b h = marshal_one_key k v b h
marshal_one_lem [] b h = cc
marshal_one_lem (_ ∷ _ ∷ _) b h = cc

pub lawful : Lawful lib
lawful = record {
  iterates = λ m d. (d, λ k. refl);
  reads_back = λ entries b h. ap ok (marshal_one_lem entries b h);
}

pub suc_nil : (n : ℕ) → suc n ∷ [] ≢ []
suc_nil n h = cc

abbrev memory : Storage MemorySessionStorage
memory = storage lib (λ n. suc n ∷ [])

abbrev keeps : Keeps memory
keeps = storage-Keeps lib (λ n. suc n ∷ []) lawful suc_nil

abbrev split : Text → Result Text (Text × Text)
split t = err []

abbrev pub get_page : Request
get_page = record {
  cookie = λ k. err no_cookie;
  host = codes "localhost";
  scheme = [];
  forwarded_proto = [];
  parse_form = none;
  form = λ k. [];
  query = λ k. [];
}

abbrev start : Context MemorySessionStorage ℕ
start = record {
  session = fresh_session;
  store = record { sessions = []; drawn = 0 };
  set_cookies = [];
  rest = 0;
}

abbrev remember : Handler Error (Context MemorySessionStorage ℕ)
remember req w = ((error_response 404, none), with_session (set kind (codes "v") w.session) w)

abbrev remembered : Context MemorySessionStorage ℕ
remembered = (remember get_page start).1

get_laws_example :
    (get kind [] (set kind (codes "v") fresh_session) ≡ kind.unmarshal (kind.marshal (codes "v")))
    × (get kind [] (clear kind fresh_session) ≡ ([], false))
    × (kind.full_name ≢ other_kind.full_name
        → (get other_kind [] (set kind (codes "v") fresh_session) ≡ get other_kind [] fresh_session)
          × (get other_kind [] (clear kind fresh_session) ≡ get other_kind [] fresh_session))
get_laws_example = get_laws kind other_kind (codes "v") [] [] fresh_session

remembered-Distinct : Distinct remembered.session.values
unfolding set insert lookup
remembered-Distinct = (refl, tt)

encoded : encode lib remembered.session ≡ ok (codes "v")
unfolding encode set insert marshal_one text_eq
encoded = refl

decode-encode_example :
    (y : Session) × (decode lib (codes "id") (codes "v") ≡ ok y)
    × (y.id ≡ codes "id")
    × (y.new_session ≡ false)
    × (y.dirty ≡ false)
    × Alike y.values remembered.session.values
decode-encode_example =
    decode-encode lib remembered.session (codes "id") (codes "v") lawful remembered-Distinct encoded

remembered_dirty : remembered.session.dirty ≡ true
unfolding set
remembered_dirty = refl

no_session : before_request memory get_page start.store ≡ ok fresh_session
unfolding before_request find_session text_eq
no_session = refl

-- The session of `remembered` under the first ID.
abbrev named : Session
named = record {
  id = 1 ∷ [];
  new_session = true;
  dirty = true;
  values = (codes "s", codes "v") ∷ [];
}

abbrev kept : MemorySessionStorage
kept = record { sessions = (1 ∷ [], codes "v") ∷ []; drawn = 1 }

writes : memory.write_session remembered.session remembered.store ≡ (ok tt, named, kept)
unfolding set insert encode marshal_one write_session write_named text_eq
writes = refl

process_request-Persisted_example :
    (w2 : Context MemorySessionStorage ℕ) × (process_request split 0 memory remember get_page start
      ≡ ((error_response 404, none), w2))
    × Persisted memory w2.session w2.store
    × Alike w2.session.values remembered.session.values
    × Sent split 0 get_page remembered w2
process_request-Persisted_example =
    process_request-Persisted split 0 memory keeps remember get_page start remembered fresh_session
      named kept (error_response 404) no_session refl remembered_dirty remembered-Distinct writes

before_request-Origin_example : Origin memory get_page start.store fresh_session
before_request-Origin_example =
    before_request-Origin memory get_page start.store fresh_session no_session

abbrev refuse : Handler Error (Context MemorySessionStorage ℕ)
refuse req w = ((error_response 403, some (other_error [])), w)

serve_http_error_example :
    serve_http (λ n. []) (filters split 0 (λ n. []) memory) refuse get_page start
    ≡ (http_error [] 500 ∷ [], start)
serve_http_error_example =
    serve_http_error split 0 (λ n. []) memory refuse get_page start start fresh_session
      (error_response 403) (other_error []) no_session refl

storage-Keeps_example : Keeps memory
storage-Keeps_example = storage-Keeps lib (λ n. suc n ∷ []) lawful suc_nil
