-- ===== src/Blobstore/Service.antt =====
-- services/blobstore/pkg/server/blobstore_server.go, over a store of fs_store.go. A stream is the list
-- of the messages that it gives, and the error behind them.
pub mod Sound
pub mod RoundTrip
use kweb.Base.{
  ℕ, suc, Bool, true, false, if◌then◌else◌, Option, none, some, List, [], ◌∷◌, ◌++◌, Text, text_eq,
  Result, ok, err,
}
use kweb.Blobstore.Disk.{
  BlobError, hash_mismatch, stream_failed, read_failed, Disk, Outcome, Io, ◌>>=◌, finally, done,
  fail, content, touch, create, append, remove,
}
use kweb.Blobstore.FsStore.{Store}

-- CreateBlobRequest
pub record Request : Type 0 where
  pub contents : Text
  pub sha256 : Text
  pub last : Bool

-- What an io.Reader gives: bytes and no error, bytes and the end, or bytes and another error.
pub data Reader : Type 0 where
  read_more : Text → Reader → Reader
  read_last : Text → Reader
  read_error : Text → Text → Reader

-- `hash` is that of crypto/sha256, `temp` the name that os.CreateTemp draws.
module _ (hash : Text → Text) (temp : ℕ → Text) (store : Store) where
  -- The loop of `CreateBlob`, on the data so far: the declared hash and all the data.
  unfoldable pub receive : Text → Text → List Request → BlobError → Io (Text × Text)
  receive tmp so_far [] e = fail e
  receive tmp so_far (r ∷ rs) e =
      let rest = receive tmp (so_far ++ r.contents) rs e in
      append tmp r.contents >>= λ _. if r.last then done (r.sha256, so_far ++ r.contents) else rest

  -- The temporary file given to the store.
  abbrev pub store_file : Text → Text → Io ℕ
  store_file tmp sha256 d = store.create_blob sha256 (content tmp d) d

  abbrev pub replied : Result BlobError (Unit {0}) → Io (Unit {0})
  replied reply d = (reply, d)

  -- The end of `CreateBlob`; the reply may fail to be sent.
  unfoldable pub check_and_store : Text → Result BlobError (Unit {0}) → Text × Text → Io (Unit {0})
  check_and_store tmp reply (declared, received) =
      let stored : Io (Unit {0}) =
        touch >>= λ _. store_file tmp (hash received) >>= λ _. replied reply in
      if text_eq (hash received) declared then stored else fail hash_mismatch

  unfoldable pub receive_and_store :
      Text → List Request → BlobError → Result BlobError (Unit {0}) → Io (Unit {0})
  unfolding receive check_and_store
  receive_and_store tmp rs e reply = receive tmp [] rs e >>= check_and_store tmp reply

  abbrev pub drew : Disk → Disk
  drew d = record { files = d.files; faults = d.faults; drawn = suc d.drawn }

  -- `CreateBlob`, with the deferred call of Remove.
  unfoldable pub create_blob :
      List Request → BlobError → Result BlobError (Unit {0}) → Io (Unit {0})
  unfolding receive_and_store
  create_blob rs e reply d =
      (create (temp d.drawn) >>= λ _.
      finally (receive_and_store (temp d.drawn) rs e reply) (remove (temp d.drawn)))
        (drew d)

-- The loop of `GetBlob`: what is sent, and how it ends. `refused` are the errors of Send.
module _ (refused : ℕ → Option BlobError) where
  abbrev pub sent :
      Option BlobError
      → Text
      → List Text × Result BlobError (Unit {0})
      → List Text × Result BlobError (Unit {0})
  sent (some e) t rest = ([], err e)
  sent none t (ts, r) = (t ∷ ts, r)

  unfoldable pub send_all : ℕ → Reader → List Text × Result BlobError (Unit {0})
  send_all i (read_more t r) = sent (refused i) t (send_all (suc i) r)
  send_all i (read_last t) = sent (refused i) t ([], ok tt)
  send_all i (read_error t e) = ([], err (read_failed e))
