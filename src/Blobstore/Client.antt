-- ===== src/Blobstore/Client.antt =====
-- services/blobstore/pkg/blobstoreclient/client.go.
pub mod RoundTrip
pub mod Checked
use kweb.Base.{
  ℕ, suc, Bool, true, false, if◌then◌else◌, Option, none, some, List, [], ◌∷◌, ◌++◌, Text, text_eq,
  Result, ok, err,
}
use kweb.Blobstore.Disk.{
  BlobError, hash_mismatch, stream_failed, read_failed, Disk, Outcome, Io, ◌>>=◌, or_else, done,
  fail, touch, create, append, remove,
}
use kweb.Blobstore.Service.{Request, Reader, read_more, read_last, read_error}

-- A chunk that is not empty is sent.
abbrev pub chunk : Text → List Request → List Request
chunk [] rest = rest
chunk (c ∷ t) rest = record { contents = c ∷ t; sha256 = []; last = false } ∷ rest

module _ (hash : Text → Text) where
  abbrev pub last_request : Text → Request
  last_request so_far = record { contents = []; sha256 = hash so_far; last = true }

  -- The loop of `Upload`, on the data so far: the messages, and the hash or an error of the reader.
  unfoldable pub upload : Text → Reader → List Request × Result BlobError Text
  upload so_far (read_more t r) = let (rest, o) = upload (so_far ++ t) r in (chunk t rest, o)
  upload so_far (read_last t) = (chunk t (last_request (so_far ++ t) ∷ []), ok (hash (so_far ++ t)))
  upload so_far (read_error t e) = (chunk t [], err (read_failed e))

  -- The loop of `Download`, on the data so far; a message without data is not written.
  unfoldable pub receive_all : Text → Text → List Text → Option BlobError → Io Text
  receive_all tmp so_far [] none = done so_far
  receive_all tmp so_far [] (some e) = fail e
  receive_all tmp so_far ([] ∷ ts) e = receive_all tmp so_far ts e
  receive_all tmp so_far ((c ∷ t) ∷ ts) e =
      let rest = receive_all tmp (so_far ++ (c ∷ t)) ts e in append tmp (c ∷ t) >>= λ _. rest

  -- `WriteTempFile` around it, with the deferred calls of Close and Remove.
  abbrev pub write_data : Text → List Text → Option BlobError → Io Text
  write_data tmp ts e = or_else (receive_all tmp [] ts e >>= λ t. touch >>= λ _. done t) touch

  abbrev pub write_temp_file : Text → List Text → Option BlobError → Io Text
  write_temp_file tmp ts e = create tmp >>= λ _. or_else (write_data tmp ts e) (remove tmp)

  -- The check of the hash behind it; a file with another hash is removed.
  abbrev pub check_hash : Text → Text → Text → Io Text
  check_hash tmp blob_hash t =
      if text_eq (hash t) blob_hash then done tmp else (λ d. (err hash_mismatch, (remove tmp d).1))

  -- `Download`: the path of the file, whose name `tmp` os.CreateTemp draws.
  unfoldable pub download : Text → Text → List Text → Option BlobError → Io Text
  unfolding receive_all
  download tmp blob_hash ts e = write_temp_file tmp ts e >>= check_hash tmp blob_hash
