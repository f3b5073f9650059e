-- ===== src/Blobstore/Client/Checked.antt =====
-- services/blobstore/pkg/blobstoreclient/client.go: what Download returns has the hash asked for.
use kweb.Base.{
  Bool-cases, Option, none, some, List, [], ◌∷◌, ◌++◌, Text, text_eq, text_eq_iff, ◌≡◌, refl, sym,
  subst, inl, inr,
}
use kweb.Base.Dict.{Dict, lookup}
use kweb.Blobstore.Disk.{BlobError, Disk, ◌>>=◌, or_else, done, touch, create, append, remove}
use kweb.Blobstore.Disk.Logic.{
  Holds, after-Holds, clean-Holds, Same, Uploading, touch-files, touch-Holds, create-Holds,
  append-Holds, remove-Same,
}
use kweb.Blobstore.Client.{receive_all, write_data, write_temp_file, check_hash, download}

module _ (hash : Text → Text) (tmp : Text) (fs : Dict Text) where
  receive_all-Holds :
      (so_far : Text) (ts : List Text) (e : Option BlobError) (d : Disk)
      → Uploading tmp fs so_far d.files
      → Holds (λ t gs. Uploading tmp fs t gs) (Same tmp fs) (receive_all hash tmp so_far ts e d)
  unfolding receive_all
  receive_all-Holds so_far [] none d h = h
  receive_all-Holds so_far [] (some e) d h = h.0
  receive_all-Holds so_far ([] ∷ ts) e d h = receive_all-Holds so_far ts e d h
  receive_all-Holds so_far ((c ∷ t) ∷ ts) e d h =
      after-Holds (λ _ gs. Uploading tmp fs (so_far ++ (c ∷ t)) gs) (λ x gs. Uploading tmp fs x gs)
        (Same tmp fs) (append tmp (c ∷ t) d) (λ _. receive_all hash tmp (so_far ++ (c ∷ t)) ts e)
        (append-Holds tmp fs so_far (c ∷ t) d h)
        (λ _ d' h'. receive_all-Holds (so_far ++ (c ∷ t)) ts e d' h')

  write_data-Holds :
      (ts : List Text) (e : Option BlobError) (d : Disk)
      → Uploading tmp fs [] d.files
      → Holds (λ t gs. Uploading tmp fs t gs) (Same tmp fs) (write_data hash tmp ts e d)
  write_data-Holds ts e d h =
      clean-Holds (λ t gs. Uploading tmp fs t gs) (Same tmp fs) (Same tmp fs) _ touch
        (after-Holds (λ t gs. Uploading tmp fs t gs) (λ t gs. Uploading tmp fs t gs) (Same tmp fs)
          (receive_all hash tmp [] ts e d) (λ t. touch >>= λ _. done t)
          (receive_all-Holds [] ts e d h)
          (λ t d' h'.
            after-Holds (λ _ gs. Uploading tmp fs t gs) (λ x gs. Uploading tmp fs x gs)
              (Same tmp fs) (touch d') (λ _. done t)
              (touch-Holds (Uploading tmp fs t) (Same tmp fs) d' h' h'.0) (λ _ d'' h''. h'')))
        (λ d' h'. subst (Same tmp fs) (sym (touch-files d')) h')

  write_temp_file-Holds :
      (ts : List Text) (e : Option BlobError) (d : Disk)
      → Same tmp fs d.files
      → Holds (λ t gs. Uploading tmp fs t gs) (Same tmp fs) (write_temp_file hash tmp ts e d)
  write_temp_file-Holds ts e d h =
      after-Holds (λ _ gs. Uploading tmp fs [] gs) (λ t gs. Uploading tmp fs t gs) (Same tmp fs)
        (create tmp d) (λ _. or_else (write_data hash tmp ts e) (remove tmp))
        (create-Holds tmp fs d h)
        (λ _ d' h'.
          clean-Holds (λ t gs. Uploading tmp fs t gs) (Same tmp fs) (Same tmp fs) _ (remove tmp)
            (write_data-Holds ts e d' h') (remove-Same tmp fs))

-- The file at a path has content with a hash.
abbrev pub HasHash : (Text → Text) → Text → Text → Dict Text → Type 0
HasHash hash path blob_hash gs = (t : Text) × (lookup path gs ≡ some t) × (hash t ≡ blob_hash)

-- Whatever the stream gives and whatever calls of the system fail: if Download returns a path, it
-- is that of the temporary file, whose content has the hash that was asked for; and all other files
-- are as before, with an error too.
pub download-Checked :
    (hash : Text → Text) (tmp blob_hash : Text) (ts : List Text) (e : Option BlobError) (d : Disk)
    → Holds
        (λ path gs. (path ≡ tmp) × HasHash hash tmp blob_hash gs × Same tmp d.files gs)
        (Same tmp d.files)
        (download hash tmp blob_hash ts e d)
unfolding download
download-Checked hash tmp blob_hash ts e d =
    after-Holds (λ t gs. Uploading tmp d.files t gs)
      (λ path gs. (path ≡ tmp) × HasHash hash tmp blob_hash gs × Same tmp d.files gs)
      (Same tmp d.files) (write_temp_file hash tmp ts e d) (check_hash hash tmp blob_hash)
      (write_temp_file-Holds hash tmp d.files ts e d (λ q ne. refl))
      (λ t d' (others, at). elim (Bool-cases (text_eq (hash t) blob_hash)) [
        | inl b ↦ rw b (refl, (t, at, (text_eq_iff (hash t) blob_hash).0 b), others)
        | inr b ↦ rw b (remove-Same tmp d.files d' others)
      ])
