-- ===== src/Blobstore/FsStore/Atomic.antt =====
-- services/blobstore/pkg/server/fs_store.go: a blob is stored whole or not at all.
use kweb.Base.{ℕ, some, [], ◌∷◌, ◌++◌, length, Text, ◌≡◌, ◌≢◌, refl, sym, subst}
use kweb.Base.Dict.{Dict}
use kweb.Blobstore.Disk.{Disk, Io, ◌>>=◌, done, touch, create, remove, rename}
use kweb.Blobstore.Disk.Logic.{
  Holds, after-Holds, touch-files, clean-Holds, Same, Uploading, Moved, touch-Holds, create-Holds,
  append-Holds, remove-Same, rename-Holds,
}
use kweb.Blobstore.FsStore.{
  path_on_disk, write_upload, move_upload, store_at, drew, upload_path_of, create_blob,
}

longer : (p t : Text) (c : ℕ) → p ≢ p ++ c ∷ t
longer [] t c h = cc
longer (x ∷ p) t c h = longer p t c (cc h)

module _ (p u t : Text) (fs : Dict Text) (ne : p ≢ u) where
  -- What is written under the upload path is the text, or there is an error.
  written-Holds :
      (d : Disk)
      → Uploading u fs [] d.files
      → Holds (λ _ gs. Uploading u fs t gs) (Same u fs) (write_upload u t d)
  written-Holds d h =
      clean-Holds (λ _ gs. Uploading u fs t gs) (Same u fs) (Same u fs) _ touch
        (after-Holds (λ _ gs. Uploading u fs t gs) (λ _ gs. Uploading u fs t gs) (Same u fs) _ _
          (append-Holds u fs [] t d h)
          (λ _ d' h'. touch-Holds (Uploading u fs t) (Same u fs) d' h' h'.0))
        (λ d' h'. subst (Same u fs) (sym (touch-files d')) h')

  move_upload-Holds :
      (d : Disk)
      → Uploading u fs [] d.files
      → Holds (λ _ gs. Moved u fs p t gs) (Same u fs) (move_upload p u t d)
  move_upload-Holds d h =
      clean-Holds (λ _ gs. Moved u fs p t gs) (Same u fs) (Same u fs) _ (remove u)
        (after-Holds (λ _ gs. Uploading u fs t gs) (λ _ gs. Moved u fs p t gs) (Same u fs)
          (write_upload u t d) (λ _. rename u p) (written-Holds d h)
          (λ _ d' h'. rename-Holds u fs p t d' ne h'))
        (remove-Same u fs)

  store_at-Holds :
      (d : Disk)
      → Same u fs d.files
      → Holds (λ n gs. (n ≡ length t) × Moved u fs p t gs) (Same u fs) (store_at p u t d)
  unfolding store_at
  store_at-Holds d h =
      let Q : ℕ → Dict Text → Type 0 = λ n gs. (n ≡ length t) × Moved u fs p t gs in
      let finish : Io ℕ = move_upload p u t >>= λ _. done (length t) in
      after-Holds (λ _ gs. Same u fs gs) Q (Same u fs) (touch d) (λ _. create u >>= λ _. finish)
        (touch-Holds (Same u fs) (Same u fs) d h h)
        (λ _ d' h'.
          after-Holds (λ _ gs. Uploading u fs [] gs) Q (Same u fs) (create u d') (λ _. finish)
            (create-Holds u fs d' h')
            (λ _ d'' h''.
              after-Holds (λ _ gs. Moved u fs p t gs) Q (Same u fs) (move_upload p u t d'')
                (λ _. done (length t)) (move_upload-Holds d'' h'') (λ _ d3 m. (refl, m))))

module _ (base : Text) (random : ℕ → Text) where
  -- Whatever calls of the system fail, CreateBlob either succeeds, and then the file of the hash
  -- holds the content, its length is returned, the upload file is gone and all other files are as
  -- before; or it fails, and then all files but the upload file are as before. The hash is one for
  -- which there is a path.
  pub create_blob-Atomic :
      (sha256 t p : Text) (d : Disk)
      → path_on_disk base sha256 ≡ some p
      → Holds
          (λ n gs. (n ≡ length t) × Moved (upload_path_of base random p d) d.files p t gs)
          (Same (upload_path_of base random p d) d.files)
          (create_blob base random sha256 t d)
  unfolding create_blob
  create_blob-Atomic sha256 t p d h =
      rw (create_blob, h)
        (store_at-Holds p (upload_path_of base random p d) t d.files (longer p _ 46) (drew d)
          (λ q ne. refl))
