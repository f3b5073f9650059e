-- ===== src/Blobstore/Client/RoundTrip.antt =====
-- services/blobstore: a blob that is uploaded can be read back and downloaded, when no call fails.
use kweb.Base.{
  ℕ, suc, true, Option, none, some, [], ◌∷◌, ◌++◌, append-nil, append_assoc, Text, text_eq,
  text_eq_refl, ok, ◌≡◌, ◌≢◌, refl, sym, ap, ◌∙◌, subst,
}
use kweb.Base.Dict.{Dict, lookup, insert, lookup-insert_self}
use kweb.Blobstore.Disk.{BlobError, create, touch, call, next_fault, read_file}
use kweb.Blobstore.FsStore.{path_on_disk, filesystem_store, open_blob}
use kweb.Blobstore.Service.{Reader, read_more, read_last, read_error, create_blob, send_all}
use kweb.Blobstore.Service.RoundTrip.{disk, Whole, total, append-disk, create_blob-disk}
use kweb.Blobstore.Client.{upload, receive_all, download}

-- Nothing is refused.
abbrev pub accepted : ℕ → Option BlobError
accepted i = none

module _ (hash : Text → Text) where
  -- The client hashes all that the reader gives.
  upload-hash :
      (so_far : Text) (r : Reader)
      → Whole r
      → (upload hash so_far r).1 ≡ ok (hash (so_far ++ total r))
  unfolding upload
  upload-hash so_far (read_more t r) w =
      upload-hash (so_far ++ t) r w ∙ ap (λ x. ok (hash x)) (append_assoc so_far t (total r))
  upload-hash so_far (read_last t) w = refl
  upload-hash so_far (read_error t e) w = elim w [ ]

  receive_all-sent :
      (tmp so_far : Text) (r : Reader) (i : ℕ) (fs : Dict Text) (n : ℕ)
      → Whole r
      → lookup tmp fs ≡ some so_far
      → (gs : Dict Text) × (receive_all hash tmp so_far (send_all accepted i r).0 none (disk fs n)
          ≡ (ok (so_far ++ total r), disk gs n))
        × (lookup tmp gs ≡ some (so_far ++ total r))
  unfolding receive_all send_all
  receive_all-sent tmp so_far (read_more [] r) i fs n w h =
      receive_all-sent tmp so_far r (suc i) fs n w h
  receive_all-sent tmp so_far (read_more (c ∷ t) r) i fs n w h =
      let (gs, e, at) =
        receive_all-sent tmp (so_far ++ (c ∷ t)) r (suc i) (insert tmp (so_far ++ (c ∷ t)) fs) n w
          (lookup-insert_self tmp (so_far ++ (c ∷ t)) fs) in
      (
        gs,
        rw (append-disk tmp so_far (c ∷ t) fs n h) (
            subst
              (λ x.
                receive_all hash tmp (so_far ++ (c ∷ t)) (send_all accepted (suc i) r).0 none
                  (disk (insert tmp (so_far ++ (c ∷ t)) fs) n)
                ≡ (ok x, disk gs n))
              (append_assoc so_far (c ∷ t) (total r)) e),
        subst (λ x. lookup tmp gs ≡ some x) (append_assoc so_far (c ∷ t) (total r)) at,
      )
  receive_all-sent tmp so_far (read_last []) i fs n w h = (
    fs,
    ap (λ x. (ok x, disk fs n)) (sym (append-nil so_far)),
    h ∙ ap some (sym (append-nil so_far)),
  )
  receive_all-sent tmp so_far (read_last (c ∷ t)) i fs n w h = (
    insert tmp (so_far ++ (c ∷ t)) fs,
    rw (append-disk tmp so_far (c ∷ t) fs n h) refl,
    lookup-insert_self tmp (so_far ++ (c ∷ t)) fs,
  )
  receive_all-sent tmp so_far (read_error t e) i fs n w h = elim w [ ]

  download-sent :
      (tmp t : Text) (r : Reader) (fs : Dict Text) (n : ℕ)
      → Whole r
      → total r ≡ t
      → (gs : Dict Text) × (download hash tmp (hash t) (send_all accepted 0 r).0 none (disk fs n)
          ≡ (ok tmp, disk gs n))
        × (lookup tmp gs ≡ some t)
  unfolding download create touch call next_fault
  download-sent tmp t r fs n w same =
      let (gs, e, at) =
        receive_all-sent tmp [] r 0 (insert tmp [] fs) n w (lookup-insert_self tmp [] fs) in
      let checked : text_eq (hash (total r)) (hash t) ≡ true =
        subst (λ x. text_eq (hash (total r)) (hash x) ≡ true) same
          (text_eq_refl (hash (total r))) in
      (gs, rw (download, create, call, next_fault, e, touch, checked) refl, at ∙ ap some same)

module _ (hash : Text → Text) (temp : ℕ → Text) (base : Text) (random : ℕ → Text) where
  -- On disks on which no call fails: if a reader gives a text without an error, then what Upload
  -- sends is stored by CreateBlob of the server, Upload has the hash of the text, Open of the server
  -- gives the text under this hash; and however the server reads it, Download of the hash from what
  -- GetBlob sends leaves the text in its temporary file. The text's hash has a path, which is not
  -- that of the server's temporary file.
  pub upload-download :
      (t p : Text) (r : Reader) (e : BlobError) (fs : Dict Text) (n : ℕ)
      → Whole r
      → total r ≡ t
      → path_on_disk base (hash t) ≡ some p
      → temp n ≢ p
      → (gs : Dict Text) × ((upload hash [] r).1 ≡ ok (hash t))
        × (create_blob hash temp
              (filesystem_store base random)
              (upload hash [] r).0
              e
              (ok tt)
              (disk fs n)
            ≡ (ok tt, disk gs (suc (suc n))))
        × (open_blob base random (hash t) (disk gs (suc (suc n))) ≡ (ok t, disk gs (suc (suc n))))
        × ((tmp : Text) (r' : Reader) (fs' : Dict Text) (m : ℕ)
            → Whole r'
            → total r' ≡ t
            → (hs : Dict Text) × (download hash tmp
                  (hash t)
                  (send_all accepted 0 r').0
                  none
                  (disk fs' m)
                ≡ (ok tmp, disk hs m))
              × (lookup tmp hs ≡ some t))
  unfolding open_blob read_file call next_fault
  upload-download t p r e fs n w same hp ne =
      let (gs, stored, at) =
        create_blob-disk hash temp base random p r e fs n w
          (subst (λ x. path_on_disk base (hash x) ≡ some p) (sym same) hp) ne in
      (
        gs,
        upload-hash hash [] r w ∙ ap (λ x. ok (hash x)) same,
        stored,
        rw (open_blob, hp, read_file, call, next_fault, at)
            (ap (λ x. (ok x, disk gs (suc (suc n)))) same),
        λ tmp r' fs' m w' same'. download-sent hash tmp t r' fs' m w' same',
      )
