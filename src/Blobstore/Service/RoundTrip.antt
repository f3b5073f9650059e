-- ===== src/Blobstore/Service/RoundTrip.antt =====
-- services/blobstore: a blob that is uploaded can be read back and downloaded, when no call fails.
use kweb.Base.{
  ℕ, suc, some, Option-cases, List, [], ◌∷◌, ◌++◌, append-nil, append_assoc, length, Text,
  text_eq_refl, text_eq-false, ok, ◌≡◌, ◌≢◌, inl, inr, refl, ap, ◌∙◌, subst,
}
use kweb.Base.Dict.{Dict, lookup, insert, erase, lookup-insert_self, lookup-erase}
use kweb.Blobstore.Disk.{
  BlobError, Disk, content, touch, create, append, remove, rename, call, next_fault,
}
use kweb.Blobstore.FsStore.{
  path_on_disk, store_at, upload_path_of, filesystem_store, create_blob as fs_create,
}
use kweb.Blobstore.Service.{
  Request, Reader, read_more, read_last, read_error, receive, store_file, check_and_store,
  receive_and_store, create_blob,
}
use kweb.Blobstore.Client.{chunk, upload, last_request}

-- A disk on which no call fails.
abbrev pub disk : Dict Text → ℕ → Disk
disk fs n = record { files = fs; faults = []; drawn = n }

-- A reader without an error, and all that it gives.
abbrev pub Whole : Reader → Type 0
Whole (read_more t r) = Whole r
Whole (read_last t) = Unit
Whole (read_error t e) = ⊥

abbrev pub total : Reader → Text
total (read_more t r) = t ++ total r
total (read_last t) = t
total (read_error t e) = t

pub append-disk :
    (path s t : Text) (fs : Dict Text) (n : ℕ)
    → lookup path fs ≡ some s
    → append path t (disk fs n) ≡ (ok tt, disk (insert path (s ++ t) fs) n)
unfolding append call next_fault
append-disk path s t fs n h = rw (append, call, next_fault, content, h) refl

module _ (hash : Text → Text) (temp : ℕ → Text) (base : Text) (random : ℕ → Text) where
  receive-chunk :
      (tmp so_far t : Text) (rs : List Request) (e : BlobError) (fs : Dict Text) (n : ℕ)
      → lookup tmp fs ≡ some so_far
      → (gs : Dict Text) × (lookup tmp gs ≡ some (so_far ++ t))
        × (receive hash temp (filesystem_store base random) tmp so_far (chunk t rs) e (disk fs n)
            ≡ receive hash temp (filesystem_store base random) tmp (so_far ++ t) rs e (disk gs n))
  unfolding receive
  receive-chunk tmp so_far [] rs e fs n h =
      (fs, rw (append-nil so_far) h, rw (append-nil so_far) refl)
  receive-chunk tmp so_far (c ∷ t) rs e fs n h = (
    insert tmp (so_far ++ (c ∷ t)) fs,
    lookup-insert_self tmp (so_far ++ (c ∷ t)) fs,
    rw (append-disk tmp so_far (c ∷ t) fs n h) refl,
  )

  -- The server receives what the client sends.
  receive-upload :
      (tmp so_far : Text) (r : Reader) (e : BlobError) (fs : Dict Text) (n : ℕ)
      → Whole r
      → lookup tmp fs ≡ some so_far
      → (gs : Dict Text) × (lookup tmp gs ≡ some (so_far ++ total r))
        × (receive hash temp
              (filesystem_store base random)
              tmp
              so_far
              (upload hash so_far r).0
              e
              (disk fs n)
            ≡ (ok (hash (so_far ++ total r), so_far ++ total r), disk gs n))
  unfolding receive upload
  receive-upload tmp so_far (read_more t r) e fs n w h =
      let (gs, at, step) = receive-chunk tmp so_far t (upload hash (so_far ++ t) r).0 e fs n h in
      let (hs, at', rest) = receive-upload tmp (so_far ++ t) r e gs n w at in
      (
        hs,
        subst (λ x. lookup tmp hs ≡ some x) (append_assoc so_far t (total r)) at',
        step
            ∙ subst
                (λ x.
                  receive hash temp (filesystem_store base random) tmp (so_far ++ t)
                    (upload hash (so_far ++ t) r).0 e (disk gs n)
                  ≡ (ok (hash x, x), disk hs n))
                (append_assoc so_far t (total r)) rest,
      )
  receive-upload tmp so_far (read_last t) e fs n w h =
      let (gs, at, step) =
        receive-chunk tmp so_far t (last_request hash (so_far ++ t) ∷ []) e fs n h in
      (
        insert tmp (so_far ++ t ++ []) gs,
        lookup-insert_self tmp (so_far ++ t ++ []) gs ∙ ap some (append-nil (so_far ++ t)),
        step
            ∙ rw (append-disk tmp (so_far ++ t) [] gs n at) (
                ap (λ x. (ok (hash (so_far ++ t), x), disk (insert tmp (so_far ++ t ++ []) gs) n))
                  (append-nil (so_far ++ t))),
      )
  receive-upload tmp so_far (read_error t x) e fs n w h = elim w [ ]

  store_at-disk :
      (p u t : Text) (fs : Dict Text) (n : ℕ)
      → (gs : Dict Text) × (store_at p u t (disk fs n) ≡ (ok (length t), disk gs n))
        × (lookup p gs ≡ some t)
  unfolding store_at touch create rename call next_fault
  store_at-disk p u t fs n =
      let one : Dict Text = insert u [] fs in
      let two : Dict Text = insert u t one in
      let made : append u t (disk one n) ≡ (ok tt, disk two n) =
        append-disk u [] t one n (lookup-insert_self u [] fs) in
      (
        insert p t (erase u two),
        rw (store_at, touch, call, next_fault, create, made, rename, lookup-insert_self u t one)
            refl,
        lookup-insert_self p t (erase u two),
      )

  remove-disk :
      (path q : Text) (fs : Dict Text) (n : ℕ)
      → path ≢ q
      → (gs : Dict Text) × ((remove path (disk fs n)).1 ≡ disk gs n) × (lookup q gs ≡ lookup q fs)
  unfolding remove call next_fault
  remove-disk path q fs n ne = elim (Option-cases (lookup path fs)) [
    | inl e ↦ (fs, rw (remove, call, next_fault, e) refl, refl)
    | inr (t, e) ↦ (
      erase path fs,
      rw (remove, call, next_fault, e) refl,
      rw (lookup-erase path q fs, text_eq-false path q ne) refl,
    )
  ]

  store_file-disk :
      (tmp p t : Text) (fs : Dict Text) (n : ℕ)
      → path_on_disk base (hash t) ≡ some p
      → lookup tmp fs ≡ some t
      → (gs : Dict Text) × (store_file hash temp
            (filesystem_store base random)
            tmp
            (hash t)
            (disk fs n)
          ≡ (ok (length t), disk gs (suc n)))
        × (lookup p gs ≡ some t)
  unfolding fs_create
  store_file-disk tmp p t fs n hp h =
      let (gs, stored, at) =
        store_at-disk p (upload_path_of base random p (disk fs n)) t fs (suc n) in
      let same : content tmp (disk fs n) ≡ t = rw (content, h) refl in
      (
        gs,
        ap (λ x. fs_create base random (hash t) x (disk fs n)) same ∙ rw (fs_create, hp) stored,
        at,
      )

  receive_and_store-disk :
      (tmp p : Text) (r : Reader) (e : BlobError) (fs : Dict Text) (n : ℕ)
      → Whole r
      → path_on_disk base (hash (total r)) ≡ some p
      → lookup tmp fs ≡ some []
      → (gs : Dict Text) × (receive_and_store hash temp
            (filesystem_store base random)
            tmp
            (upload hash [] r).0
            e
            (ok tt)
            (disk fs n)
          ≡ (ok tt, disk gs (suc n)))
        × (lookup p gs ≡ some (total r))
  unfolding receive_and_store check_and_store touch call next_fault
  receive_and_store-disk tmp p r e fs n w hp h =
      let (gs, at, received) = receive-upload tmp [] r e fs n w h in
      let (hs, stored, at') = store_file-disk tmp p (total r) gs n hp at in
      (
        hs,
        rw
            (
              receive_and_store,
              received,
              check_and_store,
              text_eq_refl (hash (total r)),
              touch,
              call,
              next_fault,
              stored,
            )
            refl,
        at',
      )

  pub create_blob-disk :
      (p : Text) (r : Reader) (e : BlobError) (fs : Dict Text) (n : ℕ)
      → Whole r
      → path_on_disk base (hash (total r)) ≡ some p
      → temp n ≢ p
      → (gs : Dict Text) × (create_blob hash temp
            (filesystem_store base random)
            (upload hash [] r).0
            e
            (ok tt)
            (disk fs n)
          ≡ (ok tt, disk gs (suc (suc n))))
        × (lookup p gs ≡ some (total r))
  unfolding create_blob create call next_fault
  create_blob-disk p r e fs n w hp ne =
      let made : Dict Text = insert (temp n) [] fs in
      let (gs, stored, at) =
        receive_and_store-disk (temp n) p r e made (suc n) w hp
          (lookup-insert_self (temp n) [] fs) in
      let (hs, removed, same) = remove-disk (temp n) p gs (suc (suc n)) ne in
      (hs, rw (create_blob, create, call, next_fault, stored, removed) refl, same ∙ at)
