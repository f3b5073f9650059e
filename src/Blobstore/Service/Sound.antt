-- ===== src/Blobstore/Service/Sound.antt =====
-- services/blobstore/pkg/server: every blob of a store has the hash that it is stored under.
use kweb.Base.{
  ℕ, Bool-cases, some, Option-cases, List, [], ◌∷◌, ◌++◌, Text, text_eq, text_eq_iff,
  text_eq_differ, Result, ok, err, ◌≡◌, ◌≢◌, inl, inr, refl, sym, ap, ◌∙◌, subst,
}
use kweb.Base.Dict.{Dict, lookup}
use kweb.Blobstore.Disk.{
  BlobError, Disk, Outcome, Io, ◌>>=◌, finally, content, touch, create, append, remove,
}
use kweb.Blobstore.Disk.Logic.{
  Holds, after-Holds, weaken-Holds, always-Holds, Same, Uploading, Moved, touch-Holds, create-Holds,
  append-Holds, remove-Same,
}
use kweb.Blobstore.FsStore.{
  create_blob as fs_create, path_on_disk, upload_path_of, filesystem_store,
}
use kweb.Blobstore.FsStore.Atomic.{create_blob-Atomic}
use kweb.Blobstore.FsStore.Paths.{path_on_disk-inj, path_on_disk-upload}
use kweb.Blobstore.Service.{
  Request, receive, store_file, replied, check_and_store, receive_and_store, drew, create_blob,
}

module _ (hash : Text → Text) (base : Text) where
  -- A path that is not that of a hash.
  abbrev pub Other : Text → Type 0
  Other u = (sha256 : Text) → path_on_disk base sha256 ≢ some u

  -- The file of a hash has content with that hash.
  abbrev pub Sound : Dict Text → Type 0
  Sound gs =
      (sha256 p t : Text)
      → path_on_disk base sha256 ≡ some p
      → lookup p gs ≡ some t
      → hash t ≡ sha256

  Same-Sound : (u : Text) (fs gs : Dict Text) → Other u → Same u fs gs → Sound fs → Sound gs
  Same-Sound u fs gs other same h sha256 p t hp ht =
      h sha256 p t hp (sym (same p (λ e. other sha256 (hp ∙ ap some (sym e)))) ∙ ht)

  Moved-Sound :
      (u p t : Text) (fs gs : Dict Text)
      → Other u
      → path_on_disk base (hash t) ≡ some p
      → Moved u fs p t gs
      → Sound fs
      → Sound gs
  Moved-Sound u p t fs gs other hp (at_p, _, rest) h sha256 q s hq hs =
      elim (Bool-cases (text_eq p q)) [
        | inl e ↦
            let same : p ≡ q = (text_eq_iff p q).0 e in
            let content_same : t ≡ s = cc (same, at_p, hs) in
            subst (λ x. hash x ≡ sha256) content_same
              (path_on_disk-inj base q (hash t) sha256 (hp ∙ ap some same) hq)
        | inr e ↦
            h sha256 q s hq
              (sym (rest q (λ x. other sha256 (hq ∙ ap some (sym x))) (text_eq_differ p q e)) ∙ hs)
      ]

module _ (hash : Text → Text) (temp : ℕ → Text) (base : Text) (random : ℕ → Text) where
  receive-Holds :
      (tmp so_far : Text) (rs : List Request) (e : BlobError) (d : Disk)
      → Other hash base tmp
      → Sound hash base d.files
      → lookup tmp d.files ≡ some so_far
      → Holds
          (λ r gs. Sound hash base gs × (lookup tmp gs ≡ some r.1))
          (Sound hash base)
          (receive hash temp (filesystem_store base random) tmp so_far rs e d)
  unfolding receive
  receive-Holds tmp so_far [] e d other h k = h
  receive-Holds tmp so_far (r ∷ rs) e d other h k =
      after-Holds (λ _ gs. Sound hash base gs × (lookup tmp gs ≡ some (so_far ++ r.contents)))
        (λ x gs. Sound hash base gs × (lookup tmp gs ≡ some x.1)) (Sound hash base)
        (append tmp r.contents d) _
        (weaken-Holds (λ _ gs. Uploading tmp d.files (so_far ++ r.contents) gs)
          (λ _ gs. Sound hash base gs × (lookup tmp gs ≡ some (so_far ++ r.contents)))
          (Same tmp d.files) (Sound hash base) (append tmp r.contents d)
          (λ _ gs (same, at). (Same-Sound hash base tmp d.files gs other same h, at))
          (λ gs same. Same-Sound hash base tmp d.files gs other same h)
          (append-Holds tmp d.files so_far r.contents d ((λ q ne. refl), k)))
        (λ _ d' (h', k'). elim (Bool-cases r.last) [
          | inl b ↦ rw b (h', k')
          | inr b ↦ rw b (receive-Holds tmp (so_far ++ r.contents) rs e d' other h' k')
        ])

  create_in_store-Sound :
      (t : Text) (d : Disk)
      → Sound hash base d.files
      → Holds
          (λ _ gs. Sound hash base gs)
          (Sound hash base)
          ((filesystem_store base random).create_blob (hash t) t d)
  unfolding fs_create
  create_in_store-Sound t d h = elim (Option-cases (path_on_disk base (hash t))) [
    | inl none_there ↦ rw (fs_create, none_there) h
    | inr (p, hp) ↦
        let other : Other hash base (upload_path_of base random p d) =
          λ sha256. path_on_disk-upload base p (hash t) sha256 _ hp in
        weaken-Holds _ (λ _ gs. Sound hash base gs) (Same (upload_path_of base random p d) d.files)
          (Sound hash base) (fs_create base random (hash t) t d)
          (λ n gs (_, moved).
            Moved-Sound hash base (upload_path_of base random p d) p t d.files gs other hp moved h)
          (λ gs same. Same-Sound hash base (upload_path_of base random p d) d.files gs other same h)
          (create_blob-Atomic base random (hash t) t p d hp)
  ]

  replied-Holds :
      (reply : Result BlobError (Unit {0})) (d : Disk)
      → Sound hash base d.files
      → Holds (λ _ gs. Sound hash base gs) (Sound hash base) (reply, d)
  replied-Holds (ok _) d h = h
  replied-Holds (err e) d h = h

  store_file-Holds :
      (tmp t : Text) (d : Disk)
      → Sound hash base d.files
      → lookup tmp d.files ≡ some t
      → Holds
          (λ _ gs. Sound hash base gs)
          (Sound hash base)
          (store_file hash temp (filesystem_store base random) tmp (hash t) d)
  store_file-Holds tmp t d h k =
      let same : content tmp d ≡ t = rw (content, k) refl in
      subst
        (λ x.
          Holds (λ _ gs. Sound hash base gs) (Sound hash base)
            ((filesystem_store base random).create_blob (hash t) x d))
        (sym same) (create_in_store-Sound t d h)

  check_and_store-Holds :
      (tmp : Text) (reply : Result BlobError (Unit {0})) (r : Text × Text) (d : Disk)
      → Sound hash base d.files
      → lookup tmp d.files ≡ some r.1
      → Holds
          (λ _ gs. Sound hash base gs)
          (Sound hash base)
          (check_and_store hash temp (filesystem_store base random) tmp reply r d)
  unfolding check_and_store
  check_and_store-Holds tmp reply (declared, t) d h k =
      elim (Bool-cases (text_eq (hash t) declared)) [
        | inr e ↦ rw (check_and_store, e) h
        | inl e ↦
            rw (check_and_store, e)
              (after-Holds (λ _ gs. Sound hash base gs × (lookup tmp gs ≡ some t))
                (λ _ gs. Sound hash base gs) (Sound hash base) (touch d)
                (λ _. store_file hash temp (filesystem_store base random) tmp (hash t) >>= λ _.
                  replied hash temp (filesystem_store base random) reply)
                (touch-Holds (λ gs. Sound hash base gs × (lookup tmp gs ≡ some t)) (Sound hash base)
                  d (h, k) h)
                (λ _ d' (h', k').
                  after-Holds (λ _ gs. Sound hash base gs) (λ _ gs. Sound hash base gs)
                    (Sound hash base)
                    (store_file hash temp (filesystem_store base random) tmp (hash t) d')
                    (λ _. replied hash temp (filesystem_store base random) reply)
                    (store_file-Holds tmp t d' h' k') (λ _ d'' h''. replied-Holds reply d'' h'')))
      ]

  finally-Sound :
      (tmp : Text) (o : Outcome (Unit {0}))
      → Other hash base tmp
      → Holds (λ _ gs. Sound hash base gs) (Sound hash base) o
      → Sound hash base (remove tmp o.1).1.files
  finally-Sound tmp o other h =
      Same-Sound hash base tmp o.1.files (remove tmp o.1).1.files other
        (remove-Same tmp o.1.files o.1 (λ q ne. refl)) (always-Holds (Sound hash base) o h)

  receive_and_store-Holds :
      (tmp : Text) (rs : List Request) (e : BlobError) (reply : Result BlobError (Unit {0}))
      (d : Disk)
      → Other hash base tmp
      → Sound hash base d.files
      → lookup tmp d.files ≡ some []
      → Holds
          (λ _ gs. Sound hash base gs)
          (Sound hash base)
          (receive_and_store hash temp (filesystem_store base random) tmp rs e reply d)
  unfolding receive_and_store
  receive_and_store-Holds tmp rs e reply d other h k =
      after-Holds (λ r gs. Sound hash base gs × (lookup tmp gs ≡ some r.1))
        (λ _ gs. Sound hash base gs) (Sound hash base)
        (receive hash temp (filesystem_store base random) tmp [] rs e d)
        (check_and_store hash temp (filesystem_store base random) tmp reply)
        (receive-Holds tmp [] rs e d other h k)
        (λ r d' (h', k'). check_and_store-Holds tmp reply r d' h' k')

  -- Whatever a stream gives and whatever calls of the system fail: if every file at the path of a
  -- hash has content with that hash, then this is so behind CreateBlob of the server. The name of
  -- the temporary file is not that of a hash.
  pub create_blob-Sound :
      (rs : List Request) (e : BlobError) (reply : Result BlobError (Unit {0})) (d : Disk)
      → Other hash base (temp d.drawn)
      → Sound hash base d.files
      → Sound hash base (create_blob hash temp (filesystem_store base random) rs e reply d).1.files
  unfolding create_blob
  create_blob-Sound rs e reply d other h =
      let tmp = temp d.drawn in
      let body : Io (Unit {0}) =
        receive_and_store hash temp (filesystem_store base random) tmp rs e reply in
      always-Holds (Sound hash base) _ (
        after-Holds (λ _ gs. Uploading tmp d.files [] gs) (λ _ gs. Sound hash base gs)
          (Sound hash base) (create tmp (drew hash temp (filesystem_store base random) d))
          (λ _. finally body (remove tmp))
          (weaken-Holds (λ _ gs. Uploading tmp d.files [] gs) (λ _ gs. Uploading tmp d.files [] gs)
            (Same tmp d.files) (Sound hash base)
            (create tmp (drew hash temp (filesystem_store base random) d)) (λ _ gs u. u)
            (λ gs same. Same-Sound hash base tmp d.files gs other same h)
            (create-Holds tmp d.files (drew hash temp (filesystem_store base random) d)
              (λ q ne. refl)))
          (λ _ d' (same, at). replied-Holds (body d').0 (remove tmp (body d').1).1 (
            finally-Sound tmp (body d') other (
              receive_and_store-Holds tmp rs e reply d' other
                (Same-Sound hash base tmp d.files d'.files other same h) at))))
