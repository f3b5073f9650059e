-- ===== src/Blobstore/Tests.antt =====
-- Blobs at work, and the results applied to them.
use kweb.Base.{
  ℕ, none, some, [], ◌∷◌, ◌++◌, length, Text, codes, text_eq, text_eq_differ, ok, ◌≡◌, ◌≢◌, refl,
}
use kweb.Base.Dict.{Dict, lookup}
use kweb.Blobstore.Disk.{stream_ended, Disk}
use kweb.Blobstore.Disk.Logic.{Holds, Same, Moved}
use kweb.Blobstore.FsStore.{
  hex, join, path_of, path_on_disk, upload_path_of, filesystem_store, open_blob,
  create_blob as fs_create,
}
use kweb.Blobstore.FsStore.Atomic.{create_blob-Atomic}
use kweb.Blobstore.Service.{Reader, read_more, read_last, create_blob, send_all}
use kweb.Blobstore.Service.Sound.{Other, Sound, create_blob-Sound}
use kweb.Blobstore.Service.RoundTrip.{disk, Whole, total}
use kweb.Blobstore.Client.{upload, download}
use kweb.Blobstore.Client.RoundTrip.{accepted, upload-download}
use kweb.Blobstore.Client.Checked.{HasHash, download-Checked}

-- The length of a text stands for its hash.
abbrev hash : Text → Text
hash t = length t ∷ 7 ∷ []

abbrev temp : ℕ → Text
temp n = codes "/tmp/" ++ n ∷ []

abbrev base : Text
base = codes "blobs"

abbrev random : ℕ → Text
random n = codes "1"

abbrev greeting_path : Text
greeting_path = codes "blobs/05/07/0507"

greeting_on_disk : path_on_disk base (hash (codes "hello")) ≡ some greeting_path
unfolding path_on_disk path_of hex join
greeting_on_disk = refl

-- A hash of one byte has no path: the code panics.
short_hash : path_on_disk base (1 ∷ []) ≡ none
unfolding path_on_disk path_of hex
short_hash = refl

-- The copy to the upload file fails behind two bytes.
abbrev full_disk : Disk
full_disk = record {
  files = (codes "other", codes "kept") ∷ [];
  faults = none ∷ none ∷ some record { message = codes "disk full"; written = 2 } ∷ [];
  drawn = 0;
}

create_blob-Atomic_example :
    Holds
      (λ n gs.
        (n ≡ 5)
        × Moved
            (upload_path_of base random greeting_path full_disk)
            full_disk.files
            greeting_path
            (codes "hello")
            gs)
      (Same (upload_path_of base random greeting_path full_disk) full_disk.files)
      (fs_create base random (hash (codes "hello")) (codes "hello") full_disk)
create_blob-Atomic_example =
    create_blob-Atomic base random (hash (codes "hello")) (codes "hello") greeting_path full_disk
      greeting_on_disk

path_of-temp : (n : ℕ) (s : Text) → path_of base s ≢ some (temp n)
unfolding path_of join
path_of-temp n (a ∷ b ∷ c ∷ d ∷ s) h = cc
path_of-temp n [] h = cc
path_of-temp n (a ∷ []) h = cc
path_of-temp n (a ∷ b ∷ []) h = cc
path_of-temp n (a ∷ b ∷ c ∷ []) h = cc

temp-Other : (n : ℕ) → Other hash base (temp n)
unfolding path_on_disk
temp-Other n sha256 = path_of-temp n (hex sha256)

nothing-Sound : Sound hash base []
unfolding lookup
nothing-Sound sha256 p t hp ht = cc

abbrev greeting : Reader
greeting = read_more (codes "hel") (read_more [] (read_last (codes "lo")))

create_blob-Sound_example :
    Sound hash base
      (create_blob hash temp
        (filesystem_store base random)
        (upload hash [] greeting).0
        stream_ended
        (ok tt)
        (disk [] 0)).1.files
create_blob-Sound_example =
    create_blob-Sound hash temp base random (upload hash [] greeting).0 stream_ended (ok tt)
      (disk [] 0) (temp-Other 0) nothing-Sound

temp-differs : temp 0 ≢ greeting_path
unfolding text_eq
temp-differs = text_eq_differ (temp 0) greeting_path refl

upload-download_example :
    (gs : Dict Text) × ((upload hash [] greeting).1 ≡ ok (hash (codes "hello")))
    × (create_blob hash temp
          (filesystem_store base random)
          (upload hash [] greeting).0
          stream_ended
          (ok tt)
          (disk [] 0)
        ≡ (ok tt, disk gs 2))
    × (open_blob base random (hash (codes "hello")) (disk gs 2) ≡ (ok (codes "hello"), disk gs 2))
    × ((tmp : Text) (r' : Reader) (fs' : Dict Text) (m : ℕ)
        → Whole r'
        → total r' ≡ codes "hello"
        → (hs : Dict Text) × (download hash tmp
              (hash (codes "hello"))
              (send_all accepted 0 r').0
              none
              (disk fs' m)
            ≡ (ok tmp, disk hs m))
          × (lookup tmp hs ≡ some (codes "hello")))
upload-download_example =
    upload-download hash temp base random (codes "hello") greeting_path greeting stream_ended [] 0
      tt refl greeting_on_disk temp-differs

download-Checked_example :
    Holds
      (λ path gs.
        (path ≡ temp 0) × HasHash hash (temp 0) (hash (codes "hello")) gs × Same (temp 0) [] gs)
      (Same (temp 0) [])
      (download hash
        (temp 0)
        (hash (codes "hello"))
        (codes "hel" ∷ codes "lo" ∷ [])
        none
        (disk [] 0))
download-Checked_example =
    download-Checked hash (temp 0) (hash (codes "hello")) (codes "hel" ∷ codes "lo" ∷ []) none
      (disk [] 0)
