-- ===== src/Blobstore/FsStore.antt =====
-- services/blobstore/pkg/server/fs_store.go: blobs as files, and the interface of store.go.
pub mod Atomic
pub mod Paths
use kweb.Base.{
  ℕ, suc, ◌/◌, ◌%◌, ◌+◌, ltb, if◌then◌else◌, Option, none, some, List, [], ◌∷◌, ◌++◌, length, Text,
  codes, Result, ok, err,
}
use kweb.Blobstore.Disk.{
  panicked, Disk, Outcome, Io, ◌>>=◌, or_else, done, fail, touch, create, append, remove, rename,
  read_file,
}

-- The interface `Store`: CreateBlob, which returns the length, and Open with reading to the end.
pub record Store : Type 0 where
  pub create_blob : (sha256 content : Text) → Io ℕ
  pub open_blob : (sha256 : Text) → Io Text

abbrev pub hex_digit : ℕ → ℕ
hex_digit n = if ltb n 10 then 48 + n else 87 + n

-- `hex.EncodeToString`
unfoldable pub hex : Text → Text
hex [] = []
hex (b ∷ bs) = hex_digit (b / 16) ∷ hex_digit (b % 16) ∷ hex bs

-- `filepath.Join` of clean parts; an empty one is left out.
unfoldable pub join : Text → Text → Text
join [] part = part
join (c ∷ base) part = (c ∷ base) ++ (codes "/" ++ part)

-- A slice beyond the end of the text panics.
unfoldable pub path_of : Text → Text → Option Text
unfolding join
path_of base (a ∷ b ∷ c ∷ d ∷ s) = some (
    join base ((a ∷ b ∷ []) ++ (codes "/" ++ ((c ∷ d ∷ []) ++ (codes "/" ++ (a ∷ b ∷ c ∷ d ∷ s))))))
path_of base _ = none

unfoldable pub path_on_disk : Text → Text → Option Text
unfolding path_of hex
path_on_disk base hash = path_of base (hex hash)

-- The writing of the upload, with the deferred call of Close.
abbrev pub write_upload : Text → Text → Io (Unit {0})
write_upload upload_path content = or_else (append upload_path content >>= λ _. touch) touch

-- The end of `CreateBlob`, with the deferred call of Remove.
abbrev pub move_upload : Text → Text → Text → Io (Unit {0})
move_upload path upload_path content =
    or_else (write_upload upload_path content >>= λ _. rename upload_path path) (remove upload_path)

-- `CreateBlob` behind the paths.
unfoldable pub store_at : Text → Text → Text → Io ℕ
store_at path upload_path content = touch >>= λ _.
    create upload_path >>= λ _. move_upload path upload_path content >>= λ _. done (length content)

abbrev pub drew : Disk → Disk
drew d = record { files = d.files; faults = d.faults; drawn = suc d.drawn }

-- `base` is the directory of the store, `random` the numbers that are drawn, as text.
module _ (base : Text) (random : ℕ → Text) where
  abbrev pub upload_path_of : Text → Disk → Text
  upload_path_of path d = path ++ (codes ".tmp-" ++ random d.drawn)

  unfoldable pub create_blob : Text → Text → Io ℕ
  unfolding store_at path_on_disk
  create_blob sha256 content d = elim (path_on_disk base sha256) [
    | none ↦ (err panicked, d)
    | some path ↦ store_at path (upload_path_of path d) content (drew d)
  ]

  unfoldable pub open_blob : Text → Io Text
  unfolding path_on_disk
  open_blob sha256 d = elim (path_on_disk base sha256) [
    | none ↦ (err panicked, d)
    | some path ↦ read_file path d
  ]

  abbrev pub filesystem_store : Store
  filesystem_store = record { create_blob = create_blob; open_blob = open_blob }
