-- ===== src/Blobstore/Disk.antt =====
-- The files that services/blobstore works on through package os, and what may fail.
pub mod Logic
use kweb.Base.{ℕ, zero, suc, Option, none, some, List, [], ◌∷◌, ◌++◌, Text, Result, ok, err}
use kweb.Base.Dict.{Dict, lookup, insert, erase}

pub data BlobError : Type 0 where
  os_failed : Text → BlobError
  no_file : Text → BlobError
  panicked : BlobError
  hash_mismatch : BlobError
  stream_ended : BlobError
  stream_failed : Text → BlobError
  read_failed : Text → BlobError

-- A call that fails, and what it has written by then.
pub record Fault : Type 0 where
  pub message : Text
  pub written : ℕ

-- The files with their contents, the faults of the calls to come, of which there are no more behind
-- the list, and the number of random names drawn.
pub record Disk : Type 0 where
  pub files : Dict Text
  pub faults : List (Option Fault)
  pub drawn : ℕ

abbrev pub Outcome : Type 0 → Type 0
Outcome A = Result BlobError A × Disk

abbrev pub Io : Type 0 → Type 0
Io A = Disk → Outcome A

abbrev pub take : ℕ → Text → Text
take zero t = []
take (suc n) [] = []
take (suc n) (c ∷ t) = c ∷ take n t

module _ {A B : Type 0} where
  abbrev pub after : Outcome A → (A → Io B) → Outcome B
  after (ok a, d) k = k a d
  after (err e, d) k = (err e, d)

  infixl 5 ◌>>=◌
  -- One call and then, unless it fails, what follows.
  abbrev pub ◌>>=◌ : Io A → (A → Io B) → Io B
  m >>= k = λ d. after (m d) k

abbrev pub with_faults : List (Option Fault) → Disk → Disk
with_faults faults d = record { files = d.files; faults = faults; drawn = d.drawn }

module _ {A : Type 0} where
  abbrev pub clean : Outcome A → Io (Unit {0}) → Outcome A
  clean (ok a, d) cleanup = (ok a, d)
  clean (err e, d) cleanup = (err e, (cleanup d).1)

  -- A deferred call that runs if there is an error, and whose own error is only logged.
  abbrev pub or_else : Io A → Io (Unit {0}) → Io A
  or_else m cleanup d = clean (m d) cleanup

  -- A deferred call that always runs, and whose own error is only logged.
  abbrev pub finally : Io A → Io (Unit {0}) → Io A
  finally m cleanup d = let (r, d') = m d in (r, (cleanup d').1)

  abbrev pub done : A → Io A
  done a d = (ok a, d)

  abbrev pub fail : BlobError → Io A
  fail e d = (err e, d)

  unfoldable pub next_fault : List (Option Fault) → Disk → (Fault → Io A) → Io A → Outcome A
  next_fault [] d faulty act = act (with_faults [] d)
  next_fault (none ∷ faults) d faulty act = act (with_faults faults d)
  next_fault (some f ∷ faults) d faulty act = faulty f (with_faults faults d)

  -- A call of the system, and what it does when it fails.
  unfoldable pub call : (Fault → Io A) → Io A → Io A
  unfolding next_fault
  call faulty act d = next_fault d.faults d faulty act

  abbrev pub plain_fault : Fault → Io A
  plain_fault f = fail (os_failed f.message)

abbrev pub with_files : Dict Text → Disk → Disk
with_files files d = record { files = files; faults = d.faults; drawn = d.drawn }

abbrev pub content : Text → Disk → Text
content path d = elim (lookup path d.files) [ none ↦ [] | some t ↦ t ]

abbrev pub set_file : Text → Text → Io (Unit {0})
set_file path t d = (ok tt, with_files (insert path t d.files) d)

-- `os.MkdirAll`, `Close` and `Seek`: the files stay as they are.
unfoldable pub touch : Io (Unit {0})
unfolding call
touch = call plain_fault (done tt)

-- `os.Create`
unfoldable pub create : Text → Io (Unit {0})
unfolding call
create path = call plain_fault (set_file path [])

-- `Write` and `io.Copy`, which may have written a part.
unfoldable pub append : Text → Text → Io (Unit {0})
unfolding call
append path t =
    call
      (λ f d. (
        err (os_failed f.message),
        with_files (insert path (content path d ++ take f.written t) d.files) d,
      ))
      (λ d. set_file path (content path d ++ t) d)

-- `os.Remove`
unfoldable pub remove : Text → Io (Unit {0})
unfolding call
remove path = call plain_fault (λ d. elim (lookup path d.files) [
  | none ↦ (err (no_file path), d)
  | some _ ↦ (ok tt, with_files (erase path d.files) d)
])

-- `os.Rename`
unfoldable pub rename : Text → Text → Io (Unit {0})
unfolding call
rename old new = call plain_fault (λ d. elim (lookup old d.files) [
  | none ↦ (err (no_file old), d)
  | some t ↦ (ok tt, with_files (insert new t (erase old d.files)) d)
])

-- Opening a file and reading it to its end.
unfoldable pub read_file : Text → Io Text
unfolding call
read_file path =
    call plain_fault
      (λ d. elim (lookup path d.files) [ none ↦ (err (no_file path), d) | some t ↦ (ok t, d) ])
