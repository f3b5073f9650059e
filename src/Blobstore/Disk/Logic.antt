-- ===== src/Blobstore/Disk/Logic.antt =====
-- How what calls on a disk do follows from what each of them does.
use kweb.Base.{
  Option, none, some, Option-cases, List, [], ◌∷◌, ◌++◌, Text, ok, err, ◌≡◌, ◌≢◌, refl, ◌∙◌, subst,
  inl, inr, text_eq-false, text_eq_refl,
}
use kweb.Base.Dict.{
  Dict, lookup, insert, erase, lookup-insert_self, lookup-insert_other, lookup-erase,
}
use kweb.Blobstore.Disk.{
  Fault, Disk, Outcome, Io, after, clean, next_fault, call, plain_fault, with_faults, content,
  touch, create, append, remove, rename, take,
}

-- What holds of the files behind a call, without an error and with one.
abbrev pub Holds :
    {A : Type 0} → (A → Dict Text → Type 0) → (Dict Text → Type 0) → Outcome A → Type 0
Holds Q E (ok a, d) = Q a d.files
Holds Q E (err e, d) = E d.files

module _ {A B : Type 0} (Q : A → Dict Text → Type 0) (R : B → Dict Text → Type 0)
    (E : Dict Text → Type 0) where
  pub after-Holds :
      (o : Outcome A) (k : A → Io B)
      → Holds Q E o
      → ((a : A) (d : Disk) → Q a d.files → Holds R E (k a d))
      → Holds R E (after o k)
  after-Holds (ok a, d) k h f = f a d h
  after-Holds (err e, d) k h f = h

module _ {A : Type 0} (Q : A → Dict Text → Type 0) (E F : Dict Text → Type 0) where
  pub clean-Holds :
      (o : Outcome A) (cleanup : Io (Unit {0}))
      → Holds Q E o
      → ((d : Disk) → E d.files → F (cleanup d).1.files)
      → Holds Q F (clean o cleanup)
  clean-Holds (ok a, d) cleanup h f = h
  clean-Holds (err e, d) cleanup h f = f d h

module _ {A : Type 0} (Q R : A → Dict Text → Type 0) (E F : Dict Text → Type 0) where
  pub weaken-Holds :
      (o : Outcome A)
      → ((a : A) (gs : Dict Text) → Q a gs → R a gs)
      → ((gs : Dict Text) → E gs → F gs)
      → Holds Q E o
      → Holds R F o
  weaken-Holds (ok a, d) q e h = q a d.files h
  weaken-Holds (err x, d) q e h = e d.files h

module _ {A : Type 0} (P : Dict Text → Type 0) where
  -- What holds with an error and without one.
  pub always-Holds : (o : Outcome A) → Holds (λ _ gs. P gs) P o → P o.1.files
  always-Holds (ok a, d) h = h
  always-Holds (err x, d) h = h

module _ {A : Type 0} (P : Outcome A → Type 0) where
  fault_cases :
      (faults : List (Option Fault)) (faulty : Fault → Io A) (act : Io A) (d : Disk)
      → ((f : Fault) (rest : List (Option Fault)) → P (faulty f (with_faults rest d)))
      → ((rest : List (Option Fault)) → P (act (with_faults rest d)))
      → P (next_fault faults d faulty act)
  unfolding next_fault
  fault_cases [] faulty act d hf ha = ha []
  fault_cases (none ∷ faults) faulty act d hf ha = ha faults
  fault_cases (some f ∷ faults) faulty act d hf ha = hf f faults

  -- What holds behind a call if it does whether the call fails or not.
  pub call-cases :
      (faulty : Fault → Io A) (act : Io A) (d : Disk)
      → ((f : Fault) (faults : List (Option Fault)) → P (faulty f (with_faults faults d)))
      → ((faults : List (Option Fault)) → P (act (with_faults faults d)))
      → P (call faulty act d)
  unfolding call
  call-cases faulty act d = fault_cases d.faults faulty act d

-- The other files are as they were.
abbrev pub Same : Text → Dict Text → Dict Text → Type 0
Same u fs gs = (q : Text) → u ≢ q → lookup q gs ≡ lookup q fs

-- And the file holds a text.
abbrev pub Uploading : Text → Dict Text → Text → Dict Text → Type 0
Uploading u fs t gs = Same u fs gs × (lookup u gs ≡ some t)

pub touch-files : (d : Disk) → (touch d).1.files ≡ d.files
unfolding touch
touch-files d =
    call-cases (λ o. o.1.files ≡ d.files) plain_fault _ d (λ f faults. refl) (λ faults. refl)

pub touch-Holds :
    (Q E : Dict Text → Type 0) (d : Disk) → Q d.files → E d.files → Holds (λ _ gs. Q gs) E (touch d)
unfolding touch
touch-Holds Q E d q e =
    call-cases (Holds (λ _ gs. Q gs) E) plain_fault _ d (λ f faults. e) (λ faults. q)

module _ (u : Text) (fs : Dict Text) where
  pub insert-Uploading :
      (t : Text) (gs : Dict Text) → Same u fs gs → Uploading u fs t (insert u t gs)
  insert-Uploading t gs h =
      ((λ q ne. lookup-insert_other u q t gs ne ∙ h q ne), lookup-insert_self u t gs)

  pub create-Holds :
      (d : Disk) → Same u fs d.files → Holds (λ _ gs. Uploading u fs [] gs) (Same u fs) (create u d)
  unfolding create
  create-Holds d h =
      call-cases (Holds (λ _ gs. Uploading u fs [] gs) (Same u fs)) plain_fault _ d (λ f faults. h)
        (λ faults. insert-Uploading [] d.files h)

  pub append-Holds :
      (s t : Text) (d : Disk)
      → Uploading u fs s d.files
      → Holds (λ _ gs. Uploading u fs (s ++ t) gs) (Same u fs) (append u t d)
  unfolding append
  append-Holds s t d (h, e) =
      call-cases (Holds (λ _ gs. Uploading u fs (s ++ t) gs) (Same u fs)) _ _ d
        (λ f faults. (insert-Uploading (content u d ++ take f.written t) d.files h).0)
        (λ faults.
          subst (λ x. Uploading u fs (x ++ t) (insert u (content u d ++ t) d.files))
            (rw (content, e) refl) (insert-Uploading (content u d ++ t) d.files h))

  erase-Same : (gs : Dict Text) → Same u fs gs → Same u fs (erase u gs)
  erase-Same gs h q ne = rw (lookup-erase u q gs, text_eq-false u q ne) (h q ne)

  pub remove-Same : (d : Disk) → Same u fs d.files → Same u fs (remove u d).1.files
  unfolding remove
  remove-Same d h =
      call-cases (λ o. Same u fs o.1.files) plain_fault _ d (λ f faults. h)
        (λ faults. elim (Option-cases (lookup u d.files)) [
          | inl e ↦ rw e h
          | inr (t, e) ↦ rw e (erase-Same d.files h)
        ])

  -- The file is moved to a path `p`.
  abbrev pub Moved : Text → Text → Dict Text → Type 0
  Moved p t gs =
      (lookup p gs ≡ some t)
      × (lookup u gs ≡ none)
      × ((q : Text) → u ≢ q → p ≢ q → lookup q gs ≡ lookup q fs)

  pub rename-Holds :
      (p t : Text) (d : Disk)
      → p ≢ u
      → Uploading u fs t d.files
      → Holds (λ _ gs. Moved p t gs) (Same u fs) (rename u p d)
  unfolding rename
  rename-Holds p t d ne (h, e) =
      call-cases (Holds (λ _ gs. Moved p t gs) (Same u fs)) plain_fault _ d (λ f faults. h)
        (λ faults. rw e (
          lookup-insert_self p t (erase u d.files),
          lookup-insert_other p u t (erase u d.files) ne
              ∙ rw (lookup-erase u u d.files, text_eq_refl u) refl,
          λ q uq pq. lookup-insert_other p q t (erase u d.files) pq ∙ erase-Same d.files h q uq,
        ))
