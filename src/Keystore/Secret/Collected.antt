-- ===== src/Keystore/Secret/Collected.antt =====
-- components/keystore/kubernetes.go: the sorted IDs of a key set, and the data of all its versions.
use mathlib.Core.List.{Memᴰ}
use mathlib.Core.List.Memᴰ.{head, tail}
use kweb.Base.{Bool-cases, some, List, [], ◌∷◌, All, ok, ◌≡◌, refl, sym, ap, ◌∙◌, subst, inl, inr}
use kweb.Base.Integers.{ℤ, int_eq, int_eq-true, int_leb}
use kweb.Keystore.Keys.{KeyData, Library, InternalKey, id_of, data_of}
use kweb.Keystore.KeySet.{Versions, find}
use kweb.Keystore.Secret.{insert_id, sort_ids, ids_of, collect}
use kweb.Keystore.Secret.Loaded.{Has, Has-cons, first, Sound}

module _ {ℓ} (Q : ℤ → Type ℓ) where
  insert_id-All : (x : ℤ) (ys : List ℤ) → Q x → All Q ys → All Q (insert_id x ys)
  unfolding insert_id
  insert_id-All x [] h hs = (h, tt)
  insert_id-All x (y ∷ ys) h (hy, hs) = elim (Bool-cases (int_leb x y)) [
    | inl e ↦ rw (insert_id, e) (h, (hy, hs))
    | inr e ↦ rw (insert_id, e) (hy, insert_id-All x ys h hs)
  ]

  pub sort_ids-All : (xs : List ℤ) → All Q xs → All Q (sort_ids xs)
  unfolding sort_ids
  sort_ids-All [] hs = tt
  sort_ids-All (x ∷ xs) (h, hs) = insert_id-All x (sort_ids xs) h (sort_ids-All xs hs)

insert_id-head : (x : ℤ) (ys : List ℤ) → Memᴰ x (insert_id x ys)
unfolding insert_id
insert_id-head x [] = head refl
insert_id-head x (y ∷ ys) = elim (Bool-cases (int_leb x y)) [
  | inl e ↦ rw (insert_id, e) (head refl)
  | inr e ↦ rw (insert_id, e) (tail (insert_id-head x ys))
]

insert_id-tail : (x z : ℤ) (ys : List ℤ) → Memᴰ z ys → Memᴰ z (insert_id x ys)
unfolding insert_id
insert_id-tail x z [] m = elim m [ ]
insert_id-tail x z (y ∷ ys) m = elim (Bool-cases (int_leb x y)) [
  | inl e ↦ rw (insert_id, e) (tail m)
  | inr e ↦ rw (insert_id, e) (elim m [ head h ↦ head h | tail n ↦ tail (insert_id-tail x z ys n) ])
]

pub sort_ids-Mem : (z : ℤ) (xs : List ℤ) → Memᴰ z xs → Memᴰ z (sort_ids xs)
unfolding sort_ids
sort_ids-Mem z [] m = elim m [ ]
sort_ids-Mem z (x ∷ xs) (head h) =
    subst (λ w. Memᴰ w (sort_ids (x ∷ xs))) (sym h) (insert_id-head x (sort_ids xs))
sort_ids-Mem z (x ∷ xs) (tail n) = insert_id-tail x z (sort_ids xs) (sort_ids-Mem z xs n)

module _ {P : Type 0} (lib : Library P) where
  pub ids_of-Has :
      (vs ws : Versions P)
      → Sound lib ws
      → ((id : ℤ) → Has id ws → Has id vs)
      → All (λ id. Has id vs) (ids_of ws)
  unfolding ids_of
  ids_of-Has vs [] hs up = tt
  ids_of-Has vs ((i, k) ∷ ws) ((hi, hl), hs) up = (
    up (id_of k) (subst (λ x. Has x ((i, k) ∷ ws)) (sym hi) (k, first i k ws)),
    ids_of-Has vs ws hs (λ id h. up id (Has-cons id (i, k) ws h)),
  )

  pub Has-ids_of : (id : ℤ) (vs : Versions P) → Sound lib vs → Has id vs → Memᴰ id (ids_of vs)
  unfolding ids_of find
  Has-ids_of id [] hs (k, h) = cc
  Has-ids_of id ((i, k) ∷ vs) ((hi, hl), hs) (key, h) = elim (Bool-cases (int_eq i id)) [
    | inl e ↦ head (sym (int_eq-true i id e) ∙ sym hi)
    | inr e ↦ tail (Has-ids_of id vs hs (key, rw (find, e) at h))
  ]

  -- The data of all versions is collected.
  pub collect_lem :
      (vs : Versions P) (ids : List ℤ)
      → All (λ id. Has id vs) ids
      → (ds : List KeyData) × (collect vs ids ≡ ok ds)
        × ((id : ℤ) (key : InternalKey P)
            → Memᴰ id ids
            → find id vs ≡ some key
            → Memᴰ (data_of key) ds)
  unfolding collect
  collect_lem vs [] hs = ([], refl, λ id key m h. elim m [ ])
  collect_lem vs (i ∷ ids) ((k, h), hs) =
      let (ds, e, all_in) = collect_lem vs ids hs in
      (
        data_of k ∷ ds,
        rw (collect, h, e) refl,
        λ id key m f. elim m [
          | head same ↦ let known : key ≡ k = cc (same, h, f) in head (ap data_of known)
          | tail n ↦ tail (all_in id key n f)
        ],
      )
