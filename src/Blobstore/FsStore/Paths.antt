-- ===== src/Blobstore/FsStore/Paths.antt =====
-- services/blobstore/pkg/server/fs_store.go: the paths of two hashes differ, and no upload path is
-- that of a hash.
use kweb.Base.{
  ℕ, ◌/◌, ◌%◌, some, [], ◌∷◌, ◌++◌, append_assoc, All, Text, codes, ◌≡◌, ◌≢◌, refl, sym, ◌∙◌, subst,
  arith,
}
use kweb.Blobstore.FsStore.{hex, hex_digit, join, path_of, path_on_disk}

hex_digit-inj : (a b : ℕ) → hex_digit a ≡ hex_digit b → a ≡ b
hex_digit-inj a b h = ground arith

byte-inj : (a b : ℕ) → a / 16 ≡ b / 16 → a % 16 ≡ b % 16 → a ≡ b
byte-inj a b h k = omega (arith, h, k)

hex-inj : (s t : Text) → hex s ≡ hex t → s ≡ t
unfolding hex
hex-inj [] [] h = refl
hex-inj [] (b ∷ t) h = cc
hex-inj (a ∷ s) [] h = cc
hex-inj (a ∷ s) (b ∷ t) h =
    let first : hex_digit (a / 16) ≡ hex_digit (b / 16) = cc h in
    let second : hex_digit (a % 16) ≡ hex_digit (b % 16) = cc h in
    let rest : s ≡ t = hex-inj s t (cc h) in
    let same : a ≡ b = byte-inj a b (hex_digit-inj _ _ first) (hex_digit-inj _ _ second) in
    cc (same, rest)

append-inj : (p s t : Text) → p ++ s ≡ p ++ t → s ≡ t
append-inj [] s t h = h
append-inj (c ∷ p) s t h = append-inj p s t (cc h)

join-inj : (base s t : Text) → join base s ≡ join base t → s ≡ t
unfolding join
join-inj [] s t h = h
join-inj (c ∷ base) s t h = cc (append-inj (c ∷ base) _ _ h)

-- The part of a path below the directory of the store.
abbrev below : ℕ → ℕ → ℕ → ℕ → Text → Text
below a b c d s =
    (a ∷ b ∷ []) ++ (codes "/" ++ ((c ∷ d ∷ []) ++ (codes "/" ++ (a ∷ b ∷ c ∷ d ∷ s))))

path_of-inj : (base p s t : Text) → path_of base s ≡ some p → path_of base t ≡ some p → s ≡ t
unfolding path_of
path_of-inj base p (a ∷ b ∷ c ∷ d ∷ s) (a' ∷ b' ∷ c' ∷ d' ∷ t) h k =
    let same : join base (below a b c d s) ≡ join base (below a' b' c' d' t) = cc (h, k) in
    cc (join-inj base (below a b c d s) (below a' b' c' d' t) same)
path_of-inj base p [] t h k = cc
path_of-inj base p (a ∷ []) t h k = cc
path_of-inj base p (a ∷ b ∷ []) t h k = cc
path_of-inj base p (a ∷ b ∷ c ∷ []) t h k = cc
path_of-inj base p s [] h k = cc
path_of-inj base p s (a ∷ []) h k = cc
path_of-inj base p s (a ∷ b ∷ []) h k = cc
path_of-inj base p s (a ∷ b ∷ c ∷ []) h k = cc

pub path_on_disk-inj :
    (base p s t : Text) → path_on_disk base s ≡ some p → path_on_disk base t ≡ some p → s ≡ t
unfolding path_on_disk
path_on_disk-inj base p s t h k = hex-inj s t (path_of-inj base p (hex s) (hex t) h k)

-- No dot in a text.
abbrev NoDot : Text → Type 0
NoDot t = All (λ c. c ≢ 46) t

hex_digit-differs : (n : ℕ) → hex_digit n ≢ 46
hex_digit-differs n = ground arith

hex-NoDot : (s : Text) → NoDot (hex s)
unfolding hex
hex-NoDot [] = tt
hex-NoDot (b ∷ s) = (hex_digit-differs (b / 16), (hex_digit-differs (b % 16), hex-NoDot s))

not-NoDot : (s t : Text) → NoDot (s ++ 46 ∷ t) → ⊥
not-NoDot [] t (h, _) = h refl
not-NoDot (c ∷ s) t (_, h) = not-NoDot s t h

join-append : (base s t : Text) → join base s ++ t ≡ join base (s ++ t)
unfolding join
join-append [] s t = refl
join-append (c ∷ base) s t = append_assoc (c ∷ base) (codes "/" ++ s) t

below-NoDot : (a b c d : ℕ) (s : Text) → NoDot (a ∷ b ∷ c ∷ d ∷ s) → NoDot (below a b c d s)
below-NoDot a b c d s (ha, (hb, (hc, (hd, hs)))) = (
  ha,
  (
    hb,
    ((λ e. omega (arith, e)), (hc, (hd, ((λ e. omega (arith, e)), (ha, (hb, (hc, (hd, hs)))))))),
  ),
)

path_of-NoDot :
    (base p s t u : Text) → NoDot t → path_of base s ≡ some p → path_of base t ≢ some (p ++ 46 ∷ u)
unfolding path_of
path_of-NoDot base p (a ∷ b ∷ c ∷ d ∷ s) (a' ∷ b' ∷ c' ∷ d' ∷ t) u dots h k =
    let same : join base (below a b c d s) ++ 46 ∷ u ≡ join base (below a' b' c' d' t) =
      cc (h, k) in
    not-NoDot (below a b c d s) u (
      subst NoDot
        (sym (join-inj base _ _ (sym (join-append base (below a b c d s) (46 ∷ u)) ∙ same)))
        (below-NoDot a' b' c' d' t dots))
path_of-NoDot base p [] t u dots h k = cc
path_of-NoDot base p (a ∷ []) t u dots h k = cc
path_of-NoDot base p (a ∷ b ∷ []) t u dots h k = cc
path_of-NoDot base p (a ∷ b ∷ c ∷ []) t u dots h k = cc
path_of-NoDot base p s [] u dots h k = cc
path_of-NoDot base p s (a ∷ []) u dots h k = cc
path_of-NoDot base p s (a ∷ b ∷ []) u dots h k = cc
path_of-NoDot base p s (a ∷ b ∷ c ∷ []) u dots h k = cc

pub path_on_disk-upload :
    (base p s t u : Text) → path_on_disk base s ≡ some p → path_on_disk base t ≢ some (p ++ 46 ∷ u)
unfolding path_on_disk
path_on_disk-upload base p s t u h = path_of-NoDot base p (hex s) (hex t) u (hex-NoDot t) h
