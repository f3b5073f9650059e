-- ===== src/Render/Escape/Laws.antt =====
-- templates/render.go: what `escape` writes.
use kweb.Base.{
  ℕ, zero, suc, ◌<◌, Bool, true, false, Bool-cases, ◌||◌, ◌==◌, if◌then◌else◌, Option, none, some,
  Option-cases, [], ◌∷◌, ◌++◌, length, all, not, Text, text_eq, codes, ◌≡◌, ◌⊎◌, inl, inr, refl,
  sym, ap, subst, ◌∙◌, arith,
}
use kweb.Render.Escape.{is_escaped, entity, prepend, write, index_any, escape_loop, escape}

-- A description of the result: each character by itself.
unfoldable pub escaped : ℕ → Text
escaped c = elim (entity c) [ none ↦ c ∷ [] | some esc ↦ esc ]

unfoldable pub escape_each : Text → Text
unfolding escaped
escape_each [] = []
escape_each (c ∷ s) = escaped c ++ escape_each s

-- The characters that a browser could read as markup, or the end of an attribute's value.
unfoldable pub is_markup : ℕ → Bool
is_markup c = c == b'\'' || c == b'<' || c == b'>' || c == b'"' || c == 13

unfoldable pub is_harmless : ℕ → Bool
unfolding is_markup
is_harmless c = not (is_markup c)

-- A reader of HTML text: a reference from an ampersand to a semicolon stands for a character.
unfoldable pub named : Text → Text
named name =
    if text_eq name (codes "amp")
    then b'&' ∷ []
    else if text_eq name (codes "#39")
    then b'\'' ∷ []
    else if text_eq name (codes "lt")
    then b'<' ∷ []
    else if text_eq name (codes "gt")
    then b'>' ∷ []
    else if text_eq name (codes "#34")
    then b'"' ∷ []
    else if text_eq name (codes "#13")
    then 13 ∷ []
    else b'&' ∷ name ++ b';' ∷ []

-- The reader, inside a reference with the name read so far, or outside.
unfoldable pub unescape : Option Text → Text → Text
unfolding named
unescape none [] = []
unescape (some name) [] = b'&' ∷ name
unescape none (c ∷ s) =
    let inside = unescape (some []) s in
    let outside = unescape none s in if c == b'&' then inside else c ∷ outside
unescape (some name) (c ∷ s) =
    let inside = unescape (some (name ++ c ∷ [])) s in
    let outside = unescape none s in if c == b';' then named name ++ outside else inside

plain_entity : (c : ℕ) → is_escaped c ≡ false → entity c ≡ none
unfolding is_escaped entity
plain_entity c h = ground arith

escaped_entity : (c : ℕ) → is_escaped c ≡ true → (esc : Text) × (entity c ≡ some esc)
unfolding is_escaped entity
escaped_entity c h = elim (Option-cases (entity c)) [
  | inr (esc, e) ↦ (esc, e)
  | inl e ↦ ground (arith, e, h)
]

-- What the search finds: nothing to escape, or a split around the first character to escape.
abbrev Described : Text → Option (Text × ℕ × Text) → Type 0
Described s none = escape_each s ≡ s
Described s (some (before, c, after)) =
    (escape_each s ≡ before ++ (escaped c ++ escape_each after))
    × (is_escaped c ≡ true)
    × (length after < length s)

escaped_plain : (c : ℕ) → is_escaped c ≡ false → escaped c ≡ c ∷ []
unfolding escaped
escaped_plain c h = rw (plain_entity c h, escaped) refl

escaped-some : (c : ℕ) (esc : Text) → entity c ≡ some esc → escaped c ≡ esc
unfolding escaped
escaped-some c esc h = rw (h, escaped) refl

prepend-Described :
    (c : ℕ) (s : Text) (o : Option (Text × ℕ × Text))
    → is_escaped c ≡ false
    → Described s o
    → Described (c ∷ s) (prepend c o)
unfolding prepend escape_each
prepend-Described c s none h d = cc (escaped_plain c h, d)
prepend-Described c s (some (before, x, after)) h (d, e, l) =
    (cc (escaped_plain c h, d), e, omega arith)

index_any-Described : (s : Text) → Described s (index_any s)
unfolding index_any escape_each
index_any-Described [] = refl
index_any-Described (c ∷ s) = elim (Bool-cases (is_escaped c)) [
  | inl e ↦ rw (e, index_any) (refl, e, omega arith)
  | inr e ↦ rw (e, index_any) (prepend-Described c s (index_any s) e (index_any-Described s))
]

escape_loop-enough : (n : ℕ) (s : Text) → length s < n → escape_loop n s ≡ some (escape_each s)
unfolding escape_loop write
escape_loop-enough zero s l = ground arith
escape_loop-enough (suc n) s l = elim (Option-cases (index_any s)) [
  | inl e ↦ rw (e, escape_loop) (ap some (sym (subst (Described s) e (index_any-Described s))))
  | inr ((before, c, after), e) ↦
      let (d, is, shorter) = subst (Described s) e (index_any-Described s) in
      let (esc, f) = escaped_entity c is in
      rw (e, escape_loop, f, escape_loop-enough n after (omega arith))
        (ap some (sym (d ∙ ap (λ t. before ++ (t ++ escape_each after)) (escaped-some c esc f))))
]

escaped_cases :
    (c : ℕ)
    → is_escaped c ≡ true
    → (c ≡ 38) ⊎ ((c ≡ 39) ⊎ ((c ≡ 60) ⊎ ((c ≡ 62) ⊎ ((c ≡ 34) ⊎ (c ≡ 13)))))
unfolding is_escaped
escaped_cases c h = ground arith

-- A predicate of the six characters holds of every character that is escaped.
by_entity :
    (P : ℕ → Type 0) → P 38 → P 39 → P 60 → P 62 → P 34 → P 13 → (c : ℕ) → is_escaped c ≡ true → P c
by_entity P a b d e f g c h = elim (escaped_cases c h) [
  | inl x ↦ subst P (sym x) a
  | inr (inl x) ↦ subst P (sym x) b
  | inr (inr (inl x)) ↦ subst P (sym x) d
  | inr (inr (inr (inl x))) ↦ subst P (sym x) e
  | inr (inr (inr (inr (inl x)))) ↦ subst P (sym x) f
  | inr (inr (inr (inr (inr x)))) ↦ subst P (sym x) g
]

all-append : (p : ℕ → Bool) (s t : Text) → all p s ≡ true → all p t ≡ true → all p (s ++ t) ≡ true
all-append p [] t a b = b
all-append p (c ∷ s) t a b = ground (arith, all-append p s t)

plain_harmless : (c : ℕ) → is_escaped c ≡ false → all is_harmless (c ∷ []) ≡ true
unfolding is_escaped is_harmless is_markup
plain_harmless c h = ground arith

plain_unescape :
    (c : ℕ) (t : Text) → is_escaped c ≡ false → unescape none (c ∷ t) ≡ c ∷ unescape none t
unfolding is_escaped unescape
plain_unescape c t h = ground arith

escaped-all : (c : ℕ) → all is_harmless (escaped c) ≡ true
unfolding escaped entity is_harmless is_markup
escaped-all c = elim (Bool-cases (is_escaped c)) [
  | inl h ↦ by_entity (λ x. all is_harmless (escaped x) ≡ true) refl refl refl refl refl refl c h
  | inr h ↦ rw (escaped_plain c h) (plain_harmless c h)
]

escape_each-all : (s : Text) → all is_harmless (escape_each s) ≡ true
unfolding escape_each
escape_each-all [] = refl
escape_each-all (c ∷ s) =
    all-append is_harmless (escaped c) (escape_each s) (escaped-all c) (escape_each-all s)

unescape-escaped : (c : ℕ) (t : Text) → unescape none (escaped c ++ t) ≡ c ∷ unescape none t
unfolding escaped entity unescape named text_eq
unescape-escaped c t = elim (Bool-cases (is_escaped c)) [
  | inl h ↦
      by_entity (λ x. unescape none (escaped x ++ t) ≡ x ∷ unescape none t) refl refl refl refl refl
        refl c h
  | inr h ↦ rw (escaped_plain c h) (plain_unescape c t h)
]

unescape-escape_each : (s : Text) → unescape none (escape_each s) ≡ s
unfolding escape_each unescape
unescape-escape_each [] = refl
unescape-escape_each (c ∷ s) =
    unescape-escaped c (escape_each s) ∙ ap (λ t. c ∷ t) (unescape-escape_each s)

pub escape-escape_each : (s : Text) → escape s ≡ some (escape_each s)
unfolding escape
escape-escape_each s = escape_loop-enough (suc (length s)) s (omega arith)

-- `escape` ends without a panic on every text. What it writes has no quote, no angle bracket and no
-- carriage return, so it neither ends an attribute's value nor starts a tag; and a reader of HTML
-- that replaces the references for these characters and for the ampersand reads the text back.
pub escape_lem :
    (s : Text)
    → (t : Text) × (escape s ≡ some t) × (all is_harmless t ≡ true) × (unescape none t ≡ s)
unfolding escape
escape_lem s = (escape_each s, escape-escape_each s, escape_each-all s, unescape-escape_each s)
