-- ===== src/Base/Strings.antt =====
-- What the source uses of Go's package strings, on texts of code points.
use Prim.Native.Nat.{ℕ}
use mathlib.Core.Bool.{Bool, true, false, ◌&&◌, ◌||◌}
use mathlib.Core.List.{List, [], ◌∷◌, ◌++◌, reverse}
use kweb.Base.Tests.{◌==◌, leb, if◌then◌else◌}
use kweb.Base.Lists.{Text, text_eq}

unfoldable pub has_prefix : Text → Text → Bool
has_prefix s [] = true
has_prefix [] (p ∷ ps) = false
has_prefix (c ∷ s) (p ∷ ps) = c == p && has_prefix s ps

unfoldable pub has_suffix : Text → Text → Bool
has_suffix [] suffix = text_eq [] suffix
has_suffix (c ∷ s) suffix = text_eq (c ∷ s) suffix || has_suffix s suffix

-- `strings.Contains`
unfoldable pub contains_text : Text → Text → Bool
contains_text [] part = has_prefix [] part
contains_text (c ∷ s) part = has_prefix (c ∷ s) part || contains_text s part

unfoldable pub trim_prefix : Text → Text → Text
trim_prefix s [] = s
trim_prefix [] (p ∷ ps) = []
trim_prefix (c ∷ s) (p ∷ ps) = if has_prefix (c ∷ s) (p ∷ ps) then trim_prefix s ps else c ∷ s

-- A suffix that is not empty is taken off the end.
unfoldable pub trim_suffix : Text → Text → Text
trim_suffix [] suffix = []
trim_suffix (c ∷ s) suffix = if text_eq (c ∷ s) suffix then [] else c ∷ trim_suffix s suffix

-- `strings.Trim` with one character.
unfoldable pub trim_left : ℕ → Text → Text
trim_left x [] = []
trim_left x (c ∷ s) = if c == x then trim_left x s else c ∷ s

unfoldable pub trim : ℕ → Text → Text
trim x s = reverse (trim_left x (reverse (trim_left x s)))

-- `strings.Split` at one character, on the part read so far.
unfoldable pub split_from : ℕ → Text → Text → List Text
split_from x part [] = part ∷ []
split_from x part (c ∷ s) =
    let ended = part ∷ split_from x [] s in
    let longer = split_from x (part ++ c ∷ []) s in if c == x then ended else longer

unfoldable pub split : ℕ → Text → List Text
split x s = split_from x [] s

-- `unicode.IsSpace`
unfoldable pub is_space : ℕ → Bool
is_space c =
    (leb 9 c && leb c 13)
    || c == 0x20
    || c == 0x85
    || c == 0xa0
    || c == 0x1680
    || (leb 0x2000 c && leb c 0x200a)
    || c == 0x2028
    || c == 0x2029
    || c == 0x202f
    || c == 0x205f
    || c == 0x3000

-- A part that is empty is left out.
unfoldable pub flush : Text → List Text → List Text
flush [] parts = parts
flush (c ∷ s) parts = (c ∷ s) ∷ parts

-- `strings.Fields`, on the part read so far.
unfoldable pub fields_from : Text → Text → List Text
fields_from part [] = flush part []
fields_from part (c ∷ s) =
    let ended = flush part (fields_from [] s) in
    let longer = fields_from (part ++ c ∷ []) s in if is_space c then ended else longer

unfoldable pub fields : Text → List Text
fields s = fields_from [] s
