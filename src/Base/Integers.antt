-- ===== src/Base/Integers.antt =====
-- The signed integers of Go and what the source uses of package strconv.
use Prim.Native.Nat.{ℕ, zero, suc, ◌+◌, ◌-◌, ◌*◌, ◌^◌}
use mathlib.Core.Path.{◌≡◌, refl}
use mathlib.Core.Bool.{Bool, true, false, ◌&&◌}
use mathlib.Core.List.{[], ◌∷◌}
use native.Mathlib.Omega.{arith}
use kweb.Base.Tests.{leb, ◌==◌, if◌then◌else◌}
use kweb.Base.Lists.{Text}

-- `negsuc n` is -(n + 1).
pub data ℤ : Type 0 where
  pos : ℕ → ℤ
  negsuc : ℕ → ℤ

abbrev pub int_eq : ℤ → ℤ → Bool
int_eq (pos a) (pos b) = a == b
int_eq (negsuc a) (negsuc b) = a == b
int_eq _ _ = false

abbrev pub int_leb : ℤ → ℤ → Bool
int_leb (pos a) (pos b) = leb a b
int_leb (pos a) (negsuc b) = false
int_leb (negsuc a) (pos b) = true
int_leb (negsuc a) (negsuc b) = leb b a

pub int_eq-true : (a b : ℤ) → int_eq a b ≡ true → a ≡ b
int_eq-true (pos a) (pos b) h = ground arith
int_eq-true (negsuc a) (negsuc b) h = ground arith
int_eq-true (pos a) (negsuc b) h = cc
int_eq-true (negsuc a) (pos b) h = cc

pub int_eq_refl : (a : ℤ) → int_eq a a ≡ true
int_eq_refl (pos a) = ground arith
int_eq_refl (negsuc a) = ground arith

pub int_leb_refl : (a : ℤ) → int_leb a a ≡ true
int_leb_refl (pos a) = ground arith
int_leb_refl (negsuc a) = ground arith

pub int_leb_trans : (a b c : ℤ) → int_leb a b ≡ true → int_leb b c ≡ true → int_leb a c ≡ true
int_leb_trans (pos a) (pos b) (pos c) h k = ground arith
int_leb_trans (pos a) (pos b) (negsuc c) h k = cc
int_leb_trans (pos a) (negsuc b) c h k = cc
int_leb_trans (negsuc a) b (pos c) h k = refl
int_leb_trans (negsuc a) (pos b) (negsuc c) h k = cc
int_leb_trans (negsuc a) (negsuc b) (negsuc c) h k = ground arith

pub int_leb_total : (a b : ℤ) → int_leb a b ≡ false → int_leb b a ≡ true
int_leb_total (pos a) (pos b) h = ground arith
int_leb_total (pos a) (negsuc b) h = refl
int_leb_total (negsuc a) (pos b) h = cc
int_leb_total (negsuc a) (negsuc b) h = ground arith

-- `id + 1` on an int32.
unfoldable pub int32_suc : ℤ → ℤ
int32_suc (pos n) = if n == 2 ^ 31 - 1 then negsuc (2 ^ 31 - 1) else pos (n + 1)
int32_suc (negsuc zero) = pos 0
int32_suc (negsuc (suc n)) = negsuc n

-- The outcome of the digits in ParseInt: a syntax error, a number that is out of range for the
-- unsigned type, or a number.
pub data Digits : Type 0 where
  bad_syntax : Digits
  out_of_range : Digits
  number : ℕ → Digits

unfoldable pub read_digits : ℕ → Text → Digits
read_digits n [] = number n
read_digits n (c ∷ s) =
    let rest = read_digits (n * 10 + (c - 48)) s in
    if leb 48 c && leb c 57
    then (if leb (2 ^ 64) (n * 10 + (c - 48)) then out_of_range else rest)
    else bad_syntax

unfoldable pub read_unsigned : Text → Digits
unfolding read_digits
read_unsigned [] = bad_syntax
read_unsigned (c ∷ s) = read_digits 0 (c ∷ s)

abbrev clamp_positive : ℕ → ℤ × Bool
clamp_positive n = if leb (2 ^ 63) n then (pos (2 ^ 63 - 1), false) else (pos n, true)

abbrev clamp_negative : ℕ → ℤ × Bool
clamp_negative zero = (pos 0, true)
clamp_negative (suc n) = if leb (2 ^ 63) n then (negsuc (2 ^ 63 - 1), false) else (negsuc n, true)

unfoldable pub signed : (ℕ → ℤ × Bool) → Digits → ℤ × Bool
signed clamp bad_syntax = (pos 0, false)
signed clamp out_of_range = clamp (2 ^ 64 - 1)
signed clamp (number n) = clamp n

-- `strconv.ParseInt(s, 10, 64)`: the value that is returned, and whether there is no error.
unfoldable pub parse_int64 : Text → ℤ × Bool
unfolding read_unsigned signed
parse_int64 [] = (pos 0, false)
parse_int64 (c ∷ s) =
    if c == 43
    then signed clamp_positive (read_unsigned s)
    else if c == 45
    then signed clamp_negative (read_unsigned s)
    else signed clamp_positive (read_unsigned (c ∷ s))
