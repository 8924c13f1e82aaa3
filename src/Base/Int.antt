-- ===== src/Base/Int.antt =====
-- Signed C integers: the library's name ℤ over the native numbers, and the narrowing to `int8_t`.
use Prim.Native.Nat.{ℕ, ◌-◌, ◌%◌, ◌<◌}
use mathlib.Core.Path.{◌≡◌, refl}
use mathlib.Core.Logic.{◌≢◌}
use mathlib.Core.Bool.{Bool, true, false}
use native.Mathlib.Omega.{arith}
use a4091_software.Base.Tests.{ltb, ◌==◌, if◌then◌else◌}

-- `negsuc n` is -(n + 1).
pub data ℤ : Type 0 where
  pos : ℕ → ℤ
  negsuc : ℕ → ℤ

abbrev pub is_zero : ℤ → Bool
is_zero (pos n) = n == 0
is_zero (negsuc n) = false

-- An `int` stored in an `int8_t` field, two's complement.
unfoldable pub to_int8 : ℤ → ℤ
to_int8 (pos n) = let m = n % 256 in if ltb m 128 then pos m else negsuc (255 - m)
to_int8 (negsuc n) = let m = n % 256 in if ltb m 128 then negsuc m else pos (255 - m)

pub to_int8-pos : (n : ℕ) → n < 128 → to_int8 (pos n) ≡ pos n
unfolding to_int8
to_int8-pos n h = ground arith

pub to_int8-negsuc : (n : ℕ) → n < 128 → to_int8 (negsuc n) ≡ negsuc n
unfolding to_int8
to_int8-negsuc n h = ground arith

-- An `int` stored in a `uint8_t` field.
unfoldable pub to_uint8 : ℤ → ℕ
to_uint8 (pos n) = n % 256
to_uint8 (negsuc n) = 255 - n % 256

pub is_zero_of_ne : (z : ℤ) → z ≢ pos 0 → is_zero z ≡ false
is_zero_of_ne (pos n) h = ground arith
is_zero_of_ne (negsuc n) h = refl

pub is_zero→ : (z : ℤ) → is_zero z ≡ true → z ≡ pos 0
is_zero→ (pos n) h = ground arith
is_zero→ (negsuc n) h = cc
