-- ===== src/Common/Int.antt =====
-- Signed integers over the native numbers, and the C++ conversions between fixed widths.
use Prim.Native.Nat.{ℕ, suc, ◌+◌, ◌-◌, ◌%◌, ◌^◌, ◌<◌}
use mathlib.Core.Path.{◌≡◌}
use mathlib.Core.Bool.{Bool, true, false}
use native.Mathlib.Omega.{arith}
use hector_recorder.Common.Tests.{ltb, leb, if◌then◌else◌}

-- `negsuc n` is -(n + 1).
pub data ℤ : Type 0 where
  pos : ℕ → ℤ
  negsuc : ℕ → ℤ

abbrev pub pos_part : ℤ → ℕ
pos_part (pos n) = n
pos_part (negsuc n) = 0

abbrev pub neg_part : ℤ → ℕ
neg_part (pos n) = 0
neg_part (negsuc n) = suc n

abbrev pub sub_ℕ : ℕ → ℕ → ℤ
sub_ℕ a b = if leb b a then pos (a - b) else negsuc (b - a - 1)

abbrev pub ltb_ℤ : ℤ → ℤ → Bool
ltb_ℤ a b = ltb (pos_part a + neg_part b) (pos_part b + neg_part a)

abbrev pub leb_ℤ : ℤ → ℤ → Bool
leb_ℤ a b = leb (pos_part a + neg_part b) (pos_part b + neg_part a)

abbrev pub is_neg : ℤ → Bool
is_neg (pos n) = false
is_neg (negsuc n) = true

-- static_cast of a 64-bit pattern to int64_t.
abbrev pub to_int64 : ℕ → ℤ
to_int64 n =
    if ltb (n % 2 ^ 64) (2 ^ 63) then pos (n % 2 ^ 64) else negsuc (2 ^ 64 - n % 2 ^ 64 - 1)

-- static_cast of a signed value to an unsigned width: the residue.
abbrev pub to_uint64 : ℤ → ℕ
to_uint64 (pos n) = n % 2 ^ 64
to_uint64 (negsuc n) = 2 ^ 64 - 1 - n % 2 ^ 64

abbrev pub to_uint32 : ℤ → ℕ
to_uint32 (pos n) = n % 2 ^ 32
to_uint32 (negsuc n) = 2 ^ 32 - 1 - n % 2 ^ 32

-- static_cast to int32_t.
abbrev pub to_int32 : ℤ → ℤ
to_int32 z = let n = to_uint32 z in if ltb n (2 ^ 31) then pos n else negsuc (2 ^ 32 - n - 1)

pub to_int64_small : (n : ℕ) → n < 2 ^ 63 → to_int64 n ≡ pos n
to_int64_small n h = ground arith
