-- ===== src/Base/Int.antt =====
-- Signed integers over the native numbers, and the wrap of an int64.
use Prim.Native.Nat.{ℕ, suc, ◌-◌, ◌*◌, ◌%◌, ◌^◌}
use mathlib.Core.Bool.{Bool}
use a_from_scratch_linux_use.Base.Tests.{ltb, leb, if◌then◌else◌}

-- `negsuc n` is -(n + 1).
pub data ℤ : Type 0 where
  pos : ℕ → ℤ
  negsuc : ℕ → ℤ

abbrev pub neg : ℕ → ℤ
neg n = if leb n 0 then pos 0 else negsuc (n - 1)

-- 0 < z
abbrev pub positive : ℤ → Bool
positive (pos n) = ltb 0 n
positive (negsuc n) = leb 1 0

-- z * k
abbrev pub scale : ℕ → ℤ → ℤ
scale k (pos n) = pos (n * k)
scale k (negsuc n) = neg (suc n * k)

-- The bit pattern of z in 64 bits.
abbrev pub bits64 : ℤ → ℕ
bits64 (pos n) = n % 2 ^ 64
bits64 (negsuc n) = 2 ^ 64 - 1 - n % 2 ^ 64

-- The value of an int64 that holds z, which wraps.
unfoldable pub int64 : ℤ → ℤ
int64 z = let w = bits64 z in if ltb w (2 ^ 63) then pos w else negsuc (2 ^ 64 - w - 1)
