-- ===== src/Base/Bits.antt =====
-- Single bits of a word, by recursion on their place.
use Prim.Native.Nat.{ℕ, zero, suc, ◌+◌, ◌*◌, ◌/◌, ◌%◌}
use mathlib.Core.Path.{◌≡◌, refl, ap, ◌∙◌}
use mathlib.Core.Bool.{Bool, false, ◌||◌}
use native.Mathlib.Omega.{arith}
use a_from_scratch_linux_use.Base.Tests.{◌==◌, if◌then◌else◌}

-- Whether bit `k` of x is set.
unfoldable pub test_bit : ℕ → ℕ → Bool
test_bit x zero = x % 2 == 1
test_bit x (suc k) = test_bit (x / 2) k

-- x | (1 << k)
unfoldable pub or_bit : ℕ → ℕ → ℕ
or_bit x zero = if x % 2 == 1 then x else x + 1
or_bit x (suc k) = 2 * or_bit (x / 2) k + x % 2

half-or_bit : (x : ℕ) → or_bit x 0 / 2 ≡ x / 2
unfolding or_bit
half-or_bit x = ground arith

half_double : (y b : ℕ) → (2 * y + b % 2) / 2 ≡ y
half_double y b = omega arith

pub test_bit-or_bit : (x k j : ℕ) → test_bit (or_bit x k) j ≡ ((k == j) || test_bit x j)
unfolding test_bit or_bit
test_bit-or_bit x zero zero = ground arith
test_bit-or_bit x zero (suc j) = ap (λ t. test_bit t j) (half-or_bit x) ∙ ground arith
test_bit-or_bit x (suc k) zero = ground arith
test_bit-or_bit x (suc k) (suc j) =
    ap (λ t. test_bit t j) (half_double (or_bit (x / 2) k) x)
    ∙ ground (arith, test_bit-or_bit (x / 2) k j)

pub test_bit_zero : (j : ℕ) → test_bit 0 j ≡ false
unfolding test_bit
test_bit_zero zero = refl
test_bit_zero (suc j) = test_bit_zero j
