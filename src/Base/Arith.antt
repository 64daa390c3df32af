-- ===== src/Base/Arith.antt =====
-- Arithmetic that several parts use: division rounded up, and cancelling a factor.
use Prim.Native.Nat.{ℕ, zero, suc, ◌+◌, ◌-◌, ◌*◌, ◌/◌, ◌≤◌, ◌<◌}
use native.Mathlib.Nat.{div-add-mod, mod-lt}
use native.Mathlib.Omega.{arith}

-- Go's (a + q - 1) / q is the least number of q's that covers a.
pub ceil_div : (a q : ℕ) → 1 ≤ q → (a ≤ q * ((a + q - 1) / q)) × (q * ((a + q - 1) / q) < a + q)
ceil_div a q h = (
  omega (arith, div-add-mod (a + q - 1) q, mod-lt (a + q - 1) h),
  omega (arith, div-add-mod (a + q - 1) q, mod-lt (a + q - 1) h),
)

pub pos_of_mul : (i q : ℕ) → 1 ≤ q * i → 1 ≤ i
pos_of_mul zero q h = omega arith
pos_of_mul (suc i) q h = omega arith

pub lt_of_mul : (e n k : ℕ) → n * e < k * e → n < k
lt_of_mul e n k h = grind arith
