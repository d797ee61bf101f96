-- ===== src/Base/Division.antt =====
-- Division of native numbers, rounded down and up.
use Prim.Native.Nat.{ℕ, ◌+◌, ◌-◌, ◌*◌, ◌/◌, ◌≤◌, ◌<◌}
use native.Mathlib.Omega.{arith}

-- The quotient is the number of whole periods.
pub quotient_bounds : (n k : ℕ) → 0 < k → (n / k * k ≤ n) × (n < (n / k + 1) * k)
quotient_bounds n k h = grind arith

pub le-ceil_mul : (n k : ℕ) → 0 < k → n ≤ (n + k - 1) / k * k
le-ceil_mul n k h = grind (arith, quotient_bounds (n + k - 1) k h)

pub ceil_mul-lt : (n k : ℕ) → 0 < k → (n + k - 1) / k * k < n + k
ceil_mul-lt n k h = grind (arith, quotient_bounds (n + k - 1) k h)
