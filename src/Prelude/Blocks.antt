-- ===== src/Prelude/Blocks.antt =====
-- Arithmetic of counts in blocks: products, and division rounded down and up.
use Prim.Native.Nat.{ℕ, suc, ◌+◌, ◌-◌, ◌*◌, ◌/◌, ◌≤◌, ◌<◌}
use native.Mathlib.Omega.{arith}

pub mul-le : (i j k : ℕ) → i ≤ j → i * k ≤ j * k
mul-le i j k h = grind arith

pub mul-add-le : (i j k : ℕ) → i < j → i * k + k ≤ j * k
mul-add-le i j k h = omega (arith, mul-le (suc i) j k h)

pub div-mul-le : (n k : ℕ) → n / k * k ≤ n
div-mul-le n k = grind arith

pub le-div : (i n k : ℕ) → 0 < k → i * k ≤ n → i ≤ n / k
le-div i n k p h = grind arith

pub div_mono : (m n k : ℕ) → 0 < k → m ≤ n → m / k ≤ n / k
div_mono m n k p h = le-div (m / k) n k p (omega (arith, div-mul-le m k))

pub div-le : (i n k : ℕ) → 0 < k → n ≤ i * k → n / k ≤ i
div-le i n k p h = grind arith

-- A block that ends within `n` lies below `n` divided up.
pub lt-div_up : (i n k : ℕ) → 0 < k → i * k < n → i < (n + k - 1) / k
lt-div_up i n k p h = omega (arith, le-div (i + 1) (n + k - 1) k p (omega arith))

pub div_up-mul : (n k : ℕ) → 0 < k → n ≤ (n + k - 1) / k * k
div_up-mul n k p = grind arith
