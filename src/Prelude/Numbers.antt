-- ===== src/Prelude/Numbers.antt =====
-- Bounds on products.
use Prim.Native.Nat.{ℕ, ◌*◌, ◌≤◌}
use native.Mathlib.Nat.{mul-le-mul}

pub mul_bound : (a b c d : ℕ) → a ≤ c → b ≤ d → a * b ≤ c * d
mul_bound a b c d h k = mul-le-mul h k
