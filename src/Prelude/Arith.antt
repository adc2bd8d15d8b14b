-- ===== src/Prelude/Arith.antt =====
-- Bounds on products, which `omega` takes as given.
use Prim.Native.Nat.{ℕ, ◌+◌, ◌-◌, ◌*◌, ◌≤◌, ◌<◌}
use mathlib.Core.Path.{◌≡◌, ◌∙◌, ap₂}
use native.Mathlib.Nat.{mul_comm, mul-sub}
use native.Mathlib.Omega.{arith}

pub mul-le : (i n k : ℕ) → i < n → i * k + k ≤ n * k
mul-le i n k h = grind arith

pub sub-mul : (m n k : ℕ) → (m - n) * k ≡ m * k - n * k
sub-mul m n k = mul_comm (m - n) k ∙ mul-sub k m n ∙ ap₂ ◌-◌ (mul_comm k m) (mul_comm k n)
