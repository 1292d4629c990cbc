-- ===== src/Base/Order.antt =====
-- Bounds of quotients.
use Prim.Native.Nat.{ℕ, ◌*◌, ◌/◌, ◌<◌, ◌≤◌}
use native.Mathlib.Omega.{arith}

pub div-le : (a b d : ℕ) → 0 < d → a ≤ b * d → a / d ≤ b
div-le a b d pos le = grind arith
