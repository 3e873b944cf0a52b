-- ===== src/Prelude/Range.antt =====
-- A claim about every number below a bound, checked by evaluation.
use Prim.Native.Nat.{ℕ, zero, suc, ◌<◌}
use mathlib.Core.Path.{◌≡◌}
use mathlib.Core.Bool.{Bool, true, ◌&&◌}
use native.Mathlib.Omega.{arith}

module _ (p : ℕ → Bool) where
  unfoldable pub holds_below : ℕ → Bool
  holds_below zero = true
  holds_below (suc bound) = holds_below bound && p bound

  pub holds_below_lem : (k bound : ℕ) → k < bound → holds_below bound ≡ true → p k ≡ true
  unfolding holds_below
  holds_below_lem k zero lt h = absurd (omega arith)
  holds_below_lem k (suc bound) lt h = ground (arith, holds_below_lem k bound)
