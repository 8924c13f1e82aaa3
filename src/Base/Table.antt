-- ===== src/Base/Table.antt =====
-- A claim about the numbers below a bound, checked by evaluation at each.
use Prim.Native.Nat.{ℕ, zero, suc, ◌<◌}
use mathlib.Core.Path.{◌≡◌}
use mathlib.Core.Bool.{Bool, true, false}
use native.Mathlib.Omega.{arith}
use a4091_software.Base.Tests.{if◌then◌else◌}

unfoldable pub every_below : ℕ → (ℕ → Bool) → Bool
every_below zero test = true
every_below (suc bound) test =
    let others = every_below bound test in if test bound then others else false

pub every_below_lem :
    (bound : ℕ) (test : ℕ → Bool) (k : ℕ)
    → every_below bound test ≡ true
    → k < bound
    → test k ≡ true
unfolding every_below
every_below_lem zero test k checked small = absurd (omega arith)
every_below_lem (suc bound) test k checked small = ground (arith, every_below_lem bound test k)
