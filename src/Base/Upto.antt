-- ===== src/Base/Upto.antt =====
-- Checking a finite range by evaluation.
use Prim.Native.Nat.{ℕ, zero, suc, ◌<◌}
use mathlib.Core.Path.{◌≡◌}
use mathlib.Core.Bool.{Bool, true, ◌&&◌}
use native.Mathlib.Omega.{arith}

-- The test on every number below the bound, the greatest first.
unfoldable pub every_until : (ℕ → Bool) → (bound : ℕ) → Bool
every_until test zero = true
every_until test (suc bound) = test bound && every_until test bound

pub every_until-holds :
    (test : ℕ → Bool) (bound k : ℕ) → every_until test bound ≡ true → k < bound → test k ≡ true
unfolding every_until
every_until-holds test zero k all below = absurd (omega arith)
every_until-holds test (suc bound) k all below = ground (arith, every_until-holds test bound k)
