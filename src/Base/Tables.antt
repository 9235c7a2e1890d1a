-- ===== src/Base/Tables.antt =====
-- Facts about small numbers, by evaluation at each of them.
use Prim.Native.Nat.{ℕ, zero, suc, ◌<◌}
use mathlib.Core.Path.{◌≡◌}
use mathlib.Core.Bool.{Bool, true, ◌&&◌}
use native.Mathlib.Omega.{arith}

unfoldable pub all_below : ℕ → (ℕ → Bool) → Bool
all_below zero test = true
all_below (suc bound) test = all_below bound test && test bound

-- A test that holds all the way up to a bound holds at each number below it.
pub all_below_sound :
    (bound : ℕ) (test : ℕ → Bool) (a : ℕ) → all_below bound test ≡ true → a < bound → test a ≡ true
unfolding all_below
all_below_sound zero test a all lt = absurd (omega arith)
all_below_sound (suc bound) test a all lt =
    let before = all_below_sound bound test a in ground arith
