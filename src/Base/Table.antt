-- ===== src/Base/Table.antt =====
-- Facts over a small range, checked by evaluating every value.
use Prim.Native.Nat.{ℕ, zero, suc, ◌<◌}
use mathlib.Core.Path.{◌≡◌}
use mathlib.Core.Bool.{Bool, true, ◌&&◌}
use native.Mathlib.Omega.{arith}

unfoldable pub all_below : ℕ → (ℕ → Bool) → Bool
all_below zero test = true
all_below (suc bound) test = all_below bound test && test bound

pub all_below_sound :
    (bound : ℕ) (test : ℕ → Bool)
    → all_below bound test ≡ true
    → (v : ℕ) → v < bound
    → test v ≡ true
unfolding all_below
all_below_sound zero test checked v small = absurd (omega arith)
all_below_sound (suc bound) test checked v small =
    ground (arith, λ (checked : all_below bound test ≡ true). all_below_sound bound test checked v)
