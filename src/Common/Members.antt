-- ===== src/Common/Members.antt =====
-- Lists of numbers without repetition.
use Prim.Native.Nat.{ℕ}
use mathlib.Core.Path.{◌≡◌}
use mathlib.Core.Bool.{Bool, false, ◌||◌}
use mathlib.Core.List.{List, [], ◌∷◌}
use ravenna_fpga_drivers.Common.Tests.{◌==◌}

abbrev pub mem : ℕ → List ℕ → Bool
mem t [] = false
mem t (x ∷ xs) = x == t || mem t xs

-- No element occurs twice.
abbrev pub Distinct : List ℕ → Type 0
Distinct [] = Unit {0}
Distinct (x ∷ xs) = (mem x xs ≡ false) × Distinct xs
