-- ===== src/Common/Int.antt =====
-- Signed integers.
use Prim.Native.Nat.{ℕ, ◌-◌, ◌%◌}
use mathlib.Core.Bool.{Bool, true, false}
use ravenna_fpga_drivers.Common.Tests.{leb, ltb, if◌then◌else◌}

-- `negsuc n` is -(n + 1).
pub data ℤ : Type 0 where
  pos : ℕ → ℤ
  negsuc : ℕ → ℤ

abbrev pub leb_ℤ : ℤ → ℤ → Bool
leb_ℤ (pos a) (pos b) = leb a b
leb_ℤ (pos a) (negsuc b) = false
leb_ℤ (negsuc a) (pos b) = true
leb_ℤ (negsuc a) (negsuc b) = leb b a

-- The conversion to `__s16`: the low 16 bits, read in two's complement.
abbrev pub to_s16 : ℕ → ℤ
to_s16 n = let m = n % 65536 in if ltb m 32768 then pos m else negsuc (65535 - m)
