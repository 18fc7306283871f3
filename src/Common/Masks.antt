-- ===== src/Common/Masks.antt =====
-- `x & mask` for a mask that is given by its binary digits, the lowest first.
use Prim.Native.Nat.{ℕ, zero, suc, ◌+◌, ◌*◌, ◌/◌, ◌%◌, ◌≤◌, min, bit_and, digits, bit_and-bitwise}
use mathlib.Core.Path.{◌≡◌, refl, ap, ◌∙◌}
use mathlib.Core.Bool.{Bool, true, false}
use mathlib.Core.List.{List, [], ◌∷◌}
use native.Mathlib.Omega.{arith}

abbrev digit : Bool → ℕ
digit false = 0
digit true = 1

abbrev pub mask_of : List Bool → ℕ
mask_of [] = 0
mask_of (b ∷ bs) = mask_of bs * 2 + digit b

abbrev if_set : Bool → ℕ → ℕ
if_set false d = 0
if_set true d = d

-- The digits of a number under a mask.
abbrev pub pick : List Bool → ℕ → ℕ
pick [] a = 0
pick (b ∷ bs) a = pick bs (a / 2) * 2 + if_set b (a % 2)

abbrev common : ℕ → ℕ → ℕ → ℕ
common n a b = digits (λ b. zero) min n a b

pick_zero : (bs : List Bool) → pick bs 0 ≡ 0
pick_zero [] = refl
pick_zero (false ∷ bs) = omega (arith, pick_zero bs)
pick_zero (true ∷ bs) = omega (arith, pick_zero bs)

common-pick : (bs : List Bool) (n a : ℕ) → a ≤ n → common n a (mask_of bs) ≡ pick bs a
common-pick bs zero zero h = omega (arith, pick_zero bs)
common-pick bs zero (suc a) h = absurd (omega arith)
common-pick bs (suc n) zero h = omega (arith, pick_zero bs)
common-pick [] (suc n) (suc a) h = omega (arith, common-pick [] n (suc a / 2) (omega arith))
common-pick (false ∷ bs) (suc n) (suc a) h =
    ap (λ m. common n (suc a / 2) m * 2 + min (suc a % 2) ((mask_of bs * 2 + 0) % 2))
      {x = (mask_of bs * 2 + 0) / 2} {y = mask_of bs} (omega arith)
    ∙ omega (arith, common-pick bs n (suc a / 2) (omega arith))
common-pick (true ∷ bs) (suc n) (suc a) h =
    ap (λ m. common n (suc a / 2) m * 2 + min (suc a % 2) ((mask_of bs * 2 + 1) % 2))
      {x = (mask_of bs * 2 + 1) / 2} {y = mask_of bs} (omega arith)
    ∙ omega (arith, common-pick bs n (suc a / 2) (omega arith))

pub bit_and-pick : (bs : List Bool) (a : ℕ) → bit_and a (mask_of bs) ≡ pick bs a
bit_and-pick bs a = bit_and-bitwise a (mask_of bs) ∙ common-pick bs a a (omega arith)
