-- ===== src/Irq.antt =====
-- modules/irq/main.c: the interrupt controller. A register is the map of its bits. `none` is a BUG().
-- The spin lock makes `irqchip_mask` and `irqchip_unmask` one step each.
pub mod Pending
pub mod Tests
use ravenna_fpga_drivers.Common.{
  ℕ, zero, suc, Bool, true, false, not, ◌&&◌, Option, none, some, ◌>>=◌, List, [], ◌∷◌, ltb, ◌==◌,
  if◌then◌else◌,
}
use ravenna_fpga_drivers.Kernel.{Bitmap, bitmap_set, bitmap_clear}

-- `struct ra_irq_priv`, with what its registers hold.
pub record Irq : Type 0 where
  pub width : ℕ
  pub request : Bitmap
  pub mask : Bitmap

pub data Reg : Type 0 where
  request_reg mask_reg : Reg

abbrev pub value : Irq → Reg → Bitmap
value priv request_reg = priv.request
value priv mask_reg = priv.mask

abbrev pub put : Irq → Reg → Bitmap → Irq
put priv request_reg val = record priv { request = val }
put priv mask_reg val = record priv { mask = val }

-- The low `n` bits.
abbrev pub low : ℕ → Bitmap → Bitmap
low n m p = ltb p n && m p

unfoldable pub irq_ior : Irq → Reg → Option Bitmap
irq_ior priv reg =
    if priv.width == 32
    then some (low 32 (value priv reg))
    else if priv.width == 16
    then some (low 16 (value priv reg))
    else none

unfoldable pub irq_iow : Irq → Reg → Bitmap → Option Irq
irq_iow priv reg val =
    if priv.width == 32
    then some (put priv reg (low 32 val))
    else if priv.width == 16
    then some (put priv reg (low 16 val))
    else none

-- `v |= BIT(hwirq)`
pub irqchip_mask : Irq → ℕ → Option Irq
irqchip_mask priv hwirq = do v ← irq_ior priv mask_reg; irq_iow priv mask_reg (bitmap_set v hwirq 1)

-- `v &= ~BIT(hwirq)`
pub irqchip_unmask : Irq → ℕ → Option Irq
irqchip_unmask priv hwirq = do
  v ← irq_ior priv mask_reg
  irq_iow priv mask_reg (bitmap_clear v hwirq 1)

-- `for_each_set_bit` from `i` on, with `left` bits to go: the interrupts that are handled, in order.
pub set_bits_from : Bitmap → ℕ → ℕ → List ℕ
set_bits_from pending i zero = []
set_bits_from pending i (suc left) =
    let rest = set_bits_from pending (suc i) left in if pending i then i ∷ rest else rest

-- `irqs & ~mask`
abbrev pub and_not : Bitmap → Bitmap → Bitmap
and_not irqs mask p = irqs p && not (mask p)

pub irq_handler : Irq → Option (List ℕ)
irq_handler priv = do
  irqs ← irq_ior priv request_reg
  mask ← irq_ior priv mask_reg
  some (set_bits_from (and_not irqs mask) 0 priv.width)

-- What the probe writes: all sources are disabled.
pub disable_all : Irq → Option Irq
disable_all priv = irq_iow priv mask_reg (λ _. true)
