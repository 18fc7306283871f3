-- ===== src/Irq/Tests.antt =====
-- A controller of 16 bits, with lines 2 and 5 requested, and line 5 masked.
use ravenna_fpga_drivers.Common.{◌<◌, ◌≡◌, ◌≢◌, ◌⊎◌, refl, inr, true, ◌==◌, ◌||◌}
use ravenna_fpga_drivers.Irq.{Irq, irqchip_mask, irqchip_unmask, irq_handler, disable_all}
use ravenna_fpga_drivers.Irq.Pending.{
  IsPending, Delivers, Makes, irq_handler-Delivers, irqchip_masks-Make,
}

abbrev lines : Irq
lines = record { width = 16; request = λ p. p == 2 || p == 5; mask = λ p. p == 5 }

irq_handler-Delivers_example : Delivers lines (irq_handler lines)
irq_handler-Delivers_example = irq_handler-Delivers lines (inr refl)

irqchip_masks-Make_example :
    Makes lines (λ p. IsPending lines p × (5 ≢ p)) (irqchip_mask lines 5)
    × Makes lines
        (λ p. IsPending lines p ⊎ ((5 ≡ p) × (p < 16) × (lines.request p ≡ true)))
        (irqchip_unmask lines 5)
    × Makes lines (λ p. ⊥) (disable_all lines)
irqchip_masks-Make_example = irqchip_masks-Make lines 5 (inr refl)
