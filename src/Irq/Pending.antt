-- ===== src/Irq/Pending.antt =====
-- Which interrupts the controller delivers.
use ravenna_fpga_drivers.Common.{
  mem, Distinct, ℕ, zero, suc, ◌+◌, ◌≤◌, ◌<◌, ◌≡◌, ◌≢◌, refl, sym, ap, ◌∙◌, ◌↔◌, ◌⊎◌, inl, inr,
  true, false, Option, some, List, arith, ◌==◌, ==_iff, Bool-cases,
}
use ravenna_fpga_drivers.Kernel.{Bitmap, bitmap_set, bitmap_clear}
use ravenna_fpga_drivers.Irq.{
  Irq, Reg, request_reg, mask_reg, irq_ior, irq_iow, irqchip_mask, irqchip_unmask, set_bits_from,
  and_not, irq_handler, disable_all, low, value, put,
}

-- The widths that the driver is bound to.
abbrev pub IsKnown : ℕ → Type 0
IsKnown width = (width ≡ 32) ⊎ (width ≡ 16)

-- The interrupt is requested, and not masked.
abbrev pub IsPending : Irq → ℕ → Type 0
IsPending priv p = (p < priv.width) × (priv.request p ≡ true) × (priv.mask p ≡ false)

ior_known :
    (priv : Irq) (reg : Reg)
    → IsKnown priv.width
    → irq_ior priv reg ≡ some (low priv.width (value priv reg))
unfolding irq_ior
ior_known priv reg (inl e) = rw e
ior_known priv reg (inr e) = rw e

iow_known :
    (priv : Irq) (reg : Reg) (val : Bitmap)
    → IsKnown priv.width
    → irq_iow priv reg val ≡ some (put priv reg (low priv.width val))
unfolding irq_iow
iow_known priv reg val (inl e) = rw e
iow_known priv reg val (inr e) = rw e

-- The bits come in ascending order, and are those that are set.
set_bits_from_lem :
    (m : Bitmap) (i left : ℕ)
    → Distinct (set_bits_from m i left)
      × ((p : ℕ)
          → (mem p (set_bits_from m i left) ≡ true) ↔ ((i ≤ p) × (p < i + left) × (m p ≡ true)))
unfolding set_bits_from
set_bits_from_lem m i zero =
    (tt, λ p. (λ h. absurd (ground arith), λ h. absurd (omega (arith, h.0, h.1))))
set_bits_from_lem m i (suc left) =
    let (distinct, iff) = set_bits_from_lem m (suc i) left in
    elim (Bool-cases (m i)) [
      | inr clear ↦ rw clear (
        distinct,
        λ p. (
          λ h. (omega (arith, ((iff p).0 h).0), omega (arith, ((iff p).0 h).1), ((iff p).0 h).2),
          λ h. elim (Bool-cases (i == p)) [
            | inl e ↦ absurd (ground (arith, h.2, ap m ((==_iff i p).0 e)))
            | inr e ↦ (iff p).1 (ground (arith, h.0), omega (arith, h.1), h.2)
          ],
        ),
      )
      | inl set ↦ rw set (
        (
          elim (Bool-cases (mem i (set_bits_from m (suc i) left))) [
            | inl again ↦ absurd (omega (arith, ((iff i).0 again).0))
            | inr new ↦ new
          ],
          distinct,
        ),
        λ p. elim (Bool-cases (i == p)) [
          | inl e ↦
              rw e
                (λ h. (ground arith, ground arith, ap m (sym ((==_iff i p).0 e)) ∙ set), λ h. refl)
          | inr e ↦ rw e (
            λ h. (omega (arith, ((iff p).0 h).0), omega (arith, ((iff p).0 h).1), ((iff p).0 h).2),
            λ h. (iff p).1 (ground (arith, h.0), omega (arith, h.1), h.2),
          )
        ],
      )
    ]

-- What the handler delivers.
abbrev pub Delivers : Irq → Option (List ℕ) → Type 0
Delivers priv o =
    (hs : List ℕ) × (o ≡ some hs) × Distinct hs × ((p : ℕ) → (mem p hs ≡ true) ↔ IsPending priv p)

-- On an interrupt controller of a known width, the handler delivers exactly the interrupts that are
-- requested and not masked, each once.
pub irq_handler-Delivers : (priv : Irq) → IsKnown priv.width → Delivers priv (irq_handler priv)
unfolding irq_handler
irq_handler-Delivers priv known =
    let bits = and_not (low priv.width priv.request) (low priv.width priv.mask) in
    let (distinct, iff) = set_bits_from_lem bits 0 priv.width in
    (
      set_bits_from bits 0 priv.width,
      rw (ior_known priv request_reg known, ior_known priv mask_reg known),
      distinct,
      λ p. (
        λ h. let (lo, hi, b) = (iff p).0 h in ground arith,
        λ h. (iff p).1 (omega arith, omega (arith, h.0), ground (arith, h.0, h.1, h.2)),
      ),
    )

-- What a change of the masks does: afterwards, the interrupts of `pending` are pending.
abbrev pub Makes : Irq → (ℕ → Type 0) → Option Irq → Type 0
Makes priv pending o =
    (priv' : Irq) × (o ≡ some priv')
    × (priv'.width ≡ priv.width)
    × ((p : ℕ) → IsPending priv' p ↔ pending p)

-- On a controller of a known width, masking an interrupt takes it, and no other, out of the pending
-- ones.
pub irqchip_mask-Makes :
    (priv : Irq) (h : ℕ)
    → IsKnown priv.width
    → Makes priv (λ p. IsPending priv p × (h ≢ p)) (irqchip_mask priv h)
unfolding irqchip_mask
irqchip_mask-Makes priv h known = (
  record priv { mask = low priv.width (bitmap_set (low priv.width priv.mask) h 1) },
  rw (ior_known priv mask_reg known)
      (iow_known priv mask_reg (bitmap_set (low priv.width priv.mask) h 1) known),
  refl,
  λ p. (λ x. ground arith, λ x. ground arith),
)

-- On a controller of a known width, unmasking an interrupt adds it to the pending ones if it is
-- requested, and changes no other.
pub irqchip_unmask-Makes :
    (priv : Irq) (h : ℕ)
    → IsKnown priv.width
    → Makes priv
        (λ p. IsPending priv p ⊎ ((h ≡ p) × (p < priv.width) × (priv.request p ≡ true)))
        (irqchip_unmask priv h)
unfolding irqchip_unmask
irqchip_unmask-Makes priv h known = (
  record priv { mask = low priv.width (bitmap_clear (low priv.width priv.mask) h 1) },
  rw (ior_known priv mask_reg known)
      (iow_known priv mask_reg (bitmap_clear (low priv.width priv.mask) h 1) known),
  refl,
  λ p. (
    λ x. elim (Bool-cases (h == p)) [ inl e ↦ inr (ground arith) | inr e ↦ inl (ground arith) ],
    λ x. ground arith,
  ),
)

-- What the probe writes leaves no interrupt pending, on a controller of a known width.
pub disable_all-Makes : (priv : Irq) → IsKnown priv.width → Makes priv (λ p. ⊥) (disable_all priv)
unfolding disable_all
disable_all-Makes priv known = (
  record priv { mask = low priv.width (λ _. true) },
  iow_known priv mask_reg (λ _. true) known,
  refl,
  λ p. (λ x. ground arith, λ x. absurd x),
)

-- On an interrupt controller of a known width, masking an interrupt takes it, and no other, out of the
-- pending ones; unmasking it adds it to them if it is requested, and changes no other; and what the
-- probe writes leaves none pending.
pub irqchip_masks-Make :
    (priv : Irq) (h : ℕ)
    → IsKnown priv.width
    → Makes priv (λ p. IsPending priv p × (h ≢ p)) (irqchip_mask priv h)
      × Makes priv
          (λ p. IsPending priv p ⊎ ((h ≡ p) × (p < priv.width) × (priv.request p ≡ true)))
          (irqchip_unmask priv h)
      × Makes priv (λ p. ⊥) (disable_all priv)
irqchip_masks-Make priv h known = (
  irqchip_mask-Makes priv h known,
  irqchip_unmask-Makes priv h known,
  disable_all-Makes priv known,
)
