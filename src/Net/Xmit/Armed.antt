-- ===== src/Net/Xmit/Armed.antt =====
-- A stopped queue is started again.
use ravenna_fpga_drivers.Common.{
  ℕ, ◌%◌, ◌^◌, ◌≡◌, refl, ◌∙◌, Bool, true, false, not, ◌&&◌, List, [], ◌∷◌, arith, ltb, ◌==◌,
  Bool-cases, inl, inr, ◌⊎◌,
}
use ravenna_fpga_drivers.Kernel.{Result, Bitmap, err, enomem, enospc}
use ravenna_fpga_drivers.Net.TxTs.{Effect, kfree_skb}
use ravenna_fpga_drivers.Net.Xmit.{
  Dev, Buffer, Frame, irq_disable, irq_tx_empty, irq_tx_space_available, irq_rx_packet_available,
  irq_rx_overrun, tx_fifo_min_space_available, throttle, out, transmit, hw_xmit_skb, needs_copy,
  aligned, padded_len, irqhandler, when, active, on_overrun, on_packet, on_space, on_timestamp,
  reset,
}

-- While the device is throttled, the interrupt for space in the FIFO is enabled.
abbrev pub IsArmed : Dev → Type 0
IsArmed dev = (dev.tx_throttle ≡ false) ⊎ (dev.irq_disable irq_tx_space_available ≡ false)

throttle-IsArmed : (dev : Dev) (free : ℕ) → IsArmed dev → IsArmed (throttle dev free)
unfolding throttle
throttle-IsArmed dev free a = elim (Bool-cases (ltb free tx_fifo_min_space_available)) [
  | inl e ↦ rw e (inr refl)
  | inr e ↦ rw e a
]

out-IsArmed :
    (dev : Dev) (result : Result ℕ) (es : List Effect) (fs : List Frame)
    → IsArmed dev
    → IsArmed (out dev result es fs).dev
unfolding out
out-IsArmed dev result es fs a = elim (Bool-cases (not dev.tx_throttle)) [
  | inl e ↦ rw e a
  | inr e ↦ rw e a
]

-- Only the two fields matter.
IsArmed-of :
    (dev dev' : Dev)
    → dev'.tx_throttle ≡ dev.tx_throttle
    → dev'.irq_disable irq_tx_space_available ≡ dev.irq_disable irq_tx_space_available
    → IsArmed dev
    → IsArmed dev'
IsArmed-of dev dev' e f (inl off) = inl (e ∙ off)
IsArmed-of dev dev' e f (inr armed) = inr (f ∙ armed)

transmit-IsArmed : (dev : Dev) (b : Buffer) → IsArmed dev → IsArmed (transmit dev b).dev
unfolding transmit out
transmit-IsArmed dev b a = elim (Bool-cases (not dev.tx_throttle)) [
  | inl e ↦ rw e a
  | inr e ↦ rw e a
]

-- Each packet that is sent keeps it.
pub hw_xmit_skb-IsArmed :
    (dev : Dev) (b : Buffer) (has_memory : Bool) (tx_state : ℕ)
    → IsArmed dev
    → IsArmed (hw_xmit_skb dev b has_memory tx_state).dev
unfolding hw_xmit_skb
hw_xmit_skb-IsArmed dev b has_memory tx_state a =
    let throttled = throttle-IsArmed dev (tx_state % 2 ^ 13) a in
    elim (Bool-cases (b.skb.len == 0)) [
      | inl e ↦ rw e a
      | inr e ↦ rw e (elim (Bool-cases (needs_copy b && not has_memory)) [
        | inl e' ↦ rw e' (out-IsArmed dev (err enomem) (kfree_skb b.skb ∷ []) [] a)
        | inr e' ↦ rw e' (elim (Bool-cases (ltb (tx_state % 2 ^ 13) (aligned (padded_len b.skb)))) [
          | inl full ↦
              rw full (out-IsArmed (throttle dev (tx_state % 2 ^ 13)) (err enospc) [] [] throttled)
          | inr room ↦ rw room (transmit-IsArmed (throttle dev (tx_state % 2 ^ 13)) b throttled)
        ])
      ])
    ]

pub when-keeps :
    (P : Dev → Type 0) (b : Bool) (f : Dev → Dev) (dev : Dev)
    → ((d : Dev) → P d → P (f d))
    → P dev
    → P (when b f dev)
unfolding when
when-keeps P true f dev keep a = keep dev a
when-keeps P false f dev keep a = a

-- So does each interrupt.
pub irqhandler-IsArmed :
    (dev : Dev) (irqs : Bitmap) (pp_irqs : Bool) (dropped : ℕ) (words : ℕ → ℕ)
    → IsArmed dev
    → IsArmed (irqhandler dev irqs pp_irqs dropped words)
unfolding irqhandler
irqhandler-IsArmed dev irqs pp_irqs dropped words a =
    let overrun : Dev → Dev = λ d. on_overrun d dropped in
    let empty : Dev → Dev = λ d. irq_disable d irq_tx_empty in
    let d₁ : Dev = when (active dev irqs irq_rx_overrun) overrun dev in
    let d₂ : Dev = when (active dev irqs irq_rx_packet_available) on_packet d₁ in
    let d₃ : Dev = when (active dev irqs irq_tx_space_available) on_space d₂ in
    let d₄ : Dev = when (active dev irqs irq_tx_empty) empty d₃ in
    let a₁ =
      when-keeps IsArmed (active dev irqs irq_rx_overrun) overrun dev
        (λ d h. unfold on_overrun in h) a in
    let a₂ =
      when-keeps IsArmed (active dev irqs irq_rx_packet_available) on_packet d₁
        (λ d h. unfold on_packet in h) a₁ in
    let a₃ =
      when-keeps IsArmed (active dev irqs irq_tx_space_available) on_space d₂
        (λ d h. unfold on_space in inl refl) a₂ in
    let a₄ = when-keeps IsArmed (active dev irqs irq_tx_empty) empty d₃ (λ d h. h) a₃ in
    when-keeps IsArmed (pp_irqs && not dev.stamping.irq_disabled) (λ d. on_timestamp d words) d₄
      (λ d h. unfold on_timestamp in h) a₄

abbrev pub IsAwake : Dev → Type 0
IsAwake dev = (dev.tx_throttle ≡ false) × (dev.stamping.queue_stopped ≡ false)

-- In a throttled device, the interrupt for space ends the throttling and wakes the queue.
pub irqhandler-wakes :
    (dev : Dev) (irqs : Bitmap) (pp_irqs : Bool) (dropped : ℕ) (words : ℕ → ℕ)
    → IsArmed dev
    → dev.tx_throttle ≡ true
    → irqs irq_tx_space_available ≡ true
    → IsAwake (irqhandler dev irqs pp_irqs dropped words)
unfolding irqhandler
irqhandler-wakes dev irqs pp_irqs dropped words a throttled space =
    let armed : dev.irq_disable irq_tx_space_available ≡ false = elim a [
      | inl off ↦ cc
      | inr on ↦ on
    ] in
    let e : active dev irqs irq_tx_space_available ≡ true = ground arith in
    let empty : Dev → Dev = λ d. irq_disable d irq_tx_empty in
    let d₁ : Dev = when (active dev irqs irq_rx_overrun) (λ d. on_overrun d dropped) dev in
    let d₂ : Dev = when (active dev irqs irq_rx_packet_available) on_packet d₁ in
    let d₃ : Dev = when (active dev irqs irq_tx_space_available) on_space d₂ in
    let d₄ : Dev = when (active dev irqs irq_tx_empty) empty d₃ in
    let awake : IsAwake d₃ = unfold when on_space in rw e (refl, refl) in
    when-keeps IsAwake (pp_irqs && not dev.stamping.irq_disabled) (λ d. on_timestamp d words) d₄
      (λ d h. unfold on_timestamp in h)
      (when-keeps IsAwake (active dev irqs irq_tx_empty) empty d₃ (λ d h. h) awake)

pub reset-IsArmed : (dev : Dev) → IsArmed (reset dev).0
unfolding reset
reset-IsArmed dev = inl refl

-- Where a packet that is sent leaves a device throttled, the next interrupt for space ends that and wakes
-- the queue, if the device was armed before, as the packet leaves it too.
pub hw_xmit_skb-wakes :
    (dev : Dev) (b : Buffer) (has_memory : Bool) (tx_state : ℕ) (irqs : Bitmap) (pp_irqs : Bool)
    (dropped : ℕ) (words : ℕ → ℕ)
    → IsArmed dev
    → (hw_xmit_skb dev b has_memory tx_state).dev.tx_throttle ≡ true
    → irqs irq_tx_space_available ≡ true
    → let dev' = (hw_xmit_skb dev b has_memory tx_state).dev in
      IsArmed dev' × IsAwake (irqhandler dev' irqs pp_irqs dropped words)
hw_xmit_skb-wakes dev b has_memory tx_state irqs pp_irqs dropped words a throttled space =
    let kept = hw_xmit_skb-IsArmed dev b has_memory tx_state a in
    (
      kept,
      irqhandler-wakes (hw_xmit_skb dev b has_memory tx_state).dev irqs pp_irqs dropped words kept
          throttled space,
    )
