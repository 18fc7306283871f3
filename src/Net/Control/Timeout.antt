-- ===== src/Net/Control/Timeout.antt =====
-- What a timeout of the queue does to the interrupts.
use ravenna_fpga_drivers.Common.{
  ℕ, ◌%◌, ◌^◌, ◌≡◌, refl, ◌∙◌, Bool, true, false, not, ◌&&◌, List, [], ◌∷◌, ltb, ◌==◌, Bool-cases,
  inl, inr,
}
use ravenna_fpga_drivers.Kernel.{Result, Bitmap, err, enomem, enospc}
use ravenna_fpga_drivers.Net.TxTs.{Effect, kfree_skb}
use ravenna_fpga_drivers.Net.Xmit.{
  Dev, Buffer, Frame, irq_disable, irq_tx_empty, irq_tx_space_available, irq_rx_packet_available,
  irq_rx_overrun, tx_fifo_min_space_available, throttle, out, transmit, hw_xmit_skb, needs_copy,
  aligned, padded_len, irqhandler, active, on_space, reset,
}
use ravenna_fpga_drivers.Net.Xmit.Armed.{when-keeps}
use ravenna_fpga_drivers.Net.Control.{tx_timeout}

-- The interrupts for received packets, for an overrun and for time stamps are disabled, and no reception
-- is on its way.
pub record IsDeaf (dev : Dev) : Type 0 where
  pub packet : dev.irq_disable irq_rx_packet_available ≡ true
  pub overrun : dev.irq_disable irq_rx_overrun ≡ true
  pub timestamp : dev.stamping.irq_disabled ≡ true
  pub idle : dev.rx_scheduled ≡ false

-- What the device gets: a packet to send, or an interrupt.
pub data Event : Type 0 where
  send : Buffer → Bool → ℕ → Event
  interrupt : Bitmap → Bool → ℕ → (ℕ → ℕ) → Event

unfoldable pub after : Dev → Event → Dev
after dev (send b has_memory tx_state) = (hw_xmit_skb dev b has_memory tx_state).dev
after dev (interrupt irqs pp_irqs dropped words) = irqhandler dev irqs pp_irqs dropped words

unfoldable pub after_all : Dev → List Event → Dev
after_all dev [] = dev
after_all dev (e ∷ es) = after_all (after dev e) es

IsDeaf-of :
    (dev dev' : Dev)
    → dev'.irq_disable irq_rx_packet_available ≡ dev.irq_disable irq_rx_packet_available
    → dev'.irq_disable irq_rx_overrun ≡ dev.irq_disable irq_rx_overrun
    → dev'.stamping.irq_disabled ≡ dev.stamping.irq_disabled
    → dev'.rx_scheduled ≡ dev.rx_scheduled
    → IsDeaf dev
    → IsDeaf dev'
IsDeaf-of dev dev' p o t i d = record {
  packet = p ∙ d.packet;
  overrun = o ∙ d.overrun;
  timestamp = t ∙ d.timestamp;
  idle = i ∙ d.idle;
}

throttle-IsDeaf : (dev : Dev) (free : ℕ) → IsDeaf dev → IsDeaf (throttle dev free)
unfolding throttle
throttle-IsDeaf dev free d = elim (Bool-cases (ltb free tx_fifo_min_space_available)) [
  | inl e ↦ rw e (IsDeaf-of dev _ refl refl refl refl d)
  | inr e ↦ rw e d
]

out-IsDeaf :
    (dev : Dev) (result : Result ℕ) (es : List Effect) (fs : List Frame)
    → IsDeaf dev
    → IsDeaf (out dev result es fs).dev
unfolding out
out-IsDeaf dev result es fs d = elim (Bool-cases (not dev.tx_throttle)) [
  | inl e ↦ rw e (IsDeaf-of dev _ refl refl refl refl d)
  | inr e ↦ rw e d
]

transmit-IsDeaf : (dev : Dev) (b : Buffer) → IsDeaf dev → IsDeaf (transmit dev b).dev
unfolding transmit out
transmit-IsDeaf dev b d = elim (Bool-cases (not dev.tx_throttle)) [
  | inl e ↦ rw e (IsDeaf-of dev _ refl refl refl refl d)
  | inr e ↦ rw e (IsDeaf-of dev _ refl refl refl refl d)
]

hw_xmit_skb-IsDeaf :
    (dev : Dev) (b : Buffer) (has_memory : Bool) (tx_state : ℕ)
    → IsDeaf dev
    → IsDeaf (hw_xmit_skb dev b has_memory tx_state).dev
unfolding hw_xmit_skb
hw_xmit_skb-IsDeaf dev b has_memory tx_state d =
    let throttled = throttle-IsDeaf dev (tx_state % 2 ^ 13) d in
    elim (Bool-cases (b.skb.len == 0)) [
      | inl e ↦ rw e d
      | inr e ↦ rw e (elim (Bool-cases (needs_copy b && not has_memory)) [
        | inl c ↦ rw c (out-IsDeaf dev (err enomem) (kfree_skb b.skb ∷ []) [] d)
        | inr c ↦ rw c (elim (Bool-cases (ltb (tx_state % 2 ^ 13) (aligned (padded_len b.skb)))) [
          | inl f ↦
              rw f (out-IsDeaf (throttle dev (tx_state % 2 ^ 13)) (err enospc) [] [] throttled)
          | inr f ↦ rw f (transmit-IsDeaf (throttle dev (tx_state % 2 ^ 13)) b throttled)
        ])
      ])
    ]

on_space-IsDeaf : (dev : Dev) → IsDeaf dev → IsDeaf (on_space dev)
unfolding on_space
on_space-IsDeaf dev d = IsDeaf-of dev _ refl refl refl refl d

-- A disabled interrupt is not active.
inactive : (on : Bool) {disabled : Bool} → disabled ≡ true → (on && not disabled) ≡ false
inactive true e = rw e refl
inactive false e = refl

irqhandler-IsDeaf :
    (dev : Dev) (irqs : Bitmap) (pp_irqs : Bool) (dropped : ℕ) (words : ℕ → ℕ)
    → IsDeaf dev
    → IsDeaf (irqhandler dev irqs pp_irqs dropped words)
unfolding irqhandler
irqhandler-IsDeaf dev irqs pp_irqs dropped words d =
    let no_packet = inactive (irqs irq_rx_packet_available) d.packet in
    let no_overrun = inactive (irqs irq_rx_overrun) d.overrun in
    let no_stamp = inactive pp_irqs d.timestamp in
    rw (no_stamp, no_packet, no_overrun)
      (when-keeps IsDeaf (active dev irqs irq_tx_empty) (λ d. irq_disable d irq_tx_empty) _
        (λ dev' d'. IsDeaf-of dev' _ refl refl refl refl d')
        (when-keeps IsDeaf (active dev irqs irq_tx_space_available) on_space dev on_space-IsDeaf d))

after_all-IsDeaf : (dev : Dev) (es : List Event) → IsDeaf dev → IsDeaf (after_all dev es)
unfolding after_all after
after_all-IsDeaf dev [] d = d
after_all-IsDeaf dev (send b has_memory tx_state ∷ es) d =
    after_all-IsDeaf (hw_xmit_skb dev b has_memory tx_state).dev es
      (hw_xmit_skb-IsDeaf dev b has_memory tx_state d)
after_all-IsDeaf dev (interrupt irqs pp_irqs dropped words ∷ es) d =
    after_all-IsDeaf (irqhandler dev irqs pp_irqs dropped words) es
      (irqhandler-IsDeaf dev irqs pp_irqs dropped words d)

-- Where no reception is on its way, a timeout of the queue leaves the interrupts for received packets,
-- for an overrun and for time stamps disabled and no reception on its way, whatever packets are sent
-- and whatever interrupts come after it.
pub tx_timeout-deafens :
    (dev : Dev) (es : List Event)
    → dev.rx_scheduled ≡ false
    → IsDeaf (after_all (tx_timeout dev).0 es)
unfolding tx_timeout reset
tx_timeout-deafens dev es idle =
    after_all-IsDeaf (tx_timeout dev).0 es
      record { packet = refl; overrun = refl; timestamp = refl; idle = idle }
