-- ===== src/Net/Dma.antt =====
-- modules/net/dma.c: receiving a packet by DMA.
use ravenna_fpga_drivers.Common.{
  ℕ, ◌+◌, ◌%◌, ◌^◌, ◌<◌, ◌≡◌, refl, Bool, true, false, not, Option, none, some, List, [], ◌∷◌,
  arith, leb, ◌==◌, if◌then◌else◌, inl, inr, Bool-cases,
}
use ravenna_fpga_drivers.Kernel.{Errno, Result, ok, err, enoent, enomem, Bitmap}
use ravenna_fpga_drivers.Kernel
use ravenna_fpga_drivers.Net.Xmit.{Dev, irq_enable, irq_rx_packet_available, padding_bytes}

-- What is taken and given back: the buffer, its mapping for DMA, and the context of the callback.
pub data Resource : Type 0 where
  skb mapping ctx : Resource

pub data Step : Type 0 where
  take give_back : Resource → Step

-- Whether the calls of the kernel succeed: netdev_alloc_skb, dma_map_single, kzalloc,
-- dmaengine_prep_dma_memcpy and dmaengine_submit.
pub record Calls : Type 0 where
  pub alloc_skb : Bool
  pub map : Bool
  pub alloc_ctx : Bool
  pub prep : Bool
  pub submit : Result ℕ

-- `struct ra_net_dma_rx_ctx`, less the resources
pub record Context : Type 0 where
  pub len : ℕ
  pub buf_len : ℕ
  pub timestamped : Bool

-- `rx_fifo_error` says that the statistics count one.
pub record Attempt : Type 0 where
  pub result : Result ℕ
  pub rx_fifo_error : Bool
  pub steps : List Step
  pub started : Option Context

-- sizeof(struct ptp_packet_fpga_timestamp)
abbrev pub timestamp_size : ℕ
timestamp_size = 16

abbrev pub pkt_len_of : ℕ → ℕ
pkt_len_of rx_state = rx_state % 2 ^ 11

abbrev pub is_timestamped : ℕ → Bool
is_timestamped rx_state = leb (2 ^ 31) rx_state

abbrev pub context_of : ℕ → Context
context_of rx_state = record {
  len = pkt_len_of rx_state;
  buf_len =
      pkt_len_of rx_state + padding_bytes + (if is_timestamped rx_state then timestamp_size else 0);
  timestamped = is_timestamped rx_state;
}

abbrev pub failed : Errno → List Step → Attempt
failed e steps = record { result = err e; rx_fifo_error = false; steps = steps; started = none }

unfoldable pub submitted : Result ℕ → Context → Attempt
submitted (ok _) c = record {
  result = ok 0;
  rx_fifo_error = false;
  steps = take skb ∷ take mapping ∷ take ctx ∷ [];
  started = some c;
}
submitted (err e) c =
    failed e
      (take skb ∷ take mapping ∷ take ctx ∷ give_back ctx ∷ give_back mapping ∷ give_back skb ∷ [])

-- ra_net_dma_rx_one, for the value of RX_STATE
pub dma_rx_one : ℕ → Calls → Attempt
unfolding submitted
dma_rx_one rx_state calls =
    if pkt_len_of rx_state == 0
    then failed enoent []
    else if not calls.alloc_skb
    then record (failed enomem []) { rx_fifo_error = true }
    else if not calls.map
    then failed Kernel.eio (take skb ∷ give_back skb ∷ [])
    else if not calls.alloc_ctx
    then failed enomem (take skb ∷ take mapping ∷ give_back mapping ∷ give_back skb ∷ [])
    else if not calls.prep
    then failed Kernel.eio (
        take skb ∷ take mapping ∷ take ctx ∷ give_back ctx ∷ give_back mapping ∷ give_back skb ∷ [])
    else submitted calls.submit (context_of rx_state)

unfoldable pub enable_on_error : Result ℕ → Dev → Dev
enable_on_error (ok _) dev = dev
enable_on_error (err e) dev = irq_enable dev irq_rx_packet_available

-- ra_net_dma_rx
pub dma_rx : Dev → ℕ → Calls → Dev × Attempt
unfolding dma_rx_one enable_on_error
dma_rx dev rx_state calls =
    let attempt = dma_rx_one rx_state calls in (enable_on_error attempt.result dev, attempt)

-- What is held after some steps, the last taken first; `none` if something is given back out of order.
unfoldable pub held : List Resource → List Step → Option (List Resource)
held h [] = some h
held h (take r ∷ steps) = held (r ∷ h) steps
held (skb ∷ h) (give_back skb ∷ steps) = held h steps
held (mapping ∷ h) (give_back mapping ∷ steps) = held h steps
held (ctx ∷ h) (give_back ctx ∷ steps) = held h steps
held h (give_back r ∷ steps) = none

-- The reception goes on: by the callback of a transfer that holds what it needs, or by an interrupt, and
-- then nothing is held.
pub data GoesOn (dev : Dev) (rx_state : ℕ) (dev' : Dev) (attempt : Attempt) : Type 0 where
  by_callback :
      attempt.result ≡ ok 0
      → attempt.started ≡ some (context_of rx_state)
      → 0 < pkt_len_of rx_state
      → held [] attempt.steps ≡ some (ctx ∷ mapping ∷ skb ∷ [])
      → dev' ≡ dev
      → GoesOn dev rx_state dev' attempt
  by_interrupt :
      (e : Errno)
      → attempt.result ≡ err e
      → attempt.started ≡ none
      → held [] attempt.steps ≡ some []
      → dev'.irq_disable irq_rx_packet_available ≡ false
      → GoesOn dev rx_state dev' attempt

submitted-GoesOn :
    (dev : Dev) (rx_state : ℕ) (r : Result ℕ)
    → 0 < pkt_len_of rx_state
    → let attempt = submitted r (context_of rx_state) in
      GoesOn dev rx_state (enable_on_error attempt.result dev) attempt
unfolding submitted enable_on_error held
submitted-GoesOn dev rx_state (ok _) pos = by_callback refl refl pos refl refl
submitted-GoesOn dev rx_state (err e) pos = by_interrupt e refl refl refl refl

-- Receiving a packet by DMA starts a transfer, or fails; whichever call fails, all that was taken before
-- is given back, in the reverse order, and the interrupt for packets is enabled again.
pub dma_rx-GoesOn :
    (dev : Dev) (rx_state : ℕ) (calls : Calls)
    → let (dev', attempt) = dma_rx dev rx_state calls in GoesOn dev rx_state dev' attempt
unfolding dma_rx held
dma_rx-GoesOn dev rx_state calls = elim (Bool-cases (pkt_len_of rx_state == 0)) [
  | inl e ↦ rw e (by_interrupt enoent refl refl refl refl)
  | inr e ↦ rw e (elim (Bool-cases calls.alloc_skb) [
    | inr a ↦ rw a (by_interrupt enomem refl refl refl refl)
    | inl a ↦ rw a (elim (Bool-cases calls.map) [
      | inr m ↦ rw m (by_interrupt Kernel.eio refl refl refl refl)
      | inl m ↦ rw m (elim (Bool-cases calls.alloc_ctx) [
        | inr c ↦ rw c (by_interrupt enomem refl refl refl refl)
        | inl c ↦ rw c (elim (Bool-cases calls.prep) [
          | inr p ↦ rw p (by_interrupt Kernel.eio refl refl refl refl)
          | inl p ↦ rw p (submitted-GoesOn dev rx_state calls.submit (ground arith))
        ])
      ])
    ])
  ])
]
