-- ===== src/Net/Xmit/Ownership.antt =====
-- Who owns a packet after it was given to the driver, and what goes out.
use ravenna_fpga_drivers.Common.{
  ℕ, ◌+◌, ◌-◌, ◌%◌, ◌^◌, ◌<◌, ◌≤◌, ◌≡◌, refl, ap, Bool, true, false, not, ◌&&◌, List, [], ◌∷◌, ◌++◌,
  arith, ltb, ltb→lt, ◌==◌, if◌then◌else◌, Bool-cases, inl, inr,
}
use ravenna_fpga_drivers.Kernel.{Result, err, enomem, enospc}
use ravenna_fpga_drivers.Net.TxTs.{Skb, Effect, kfree_skb}
use ravenna_fpga_drivers.Net.TxTs.Spec.{Queues, accept, evicts}
use ravenna_fpga_drivers.Net.TxTs.Refine.{Represents, tx_ts_queue-Represents}
use ravenna_fpga_drivers.Net.Xmit.{
  Dev, Buffer, Frame, Sent, TxCode, netdev_tx_ok, netdev_tx_busy, code_of, irq_tx_space_available,
  tx_fifo_min_space_available, padding_bytes, aligned, padded_len, needs_copy, buf_of, throttle,
  out, transmit, hw_xmit_skb, start_xmit,
}

-- The ring of packets that wait for their time stamps holds a queue.
abbrev pub HasQueue : Dev → Queues → Type 0
HasQueue dev q = Represents dev.stamping.tx_ts q

-- Whether the packet is taken for a time stamp.
abbrev pub asks : Queues → Skb → Bool
asks q skb = q.enable && skb.hw_tstamp

-- The packet behind two bytes, filled up to the least size, with the length and the request for a
-- time stamp.
pub record IsFrameOf (b : Buffer) (timestamped : Bool) (f : Frame) : Type 0 where
  pub payload : (i : ℕ) → i < b.skb.len → f.bytes (i + 2) ≡ b.skb.bytes i
  pub count : f.count ≡ aligned (padded_len b.skb)
  pub config : f.config ≡ (if timestamped then padded_len b.skb + 2 ^ 31 else padded_len b.skb)

-- What sending a packet does: it stays with the caller, it is freed, or its frame is written and it is
-- freed or waits for its time stamp.
pub data Sends (q : Queues) (b : Buffer) (tx_state : ℕ) (code : TxCode) (sent : Sent) : Type 0 where
  busy :
      code ≡ netdev_tx_busy
      → sent.frames ≡ []
      → sent.effects ≡ []
      → HasQueue sent.dev q
      → sent.dev.tx_throttle ≡ true
      → sent.dev.stamping.queue_stopped ≡ true
      → sent.dev.irq_disable irq_tx_space_available ≡ false
      → Sends q b tx_state code sent
  dropped :
      code ≡ netdev_tx_ok
      → sent.frames ≡ []
      → sent.effects ≡ kfree_skb b.skb ∷ []
      → HasQueue sent.dev q
      → Sends q b tx_state code sent
  framed :
      (f : Frame)
      → code ≡ netdev_tx_ok
      → sent.frames ≡ f ∷ []
      → IsFrameOf b (asks q b.skb) f
      → f.count ≤ tx_state % 2 ^ 13
      → HasQueue sent.dev (accept q b.skb)
      → sent.effects ≡ evicts q b.skb ++ (if asks q b.skb then [] else kfree_skb b.skb ∷ [])
      → Sends q b tx_state code sent

buf_of_payload : (b : Buffer) (i : ℕ) → i < b.skb.len → buf_of b (i + 2) ≡ b.skb.bytes i
unfolding buf_of
buf_of_payload b i h =
    let late : ltb (i + 2) padding_bytes ≡ false = ground arith in
    let back : i + 2 - padding_bytes ≡ i = omega arith in
    let inside : ltb i b.skb.len ≡ true = ground arith in
    elim (Bool-cases (needs_copy b)) [
      | inl e ↦ rw (e, late, back, inside) refl
      | inr e ↦ rw (e, late, back) refl
    ]

throttle_queue :
    (dev : Dev) (free : ℕ) {q : Queues} → HasQueue dev q → HasQueue (throttle dev free) q
unfolding throttle
throttle_queue dev free r = elim (Bool-cases (ltb free tx_fifo_min_space_available)) [
  | inl e ↦ rw e r
  | inr e ↦ rw e r
]

out_queue :
    (dev : Dev) (result : Result ℕ) (effects : List Effect) (frames : List Frame) {q : Queues}
    → HasQueue dev q
    → HasQueue (out dev result effects frames).dev q
unfolding out
out_queue dev result effects frames r = elim (Bool-cases (not dev.tx_throttle)) [
  | inl e ↦ rw e r
  | inr e ↦ rw e r
]

-- Where there is less space than for a packet, the queue is stopped and the interrupt is armed.
throttle_low :
    (dev : Dev) (free : ℕ)
    → free < tx_fifo_min_space_available
    → (throttle dev free).tx_throttle ≡ true
      × ((throttle dev free).stamping.queue_stopped ≡ true)
      × ((throttle dev free).irq_disable irq_tx_space_available ≡ false)
unfolding throttle
throttle_low dev free h =
    let e : ltb free tx_fifo_min_space_available ≡ true = ground arith in rw e (refl, refl, refl)

aligned_max : (skb : Skb) → skb.len ≤ 1518 → aligned (padded_len skb) ≤ 1520
aligned_max skb h = ground arith

busy-Sends :
    (dev : Dev) (b : Buffer) (tx_state : ℕ) {q : Queues}
    → b.skb.len ≤ 1518
    → HasQueue dev q
    → tx_state % 2 ^ 13 < aligned (padded_len b.skb)
    → let sent = out (throttle dev (tx_state % 2 ^ 13)) (err enospc) [] [] in
      Sends q b tx_state (code_of sent.result) sent
unfolding out
busy-Sends dev b tx_state small r full =
    let (on, stopped, armed) =
      throttle_low dev (tx_state % 2 ^ 13) (omega (arith, aligned_max b.skb small)) in
    let kept : not (throttle dev (tx_state % 2 ^ 13)).tx_throttle ≡ false = ap not on in
    rw kept (busy refl refl refl (throttle_queue dev (tx_state % 2 ^ 13) r) on stopped armed)

written-Sends :
    (dev : Dev) (b : Buffer) (tx_state : ℕ) {q : Queues}
    → HasQueue dev q
    → aligned (padded_len b.skb) ≤ tx_state % 2 ^ 13
    → let sent = transmit dev b in Sends q b tx_state (code_of sent.result) sent
unfolding transmit out
written-Sends dev b tx_state {q} r fits =
    let (taken, r', effects) = tx_ts_queue-Represents b.skb r in
    framed
      record {
        bytes = buf_of b;
        count = aligned (padded_len b.skb);
        config = if asks q b.skb then padded_len b.skb + 2 ^ 31 else padded_len b.skb;
      }
      refl (rw taken refl) (record { payload = buf_of_payload b; count = refl; config = refl }) fits
      (elim (Bool-cases (not dev.tx_throttle)) [ inl e ↦ rw e r' | inr e ↦ rw e r' ])
      (rw (effects, taken) refl)

-- A packet of at most 1518 bytes that is given to the Ethernet driver stays with the caller, and then
-- the queue is stopped and the interrupt for space is enabled; or it is dropped and freed once; or its
-- frame, with the data behind two bytes, is written where the FIFO has room for it, and the packet is
-- freed once, or waits for its time stamp if it asks for one.
pub start_xmit-Sends :
    (dev : Dev) (b : Buffer) (has_memory : Bool) (tx_state : ℕ) {q : Queues}
    → b.skb.len ≤ 1518
    → HasQueue dev q
    → let (code, sent) = start_xmit dev b has_memory tx_state in Sends q b tx_state code sent
unfolding start_xmit hw_xmit_skb
start_xmit-Sends dev b has_memory tx_state {q} small r = elim (Bool-cases (b.skb.len == 0)) [
  | inl e ↦ rw e (dropped refl refl refl r)
  | inr e ↦ rw e (elim (Bool-cases (needs_copy b && not has_memory)) [
    | inl e' ↦
        rw e' (dropped refl refl refl (out_queue dev (err enomem) (kfree_skb b.skb ∷ []) [] r))
    | inr e' ↦ rw e' (elim (Bool-cases (ltb (tx_state % 2 ^ 13) (aligned (padded_len b.skb)))) [
      | inl full ↦ rw full (busy-Sends dev b tx_state small r (ltb→lt _ _ full))
      | inr room ↦ rw room (
          written-Sends (throttle dev (tx_state % 2 ^ 13)) b tx_state
            (throttle_queue dev (tx_state % 2 ^ 13) r) (ground arith))
    ])
  ])
]
