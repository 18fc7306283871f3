-- ===== src/Net/Xmit.antt =====
-- modules/net/main.c: sending a packet, and the interrupts of the Ethernet device.
pub mod Ownership
pub mod Armed
use ravenna_fpga_drivers.Common.{
  ℕ, zero, suc, ◌+◌, ◌-◌, ◌*◌, ◌/◌, ◌%◌, ◌^◌, Bool, true, false, not, ◌&&◌, ◌||◌, Option, none,
  some, List, [], ◌∷◌, ◌++◌, ltb, ◌==◌, if◌then◌else◌, update,
}
use ravenna_fpga_drivers.Kernel.{Errno, Result, ok, err, einval, enomem, enospc, Bitmap}
use ravenna_fpga_drivers.Net.TxTs.{
  TxTs, Skb, Effect, kfree_skb, tx_ts_queue, tx_ts_irq, clear_lists,
}
use ravenna_fpga_drivers.Net.Hwtstamp.{Stamping}

-- `struct ra_net_priv` with the statistics of the net device and the registers that are used here: the
-- bits of IRQ_DISABLE, and TX_FIFO_SPACE_AV_BYTECNT. `rx_scheduled` says that the reception of packets,
-- by NAPI, is on its way; DMA is another module.
pub record Dev : Type 0 where
  pub stamping : Stamping
  pub tx_throttle : Bool
  pub irq_disable : Bitmap
  pub space_av_bytecnt : ℕ
  pub rx_scheduled : Bool
  pub rx_dropped_packets_at_probe : ℕ
  pub tx_packets : ℕ
  pub tx_bytes : ℕ
  pub rx_over_errors : ℕ

abbrev pub irq_tx_empty : ℕ
irq_tx_empty = 0

abbrev pub irq_tx_space_available : ℕ
irq_tx_space_available = 1

abbrev pub irq_rx_packet_available : ℕ
irq_rx_packet_available = 4

abbrev pub irq_rx_overrun : ℕ
irq_rx_overrun = 8

abbrev pub tx_fifo_min_space_available : ℕ
tx_fifo_min_space_available = 1536

abbrev pub padding_bytes : ℕ
padding_bytes = 2

-- include/uapi/linux/if_ether.h
abbrev pub eth_zlen : ℕ
eth_zlen = 60

abbrev pub set_queue : Dev → Bool → Dev
set_queue dev stopped = record dev { stamping = record dev.stamping { queue_stopped = stopped } }

-- ra_net_irq_enable and ra_net_irq_disable for one bit
abbrev pub irq_enable : Dev → ℕ → Dev
irq_enable dev bit = record dev { irq_disable = update dev.irq_disable bit false }

abbrev pub irq_disable : Dev → ℕ → Dev
irq_disable dev bit = record dev { irq_disable = update dev.irq_disable bit true }

-- A packet in its buffer: the room in front of the data and behind it, and the two bytes in front.
pub record Buffer : Type 0 where
  pub skb : Skb
  pub headroom : ℕ
  pub tailroom : ℕ
  pub front : ℕ → ℕ

-- What is written to the FIFO and to TX_CONFIG.
pub record Frame : Type 0 where
  pub bytes : ℕ → ℕ
  pub count : ℕ
  pub config : ℕ

-- `ALIGN(len + RA_NET_TX_PADDING_BYTES, sizeof(u32))`
abbrev pub aligned : ℕ → ℕ
aligned len = (len + padding_bytes + 3) / 4 * 4

abbrev pub padded_len : Skb → ℕ
padded_len skb = if ltb skb.len eth_zlen then eth_zlen else skb.len

unfoldable pub needs_copy : Buffer → Bool
needs_copy b =
    ltb b.headroom padding_bytes
    || (ltb b.skb.len eth_zlen && ltb b.tailroom (eth_zlen - b.skb.len))

-- `buf`: the zeroed copy, or the buffer from two bytes in front of the data.
unfoldable pub buf_of : Buffer → ℕ → ℕ
buf_of b i =
    if needs_copy b
    then if ltb i padding_bytes
      then 0
      else if ltb (i - padding_bytes) b.skb.len
      then b.skb.bytes (i - padding_bytes)
      else 0
    else if ltb i padding_bytes
    then b.front i
    else b.skb.bytes (i - padding_bytes)

-- `free < RA_NET_TX_FIFO_MIN_SPACE_AVAILABLE`
unfoldable pub throttle : Dev → ℕ → Dev
throttle dev free =
    if ltb free tx_fifo_min_space_available
    then record (irq_enable (set_queue dev true) irq_tx_space_available) {
      tx_throttle = true;
      space_av_bytecnt = tx_fifo_min_space_available;
    }
    else dev

pub record Sent : Type 0 where
  pub dev : Dev
  pub result : Result ℕ
  pub effects : List Effect
  pub frames : List Frame

-- from the label `out` on
unfoldable pub out : Dev → Result ℕ → List Effect → List Frame → Sent
out dev result effects frames = record {
  dev = if not dev.tx_throttle then set_queue dev false else dev;
  result = result;
  effects = effects;
  frames = frames;
}

-- the packet goes to the FIFO
unfoldable pub transmit : Dev → Buffer → Sent
unfolding out buf_of
transmit dev b =
    let len = padded_len b.skb in
    let (taken, tx_ts, effects) = tx_ts_queue dev.stamping.tx_ts b.skb in
    out
      (record dev {
        stamping = record dev.stamping { tx_ts = tx_ts };
        tx_packets = (dev.tx_packets + 1) % 2 ^ 64;
        tx_bytes = (dev.tx_bytes + len) % 2 ^ 64;
      })
      (ok 0) (effects ++ (if taken then [] else kfree_skb b.skb ∷ []))
      (record {
        bytes = buf_of b;
        count = aligned len;
        config = if taken then len + 2 ^ 31 else len;
      }
        ∷ [])

-- ra_net_hw_xmit_skb. `has_memory` says whether kzalloc succeeds, and `tx_state` is the register.
unfoldable pub hw_xmit_skb : Dev → Buffer → Bool → ℕ → Sent
unfolding needs_copy out throttle transmit
hw_xmit_skb dev b has_memory tx_state =
    let free = tx_state % 2 ^ 13 in
    let throttled = throttle dev free in
    if b.skb.len == 0
    then record { dev = dev; result = err einval; effects = kfree_skb b.skb ∷ []; frames = [] }
    else if needs_copy b && not has_memory
    then out dev (err enomem) (kfree_skb b.skb ∷ []) []
    else if ltb free (aligned (padded_len b.skb))
    then out throttled (err enospc) [] []
    else transmit throttled b

pub data TxCode : Type 0 where
  netdev_tx_ok netdev_tx_busy : TxCode

abbrev pub code_of : Result ℕ → TxCode
code_of (err enospc) = netdev_tx_busy
code_of _ = netdev_tx_ok

-- ra_net_start_xmit
unfoldable pub start_xmit : Dev → Buffer → Bool → ℕ → TxCode × Sent
unfolding hw_xmit_skb
start_xmit dev b has_memory tx_state =
    let sent = hw_xmit_skb dev b has_memory tx_state in (code_of sent.result, sent)

-- ra_net_irqhandler. `irqs` and `pp_irqs` are the bits of IRQS and the time stamp bit of PP_IRQS,
-- `dropped` the register of dropped packets, and `words` what the FIFO of time stamps yields.
unfoldable pub on_overrun : Dev → ℕ → Dev
on_overrun dev dropped = record dev {
  rx_over_errors = (dropped + 2 ^ 32 - dev.rx_dropped_packets_at_probe) % 2 ^ 32;
}

unfoldable pub on_packet : Dev → Dev
on_packet dev = record (irq_disable dev irq_rx_packet_available) { rx_scheduled = true }

unfoldable pub on_space : Dev → Dev
on_space dev =
    set_queue (record (irq_disable dev irq_tx_space_available) { tx_throttle = false }) false

unfoldable pub on_timestamp : Dev → (ℕ → ℕ) → Dev
on_timestamp dev words = record dev {
  stamping = record dev.stamping { tx_ts = tx_ts_irq dev.stamping.tx_ts words };
}

-- `irqs & ~mask`
abbrev pub active : Dev → Bitmap → ℕ → Bool
active dev irqs i = irqs i && not (dev.irq_disable i)

unfoldable pub when : Bool → (Dev → Dev) → Dev → Dev
when b f dev = if b then f dev else dev

unfoldable pub irqhandler : Dev → Bitmap → Bool → ℕ → (ℕ → ℕ) → Dev
unfolding when on_overrun on_packet on_space on_timestamp
irqhandler dev irqs pp_irqs dropped words =
    when (pp_irqs && not dev.stamping.irq_disabled) (λ d. on_timestamp d words)
      (when (active dev irqs irq_tx_empty) (λ d. irq_disable d irq_tx_empty)
        (when (active dev irqs irq_tx_space_available) on_space (
          when (active dev irqs irq_rx_packet_available) on_packet
            (when (active dev irqs irq_rx_overrun) (λ d. on_overrun d dropped) dev))))

-- ra_net_reset, with the packets that the flush frees; the loops that empty the FIFOs of the FPGA, which
-- leave this state as it is, and the end of DMA are left out
unfoldable pub reset : Dev → Dev × List Effect
reset dev =
    let (tx_ts, effects) = clear_lists dev.stamping.tx_ts in
    (
      record dev {
        stamping = record dev.stamping { tx_ts = tx_ts; irq_disabled = true };
        irq_disable = λ _. true;
        tx_throttle = false;
      },
      effects,
    )
