-- ===== src/Net/Poll.antt =====
-- modules/net/main.c: the reception of packets by NAPI. `words` are the values that the reads of the FIFO
-- return, in order, and `status` those of RX_STATE, one for each round.
pub mod Fifo
pub mod Delivers
use ravenna_fpga_drivers.Common.{
  ℕ, zero, suc, ◌+◌, ◌-◌, ◌*◌, ◌/◌, ◌%◌, ◌^◌, ◌≤◌, ◌<◌, ◌≡◌, Bool, true, false, not, List, [], ◌∷◌,
  ◌++◌, ltb, ◌==◌, if◌then◌else◌,
}
use ravenna_fpga_drivers.Net.Hwtstamp.{Stamping, rx_read_timestamp}
use ravenna_fpga_drivers.Net.Xmit.{
  Dev, set_queue, irq_enable, irq_rx_packet_available, padding_bytes,
}
use ravenna_fpga_drivers.Net.Dma.{pkt_len_of, is_timestamped}

-- include/uapi/linux/if_ether.h
abbrev pub eth_hlen : ℕ
eth_hlen = 14

-- `struct sk_buff`, as far as it is used: `len`, the bytes from `data` on, and the time stamp, 0 where none
-- was applied.
pub record Received : Type 0 where
  pub len : ℕ
  pub bytes : ℕ → ℕ
  pub hwtstamp : ℕ

-- The kernel's eth_type_trans, as far as it changes these: it pulls the header of a frame, of ETH_HLEN
-- bytes, from the data.
pub record EthTypeTrans : Type 0 where
  pub trans : Received → Received
  pub len : (skb : Received) → eth_hlen ≤ skb.len → (trans skb).len + eth_hlen ≡ skb.len
  pub bytes :
      (skb : Received) (i : ℕ)
      → i + eth_hlen < skb.len
      → (trans skb).bytes i ≡ skb.bytes (i + eth_hlen)
  pub hwtstamp : (skb : Received) → (trans skb).hwtstamp ≡ skb.hwtstamp

-- `count`, how many words have been read, the packets that were handed on, in order, and the statistics.
pub record Reception : Type 0 where
  pub count : ℕ
  pub next : ℕ
  pub packets : List Received
  pub rx_packets : ℕ
  pub rx_bytes : ℕ
  pub rx_fifo_errors : ℕ

-- The i-th byte of a buffer that words were read into, on a little-endian CPU.
unfoldable pub byte_of : ℕ → ℕ → ℕ
byte_of word i =
    if i == 0
    then word % 256
    else if i == 1
    then word / 256 % 256
    else if i == 2
    then word / 65536 % 256
    else word / 16777216 % 256

-- `pkt_len_padded / sizeof(u32)`
abbrev pub padded_words : ℕ → ℕ
padded_words len = (len + padding_bytes + 3) / 4

module _ (eth : EthTypeTrans) (c : Stamping) (words : ℕ → ℕ) where
  -- ra_net_rx_read_timestamp, where the packet has a time stamp: 16 bytes
  unfoldable pub stamped : Bool → Reception → Received → Reception
  stamped false r skb = record r { packets = r.packets ++ skb ∷ [] }
  stamped true r skb = record r {
    next = r.next + 4;
    packets =
        r.packets
        ++ record skb { hwtstamp = rx_read_timestamp c (λ j. words (r.next + j)) skb.hwtstamp }
          ∷ [];
  }

  -- A round, after the buffer was allocated.
  unfoldable pub receive : ℕ → Reception → Reception
  unfolding byte_of stamped
  receive status r =
      let len = pkt_len_of status in
      stamped (is_timestamped status)
        record {
          count = r.count + 1;
          next = r.next + padded_words len;
          packets = r.packets;
          rx_packets = (r.rx_packets + 1) % 2 ^ 64;
          rx_bytes = (r.rx_bytes + len) % 2 ^ 64;
          rx_fifo_errors = r.rx_fifo_errors;
        }
        (eth.trans record {
          len = len;
          bytes = λ i. byte_of (words (r.next + (i + padding_bytes) / 4)) ((i + padding_bytes) % 4);
          hwtstamp = 0;
        })

  -- The loop, with `left` rounds left. `has_memory` says whether napi_alloc_skb succeeds.
  unfoldable pub poll_loop : (ℕ → ℕ) → (ℕ → Bool) → ℕ → Reception → Reception
  unfolding receive
  poll_loop status has_memory zero r = r
  poll_loop status has_memory (suc left) r =
      let later = poll_loop status has_memory left (receive (status r.count) r) in
      if pkt_len_of (status r.count) == 0
      then r
      else if not (has_memory r.count)
      then record r { rx_fifo_errors = (r.rx_fifo_errors + 1) % 2 ^ 64 }
      else later

-- From `napi_complete_done` on.
unfoldable pub poll_done : Dev → ℕ → ℕ → Dev
poll_done dev budget count =
    irq_enable
      (set_queue (if ltb count budget then record dev { rx_scheduled = false } else dev) false)
      irq_rx_packet_available

-- ra_net_napi_poll, for the statistics in `r`, whose other fields are 0
pub napi_poll :
    EthTypeTrans → Dev → (ℕ → ℕ) → (ℕ → ℕ) → (ℕ → Bool) → ℕ → Reception → Dev × Reception
unfolding poll_loop poll_done
napi_poll eth dev words status has_memory budget r =
    let r' = poll_loop eth dev.stamping words status has_memory budget r in
    (poll_done dev budget r'.count, r')
