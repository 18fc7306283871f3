-- ===== src/Net/Poll/Fifo.antt =====
-- The FIFO of received packets, and what a round of ra_net_napi_poll takes from it.

use ravenna_fpga_drivers.Common.{
  ℕ, ◌+◌, ◌*◌, ◌/◌, ◌%◌, ◌^◌, ◌<◌, ◌≤◌, ◌≡◌, refl, sym, ap, ◌∙◌, true, false, Option, none, some,
  List, [], ◌∷◌, ◌++◌, arith, ◌==◌, if◌then◌else◌, ◌⊎◌, inl, inr,
}
use ravenna_fpga_drivers.Net.TxTs.{FpgaTimestamp}
use ravenna_fpga_drivers.Net.Hwtstamp.{Stamping, rx_read_timestamp, rx_apply_timestamp}
use ravenna_fpga_drivers.Net.Dma.{pkt_len_of, is_timestamped}
use ravenna_fpga_drivers.Net.Poll.{
  EthTypeTrans, eth_hlen, Received, Reception, byte_of, padded_words, stamped, receive,
}

-- A packet that the FPGA has received.
pub record Packet : Type 0 where
  pub len : ℕ
  pub bytes : ℕ → ℕ
  pub stamp : Option FpgaTimestamp

-- A word of the FIFO, from its bytes.
pub record IsWord (word b0 b1 b2 b3 : ℕ) : Type 0 where
  pub sums : word ≡ b0 + b1 * 256 + b2 * 65536 + b3 * 16777216
  pub b0_fits : b0 < 256
  pub b1_fits : b1 < 256
  pub b2_fits : b2 < 256
  pub b3_fits : b3 < 256

-- The four words of a time stamp.
pub record StampAt (words : ℕ → ℕ) (k : ℕ) (t : FpgaTimestamp) : Type 0 where
  pub first : words k ≡ t.seconds_hi + t.start_of_ts * 65536
  pub seconds : words (k + 1) ≡ t.seconds
  pub nanoseconds : words (k + 2) ≡ t.nanoseconds
  pub fourth : words (k + 3) ≡ t.sequence_id + t.reserved * 65536
  pub hi_fits : t.seconds_hi < 65536
  pub id_fits : t.sequence_id < 65536

abbrev pub stamp_words : Option FpgaTimestamp → ℕ
stamp_words none = 0
stamp_words (some t) = 4

abbrev pub MayStampAt : (ℕ → ℕ) → ℕ → Option FpgaTimestamp → Type 0
MayStampAt words k none = Unit {0}
MayStampAt words k (some t) = StampAt words k t

-- The words of a packet, from the k-th on: two bytes of padding, its bytes, and whatever fills the last
-- word; after that its time stamp.
pub record StandsAt (words : ℕ → ℕ) (k : ℕ) (p : Packet) : Type 0 where
  pub padded : ℕ → ℕ
  pub word :
      (j : ℕ)
      → IsWord
          (words (k + j))
          (padded (4 * j))
          (padded (4 * j + 1))
          (padded (4 * j + 2))
          (padded (4 * j + 3))
  pub content : (i : ℕ) → i < p.len → padded (i + 2) ≡ p.bytes i
  pub stamp : MayStampAt words (k + padded_words p.len) p.stamp

-- From the k-th word on there are the packets.
abbrev pub Holds : (ℕ → ℕ) → ℕ → List Packet → Type 0
Holds words k [] = Unit {0}
Holds words k (p ∷ ps) =
    StandsAt words k p × Holds words (k + padded_words p.len + stamp_words p.stamp) ps

-- RX_STATE in a round shows the next packet; no length where there is none.
abbrev pub state_of : Packet → ℕ
state_of p = p.len + (stamp_bit p.stamp)
  where
    stamp_bit : Option FpgaTimestamp → ℕ
    stamp_bit none = 0
    stamp_bit (some t) = 2 ^ 31

abbrev pub Shows : (ℕ → ℕ) → ℕ → List Packet → Type 0
Shows status i [] = pkt_len_of (status i) ≡ 0
Shows status i (p ∷ ps) =
    (eth_hlen ≤ p.len) × (p.len < 2 ^ 11) × (status i ≡ state_of p) × Shows status (i + 1) ps

abbrev pub hwtstamp_for : Stamping → Option FpgaTimestamp → ℕ
hwtstamp_for c none = 0
hwtstamp_for c (some t) = rx_apply_timestamp c t 0

-- The kernel gets the bytes of a packet behind its header, and its time stamp.
pub record Matches (c : Stamping) (skb : Received) (p : Packet) : Type 0 where
  pub len : skb.len + eth_hlen ≡ p.len
  pub bytes : (i : ℕ) → i + eth_hlen < p.len → skb.bytes i ≡ p.bytes (i + eth_hlen)
  pub hwtstamp : skb.hwtstamp ≡ hwtstamp_for c p.stamp

byte_of_lem :
    {word b0 b1 b2 b3 : ℕ} (i : ℕ)
    → IsWord word b0 b1 b2 b3
    → i < 4
    → byte_of word i ≡ (if i == 0 then b0 else if i == 1 then b1 else if i == 2 then b2 else b3)
unfolding byte_of
byte_of_lem {word} {b0} {b1} {b2} {b3} i w small =
    let s = w.sums in
    let f0 = w.b0_fits in
    let f1 = w.b1_fits in
    let f2 = w.b2_fits in
    let f3 = w.b3_fits in
    let e0 : word % 256 ≡ b0 = omega arith in
    let e1 : word / 256 % 256 ≡ b1 = omega arith in
    let e2 : word / 65536 % 256 ≡ b2 = omega arith in
    let e3 : word / 16777216 % 256 ≡ b3 = omega arith in rw (e0, e1, e2, e3) refl

below_four : (r : ℕ) → r < 4 → (r ≡ 0) ⊎ (r ≡ 1) ⊎ (r ≡ 2) ⊎ (r ≡ 3)
below_four r h = omega arith

-- The byte with the number i of the data.
content_lem :
    (words : ℕ → ℕ) (k : ℕ) (p : Packet) (i : ℕ)
    → StandsAt words k p
    → i < p.len
    → byte_of (words (k + (i + 2) / 4)) ((i + 2) % 4) ≡ p.bytes i
content_lem words k p i s small =
    let j : ℕ = (i + 2) / 4 in
    let place : (r : ℕ) → (i + 2) % 4 ≡ r → s.padded (4 * j + r) ≡ p.bytes i =
      λ r e. let e' : 4 * j + r ≡ i + 2 = omega arith in ap s.padded e' ∙ s.content i small in
    byte_of_lem ((i + 2) % 4) (s.word j) (omega arith)
    ∙ elim (below_four ((i + 2) % 4) (omega arith)) [
      | inl e ↦ rw e (let e' : 4 * j + 0 ≡ 4 * j = omega arith in ap s.padded (sym e') ∙ place 0 e)
      | inr (inl e) ↦ rw e (place 1 e)
      | inr (inr (inl e)) ↦ rw e (place 2 e)
      | inr (inr (inr e)) ↦ rw e (place 3 e)
    ]

read_timestamp_lem :
    (c : Stamping) (words : ℕ → ℕ) (k : ℕ) (t : FpgaTimestamp)
    → StampAt words k t
    → rx_read_timestamp c (λ j. words (k + j)) 0 ≡ rx_apply_timestamp c t 0
unfolding rx_read_timestamp rx_apply_timestamp
read_timestamp_lem c words k t s =
    let first = s.first in
    let hf = s.hi_fits in
    let z : k + 0 ≡ k = omega arith in
    let hi : words k % 65536 ≡ t.seconds_hi = omega arith in
    let mark : words k / 65536 ≡ t.start_of_ts = omega arith in
    rw (z, hi, mark, s.seconds, s.nanoseconds) refl

-- A round on a packet.
pub record Receives (c : Stamping) (words : ℕ → ℕ) (r : Reception) (p : Packet) (r' : Reception)
    : Type 0 where
  pub skb : Received
  pub same : Matches c skb p
  pub packets : r'.packets ≡ r.packets ++ skb ∷ []
  pub next : r'.next ≡ r.next + padded_words p.len + stamp_words p.stamp
  pub count : r'.count ≡ r.count + 1
  pub errors : r'.rx_fifo_errors ≡ r.rx_fifo_errors

-- The packet as it was read, before eth_type_trans.
abbrev raw : (ℕ → ℕ) → ℕ → ℕ → Received
raw words next len = record {
  len = len;
  bytes = λ i. byte_of (words (next + (i + 2) / 4)) ((i + 2) % 4);
  hwtstamp = 0;
}

pub stamped-Receives :
    (eth : EthTypeTrans) (c : Stamping) (words : ℕ → ℕ) (r : Reception) (len : ℕ) (bytes : ℕ → ℕ)
    (stamp : Option FpgaTimestamp)
    → eth_hlen ≤ len
    → len < 2 ^ 11
    → let p : Packet = record { len = len; bytes = bytes; stamp = stamp } in
      StandsAt words r.next p → Receives c words r p (receive eth c words (state_of p) r)
unfolding receive stamped
stamped-Receives eth c words r len bytes none some_header fits s =
    let e : pkt_len_of (len + 0) ≡ len = omega arith in
    let plain : is_timestamped (len + 0) ≡ false = ground arith in
    let p : Packet = record { len = len; bytes = bytes; stamp = none } in
    rw (plain, e)
      record {
        skb = eth.trans (raw words r.next len);
        same = record {
          len = eth.len (raw words r.next len) some_header;
          bytes = λ i h.
              eth.bytes (raw words r.next len) i h ∙ content_lem words r.next p (i + eth_hlen) s h;
          hwtstamp = eth.hwtstamp (raw words r.next len);
        };
        packets = refl;
        next = omega arith;
        count = refl;
        errors = refl;
      }
stamped-Receives eth c words r len bytes (some t) some_header fits s =
    let e : pkt_len_of (len + 2 ^ 31) ≡ len = omega arith in
    let plain : is_timestamped (len + 2 ^ 31) ≡ true = ground arith in
    let p : Packet = record { len = len; bytes = bytes; stamp = some t } in
    let skb = eth.trans (raw words r.next len) in
    let at : ℕ → ℕ = λ j. words (r.next + padded_words len + j) in
    rw (plain, e)
      record {
        skb = record skb { hwtstamp = rx_read_timestamp c at skb.hwtstamp };
        same = record {
          len = eth.len (raw words r.next len) some_header;
          bytes = λ i h.
              eth.bytes (raw words r.next len) i h ∙ content_lem words r.next p (i + eth_hlen) s h;
          hwtstamp =
              ap (rx_read_timestamp c at) (eth.hwtstamp (raw words r.next len))
              ∙ read_timestamp_lem c words (r.next + padded_words len) t s.stamp;
        };
        packets = refl;
        next = refl;
        count = refl;
        errors = refl;
      }
