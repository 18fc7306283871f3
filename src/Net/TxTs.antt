-- ===== src/Net/TxTs.antt =====
-- modules/net/timestamp.c: the time stamps of sent packets. The interrupt handler and the sending
-- side fill two rings, and a work item pairs them. A ring is the map of its 64 slots, with the C
-- indices. The spin lock makes each function one step, but for the work item, which gives it up
-- whenever it delivers a time stamp: `correlate` is what it does up to there.
pub mod Rings
pub mod Packets
pub mod Spec
pub mod Refine
pub mod Arrivals
pub mod Flush
pub mod Heads
pub mod Drain
pub mod Correlate
pub mod WorkItem
pub mod Ledger
pub mod Delivery
pub mod History
use ravenna_fpga_drivers.Common.{
  ℕ, zero, suc, ◌+◌, ◌-◌, ◌*◌, ◌/◌, ◌%◌, ◌^◌, Bool, true, false, not, ◌&&◌, ◌||◌, Option, none,
  some, ◌>>=◌, List, [], ◌∷◌, ◌++◌, ltb, ◌==◌, if◌then◌else◌, update,
}

-- `struct sk_buff`, as far as it is used: which buffer it is, `len`, the bytes from `data` on, and
-- the bits SKBTX_HW_TSTAMP and SKBTX_IN_PROGRESS of `tx_flags`.
pub record Skb : Type 0 where
  pub id : ℕ
  pub len : ℕ
  pub bytes : ℕ → ℕ
  pub hw_tstamp : Bool
  pub in_progress : Bool

-- `struct ptp_packet_fpga_timestamp`
pub record FpgaTimestamp : Type 0 where
  pub seconds_hi : ℕ
  pub start_of_ts : ℕ
  pub seconds : ℕ
  pub nanoseconds : ℕ
  pub sequence_id : ℕ
  pub reserved : ℕ

-- What the kernel's headers say of a packet: ETH_HLEN, UDP_HLEN, OFF_PTP_SEQUENCE_ID and IPV4_HLEN.
pub record Headers : Type 0 where
  pub eth_hlen : ℕ
  pub udp_hlen : ℕ
  pub off_ptp_sequence_id : ℕ
  pub ipv4_hlen : (ℕ → ℕ) → ℕ

-- `struct ra_net_tx_ts`. `work` says that the work item is scheduled.
pub record TxTs : Type 0 where
  pub enable : Bool
  pub ts_lost : ℕ
  pub work : Bool
  pub skb_ptr : ℕ → Option Skb
  pub skb_rd_idx : ℕ
  pub skb_wr_idx : ℕ
  pub fpga_ts : ℕ → FpgaTimestamp
  pub ts_rd_idx : ℕ
  pub ts_wr_idx : ℕ

-- What is done to a packet: dev_kfree_skb_any and skb_tstamp_tx.
pub data Effect : Type 0 where
  kfree_skb : Skb → Effect
  tstamp_tx : Skb → ℕ → Effect

-- RA_NET_TX_SKB_LIST_SIZE and RA_NET_TX_TS_LIST_SIZE
abbrev pub list_size : ℕ
list_size = 64

abbrev pub start_of_timestamp : ℕ
start_of_timestamp = 0x1588

-- `idx++; idx %= 64`; 64 divides the range of an `unsigned int`
abbrev pub next_idx : ℕ → ℕ
next_idx i = (i + 1) % list_size

-- ra_net_tx_ts_irq, the search for the start of a time stamp. `words` are the values that the reads
-- of the FIFO return, in order; the result is the word found and how many have been read.
unfoldable pub find_start : (ℕ → ℕ) → ℕ → ℕ → Option (ℕ × ℕ)
find_start words k zero = none
find_start words k (suc left) =
    let later = find_start words (suc k) left in
    if words k / 65536 == start_of_timestamp then some (words k, suc k) else later

-- the entry after the stores, on a little-endian CPU; `start_of_ts` keeps its old value
unfoldable pub read_entry : FpgaTimestamp → ℕ → (ℕ → ℕ) → ℕ → FpgaTimestamp
read_entry ts sot words k = record ts {
  seconds_hi = sot % 65536;
  seconds = words k;
  nanoseconds = words (k + 1);
  sequence_id = words (k + 2) % 65536;
  reserved = words (k + 2) / 65536;
}

unfoldable pub drop_oldest_ts : TxTs → TxTs
drop_oldest_ts tx =
    if next_idx tx.ts_wr_idx == tx.ts_rd_idx
    then record tx { ts_rd_idx = next_idx tx.ts_rd_idx }
    else tx

unfoldable pub store_ts : TxTs → (ℕ → ℕ) → Option (ℕ × ℕ) → TxTs
store_ts tx words none = record tx { ts_lost = (tx.ts_lost + 1) % 2 ^ 32; work = true }
store_ts tx words (some (sot, k)) = record tx {
  fpga_ts = update tx.fpga_ts tx.ts_wr_idx (read_entry (tx.fpga_ts tx.ts_wr_idx) sot words k);
  ts_wr_idx = next_idx tx.ts_wr_idx;
  work = true;
}

-- An entry is four words.
pub tx_ts_irq : TxTs → (ℕ → ℕ) → TxTs
unfolding drop_oldest_ts store_ts find_start
tx_ts_irq tx words = store_ts (drop_oldest_ts tx) words (find_start words 0 4)

-- What ra_net_stamp_tx_skb leaves in the variables that it is given.
pub record Stamp : Type 0 where
  pub ts_consumed : Bool
  pub skb_consumed : Bool
  pub do_stamp : Bool
  pub hwtstamp : ℕ

-- `u64` arithmetic
unfoldable pub hwtstamp_of : FpgaTimestamp → ℕ
hwtstamp_of ts =
    ((ts.seconds_hi * 2 ^ 32 + ts.seconds) % 2 ^ 64 * 1_000_000_000 % 2 ^ 64 + ts.nanoseconds)
    % 2 ^ 64

abbrev pub stamp_none : Bool → Bool → Stamp
stamp_none ts skb = record { ts_consumed = ts; skb_consumed = skb; do_stamp = false; hwtstamp = 0 }

module _ (h : Headers) where
  abbrev pub id_offset : Skb → ℕ
  id_offset skb = h.eth_hlen + h.ipv4_hlen skb.bytes + h.udp_hlen + h.off_ptp_sequence_id

  -- `ntohs(*(__be16 *)(data + offset + OFF_PTP_SEQUENCE_ID))`
  unfoldable pub packet_seq_id : Skb → ℕ
  packet_seq_id skb = skb.bytes (id_offset skb) * 256 + skb.bytes (id_offset skb + 1)

  unfoldable pub stamp_tx_skb : Skb → FpgaTimestamp → Stamp
  stamp_tx_skb skb ts =
      if ltb skb.len (id_offset skb + 2)
      then stamp_none true true
      else if ts.sequence_id == packet_seq_id skb
      then record {
        ts_consumed = true;
        skb_consumed = true;
        do_stamp = true;
        hwtstamp = hwtstamp_of ts;
      }
      else if ltb ts.sequence_id (packet_seq_id skb)
      then stamp_none true false
      else stamp_none false true

unfoldable pub consume_skb : Bool → TxTs → TxTs
consume_skb false tx = tx
consume_skb true tx = record tx {
  skb_ptr = update tx.skb_ptr tx.skb_rd_idx none;
  skb_rd_idx = next_idx tx.skb_rd_idx;
}

unfoldable pub consume_ts : Bool → TxTs → TxTs
consume_ts false tx = tx
consume_ts true tx = record tx { ts_rd_idx = next_idx tx.ts_rd_idx }

-- dev_kfree_skb_any, which ignores a null pointer
abbrev pub kfree : Option Skb → List Effect
kfree none = []
kfree (some skb) = kfree_skb skb ∷ []

-- The state and the effects where the work item gives up the lock, and whether it goes on after
-- that. The effects of a delivery come without the lock.
pub record Locked : Type 0 where
  pub state : TxTs
  pub effects : List Effect
  pub again : Bool

abbrev pub prepend : List Effect → Locked → Locked
prepend effects l = record l { effects = effects ++ l.effects }

abbrev pub stop : TxTs → Locked
stop tx = record { state = tx; effects = []; again = false }

unfoldable pub skbs_empty : TxTs → Bool
skbs_empty tx = tx.skb_wr_idx == tx.skb_rd_idx

unfoldable pub stamps_empty : TxTs → Bool
stamps_empty tx = tx.ts_wr_idx == tx.ts_rd_idx

-- The first loop of ra_net_tx_ts_work. `none` would mean that the fuel has run out.
unfoldable pub drain_lost : ℕ → TxTs → Option (TxTs × List Effect)
drain_lost zero tx = none
drain_lost (suc fuel) tx =
    let go_on = drain_lost fuel (record (consume_skb true tx) { ts_lost = tx.ts_lost - 1 }) in
    if ltb 0 tx.ts_lost && not (skbs_empty tx)
    then (go_on >>= λ r. some (r.0, kfree (tx.skb_ptr tx.skb_rd_idx) ++ r.1))
    else some (tx, [])

-- The second loop from where ra_net_stamp_tx_skb has returned. `go_on` is the next round.
unfoldable pub settle : (TxTs → Option Locked) → Skb → Stamp → TxTs → Option Locked
settle go_on skb s tx =
    let tx' = consume_ts s.ts_consumed (consume_skb s.skb_consumed tx) in
    if not s.skb_consumed && not s.ts_consumed
    then some (stop tx)
    else if s.do_stamp
    then some record {
      state = tx';
      effects = tstamp_tx skb s.hwtstamp ∷ kfree_skb skb ∷ [];
      again = true;
    }
    else (go_on tx' >>= λ l. some (prepend (if s.skb_consumed then kfree_skb skb ∷ [] else []) l))

-- The second loop up to where it gives up the lock. `none` is an access by a null pointer, or the
-- end of the fuel.
unfoldable pub correlate : Headers → ℕ → TxTs → Option Locked
correlate h zero tx = none
correlate h (suc fuel) tx =
    if skbs_empty tx || stamps_empty tx
    then some (stop tx)
    else (tx.skb_ptr tx.skb_rd_idx >>= λ skb.
        settle (correlate h fuel) skb (stamp_tx_skb h skb (tx.fpga_ts tx.ts_rd_idx)) tx)

-- Each ring has fewer than 64 entries, and each round takes one from a ring.
abbrev pub rounds : ℕ
rounds = 128

-- ra_net_tx_ts_work up to where it gives up the lock first
pub work_begin : Headers → TxTs → Option Locked
unfolding drain_lost
work_begin h tx = do
  drained ← drain_lost list_size (record tx { work = false })
  l ← correlate h rounds drained.0
  some (prepend drained.1 l)

-- the rest of it, where nothing happens while the lock is free
unfoldable pub work_rest : Headers → ℕ → Locked → Option Locked
work_rest h zero l = none
work_rest h (suc fuel) l =
    if l.again
    then (correlate h rounds l.state >>= λ l'. work_rest h fuel (prepend l.effects l'))
    else some l

pub tx_ts_work : Headers → TxTs → Option Locked
unfolding work_begin work_rest
tx_ts_work h tx = do l ← work_begin h tx; work_rest h rounds l

-- ra_net_flush_tx_ts, the loop over the slots from `i` on
unfoldable pub flush_slots : (ℕ → Option Skb) → ℕ → ℕ → List Effect
flush_slots ptr i zero = []
flush_slots ptr i (suc left) = kfree (ptr i) ++ flush_slots ptr (suc i) left

-- The lists and the count are cleared.
unfoldable pub clear_lists : TxTs → TxTs × List Effect
unfolding flush_slots
clear_lists tx = (
  record tx {
    work = false;
    skb_ptr = λ _. none;
    skb_rd_idx = 0;
    skb_wr_idx = 0;
    ts_rd_idx = 0;
    ts_wr_idx = 0;
    ts_lost = 0;
  },
  flush_slots tx.skb_ptr 0 list_size,
)

-- The loop that empties the FIFO of the FPGA, from its n-th round on: how many time stamps it has read in
-- the end. `available` is the bit PTP_TX_TS_IRQ_AVAILABLE of PP_IRQS in each round. `none` means that
-- the rounds given are not enough.
unfoldable pub empty_fifo : (ℕ → Bool) → ℕ → ℕ → Option ℕ
empty_fifo available n zero = none
empty_fifo available n (suc fuel) =
    let later = empty_fifo available (suc n) fuel in if available n then later else some n

-- It also waits for the work item or takes it off the queue.
unfoldable pub flush_tx_ts : (ℕ → Bool) → ℕ → TxTs → Option (TxTs × List Effect)
unfolding empty_fifo clear_lists
flush_tx_ts available fuel tx = (empty_fifo available 0 fuel >>= λ n. some (clear_lists tx))

-- The packet is dropped from a full ring.
unfoldable pub drop_oldest_skb : TxTs → TxTs × List Effect
unfolding consume_skb
drop_oldest_skb tx =
    if next_idx tx.skb_wr_idx == tx.skb_rd_idx
    then (consume_skb true tx, kfree (tx.skb_ptr tx.skb_rd_idx))
    else (tx, [])

-- ra_net_tx_ts_queue. The ring holds the packet with SKBTX_IN_PROGRESS set.
pub tx_ts_queue : TxTs → Skb → Bool × TxTs × List Effect
unfolding drop_oldest_skb
tx_ts_queue tx skb =
    if not tx.enable || not skb.hw_tstamp
    then (false, tx, [])
    else let (tx', effects) = drop_oldest_skb tx in
      (
        true,
        record tx' {
          skb_ptr = update tx'.skb_ptr tx'.skb_wr_idx (some (record skb { in_progress = true }));
          skb_wr_idx = next_idx tx'.skb_wr_idx;
        },
        effects,
      )
