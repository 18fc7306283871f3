-- ===== src/Net/Tests.antt =====
-- The time stamps on concrete packets, and the theorems applied to them.
use ravenna_fpga_drivers.Common.{
  Bool, ltb, ℕ, ◌*◌, ◌%◌, ◌≡◌, refl, true, false, some, List, [], ◌∷◌, arith, update, ◌==◌,
  if◌then◌else◌,
}
use ravenna_fpga_drivers.Net.TxTs.{
  TxTs, Skb, Headers, FpgaTimestamp, next_idx, find_start, hwtstamp_of, packet_seq_id, tx_ts_irq,
  tx_ts_queue, tstamp_tx, kfree_skb, Effect,
}
use ravenna_fpga_drivers.Net.TxTs.Spec.{Queues, seq_id, receive, accept, evicts, time_stamp}
use ravenna_fpga_drivers.Net.TxTs.Packets.{add_packet}
use ravenna_fpga_drivers.Net.TxTs.Refine.{Represents, tx_ts_queue-Represents}
use ravenna_fpga_drivers.Net.TxTs.Arrivals.{Entry, Arrives, arrived, stamp_of, tx_ts_irq-Represents}
use ravenna_fpga_drivers.Net.TxTs.Flush.{nulls, no_packets}
use ravenna_fpga_drivers.Net.TxTs.WorkItem.{Works, tx_ts_work-Works}
use ravenna_fpga_drivers.Net.TxTs.Delivery.{
  WorkRun, Stamped, tx_ts_work-Stamped, tx_ts_work-delivers, tx_ts_work-starves, tx_ts_work-loses,
}
use ravenna_fpga_drivers.Net.TxTs.History.{irq, send, work, resume, flush, configure, run}
use ravenna_fpga_drivers.Net.TxTs.History.Accounts.{Keeps, run-Keeps}
use ravenna_fpga_drivers.Net.Hwtstamp.{Stamping, Config, hwtstamp_ioctl, rx_apply_timestamp}
use ravenna_fpga_drivers.Net.Hwtstamp.Laws.{
  Configures, hwtstamp_ioctl-Configures, rx_apply_timestamp-eq-hwtstamp_of,
}

-- The headers of linux/if_ether.h, linux/udp.h and linux/ptp_classify.h.
abbrev pub headers : Headers
headers = record {
  eth_hlen = 14;
  udp_hlen = 8;
  off_ptp_sequence_id = 30;
  ipv4_hlen = λ bytes. bytes 14 % 16 * 4;
}

-- A PTP packet with a sequence id below 256.
abbrev pub packet : ℕ → Skb
packet n = record {
  id = n;
  len = 86;
  bytes = λ i. if i == 14 then 0x45 else if i == 73 then n else 0;
  hw_tstamp = true;
  in_progress = true;
}

abbrev pub stamp : ℕ → FpgaTimestamp
stamp n = record {
  seconds_hi = 0;
  start_of_ts = 0x1588;
  seconds = 2;
  nanoseconds = n;
  sequence_id = n;
  reserved = 0;
}

-- What the FIFO holds: a word that is out of place, and a time stamp.
abbrev pub words : ℕ → ℕ
words k =
    if k == 0
    then 7
    else if k == 1
    then 0x15880000
    else if k == 2
    then 2
    else if k == 3
    then 9
    else 4

-- A packet and a time stamp wait.
abbrev pub waiting : ℕ → ℕ → ℕ → TxTs
waiting lost id seq = record {
  enable = true;
  ts_lost = lost;
  work = true;
  skb_ptr = update nulls 0 (some (packet id));
  skb_rd_idx = 0;
  skb_wr_idx = next_idx 0;
  fpga_ts = λ _. stamp seq;
  ts_rd_idx = 0;
  ts_wr_idx = next_idx 0;
}

abbrev pub waiting_queues : ℕ → ℕ → ℕ → Queues
waiting_queues lost id seq = record {
  enable = true;
  lost = lost;
  work = true;
  packets = packet id ∷ [];
  stamps = time_stamp (stamp seq) ∷ [];
}

pub waiting-Represents :
    (lost id seq : ℕ) → Represents (waiting lost id seq) (waiting_queues lost id seq)
waiting-Represents lost id seq = record {
  enable = refl;
  lost = refl;
  work = refl;
  packets = add_packet (packet id) (omega arith) no_packets;
  stamps = record {
    in_range = omega arith;
    fits = omega arith;
    write_idx = omega arith;
    entries = refl;
  };
}

found : find_start words 0 4 ≡ some (0x15880000, 2)
unfolding find_start
found = refl

abbrev entry : Entry
entry = record { seconds_hi = 0; seconds = 2; nanoseconds = 9; sequence_id = 4; reserved = 0 }

words-Arrives : Arrives words (some (stamp_of entry))
words-Arrives =
    arrived 1 entry (omega arith) (λ i h. ground arith)
      record {
        mark = refl;
        seconds = refl;
        nanoseconds = refl;
        fourth = refl;
        hi_fits = omega arith;
        id_fits = omega arith;
      }

tx_ts_irq-Represents_example :
    Represents
      (tx_ts_irq (waiting 0 3 3) words)
      (receive (waiting_queues 0 3 3) (some (stamp_of entry)))
tx_ts_irq-Represents_example = tx_ts_irq-Represents words words-Arrives (waiting-Represents 0 3 3)

tx_ts_queue-Represents_example :
    let (taken, tx', effects) = tx_ts_queue (waiting 0 3 3) (packet 4) in
    (taken ≡ true)
    × Represents tx' (accept (waiting_queues 0 3 3) (packet 4))
    × (effects ≡ evicts (waiting_queues 0 3 3) (packet 4))
tx_ts_queue-Represents_example = tx_ts_queue-Represents (packet 4) (waiting-Represents 0 3 3)

tx_ts_work-Works_example : Works headers (waiting 0 3 3) (waiting_queues 0 3 3)
tx_ts_work-Works_example = tx_ts_work-Works headers (waiting-Represents 0 3 3)

-- The FIFO of the FPGA holds two time stamps.
abbrev pending : ℕ → Bool
pending i = ltb i 2

run-Keeps_example : Keeps (waiting_queues 0 3 3) (
    run headers
      (waiting 0 3 3)
      (send (packet 4) ∷ work ∷ irq words ∷ resume ∷ configure false ∷ flush pending 3 ∷ []))
run-Keeps_example =
    run-Keeps headers (waiting 0 3 3)
      (send (packet 4) ∷ work ∷ irq words ∷ resume ∷ configure false ∷ flush pending 3 ∷ [])
      (tt, (tt, (tt, (tt, (tt, ((2, omega arith, refl), tt)))))) (waiting-Represents 0 3 3)

tx_ts_work-Stamped_example :
    (es : List Effect) × (q' : Queues) × WorkRun headers (waiting 0 3 3) q' es
    × Stamped headers (time_stamp (stamp 3) ∷ []) es
tx_ts_work-Stamped_example = tx_ts_work-Stamped headers (waiting-Represents 0 3 3)

tx_ts_work-delivers_example :
    WorkRun headers
      (waiting 0 3 3)
      (record (waiting_queues 0 3 3) { lost = 0; work = false; packets = []; stamps = [] })
      (tstamp_tx (packet 3) 2_000_000_003 ∷ kfree_skb (packet 3) ∷ [])
unfolding seq_id packet_seq_id hwtstamp_of
tx_ts_work-delivers_example = tx_ts_work-delivers headers (waiting-Represents 0 3 3) refl (refl, tt)

-- The time stamp of packet 4 is dropped while packet 200 waits for its own.
tx_ts_work-starves_example :
    WorkRun headers
      (waiting 0 200 4)
      (record (waiting_queues 0 200 4) {
        lost = 0;
        work = false;
        packets = packet 200 ∷ [];
        stamps = [];
      })
      []
unfolding seq_id packet_seq_id
tx_ts_work-starves_example =
    tx_ts_work-starves headers (waiting_queues 0 200 4) (packet 200) [] 200
      (waiting-Represents 0 200 4) refl refl (omega arith)

-- The time stamp of packet 3 is there, and another was lost: packet 3 is freed without it.
packet_3_loses :
    (es : List Effect) × (q' : Queues) × WorkRun headers
      (waiting 1 3 3)
      q'
      (kfree_skb (packet 3) ∷ es)
packet_3_loses =
    tx_ts_work-loses headers (waiting_queues 1 3 3) (packet 3) [] (waiting-Represents 1 3 3)
      (omega arith)

abbrev pub idle : Stamping
idle = record {
  tx_ts = waiting 0 3 3;
  rx_ts_enable = false;
  irq_disabled = true;
  timestamps_enabled = false;
  queue_stopped = false;
}

abbrev both_ways : Config
both_ways = record { flags = 0; tx_type = 1; rx_filter = 7 }

hwtstamp_ioctl-Configures_example :
    let (priv', r) = hwtstamp_ioctl true idle (some both_ways) in
    Configures true idle (some both_ways) priv' r
hwtstamp_ioctl-Configures_example = hwtstamp_ioctl-Configures true idle (some both_ways)

received_time :
    rx_apply_timestamp (record idle { rx_ts_enable = true }) (stamp 3) 0 ≡ hwtstamp_of (stamp 3)
received_time = rx_apply_timestamp-eq-hwtstamp_of (record idle { rx_ts_enable = true }) (stamp 3) 0
