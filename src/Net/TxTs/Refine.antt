-- ===== src/Net/TxTs/Refine.antt =====
-- The rings implement the queues: the relation between them, and the functions that are one step.

use ravenna_fpga_drivers.Common.{
  ℕ, ◌+◌, ◌%◌, ◌^◌, ◌<◌, ◌≡◌, refl, sym, ap, ◌∙◌, Bool, true, false, not, ◌&&◌, ◌||◌, Option, none,
  some, List, [], ◌∷◌, ◌++◌, map, arith, length, update, update_map, subst, if◌then◌else◌, ◌==◌,
  Bool-cases, inl, inr,
}
use ravenna_fpga_drivers.Net.TxTs.{
  next_idx, TxTs, Skb, FpgaTimestamp, kfree, kfree_skb, find_start, read_entry, drop_oldest_ts,
  store_ts, tx_ts_irq, drop_oldest_skb, tx_ts_queue, hwtstamp_of,
}
use ravenna_fpga_drivers.Net.TxTs.Spec.{
  Queues, TimeStamp, time_stamp, room, evicted, receive, accept, evicts,
}
use ravenna_fpga_drivers.Net.TxTs.Packets.{
  HoldsPackets, clear_packet, add_packet, packets-full, packets-head,
}
use ravenna_fpga_drivers.Net.TxTs.Rings.{Holds, Holds-push, Holds-pop, full_iff}

pub record Represents (tx : TxTs) (q : Queues) : Type 0 where
  pub enable : tx.enable ≡ q.enable
  pub lost : tx.ts_lost ≡ q.lost
  pub work : tx.work ≡ q.work
  pub packets : HoldsPackets tx.skb_ptr tx.skb_rd_idx tx.skb_wr_idx q.packets
  pub stamps : Holds (λ i. time_stamp (tx.fpga_ts i)) tx.ts_rd_idx tx.ts_wr_idx q.stamps

-- A full ring loses its oldest entry, and has room for one more.
room_fits : {A : Type 0} (xs : List A) → length xs < 64 → length (room xs) < 63
room_fits [] h = omega arith
room_fits (x ∷ xs) h = ground arith

Holds-room :
    {A : Type 0} {f : ℕ → A} {rd wr : ℕ} (xs : List A)
    → Holds f rd wr xs
    → Holds f (if next_idx wr == rd then next_idx rd else rd) wr (room xs)
Holds-room [] r = rw (full_iff r) r
Holds-room (x ∷ xs) r = elim (Bool-cases (length (x ∷ xs) == 63)) [
  | inl e ↦ rw (full_iff r, e) (Holds-pop r)
  | inr e ↦ rw (full_iff r, e) r
]

drop_ts-Represents :
    {tx : TxTs} {q : Queues}
    → Represents tx q
    → Represents (drop_oldest_ts tx) (record q { stamps = room q.stamps })
unfolding drop_oldest_ts
drop_ts-Represents {tx} {q} r =
    let dropped = Holds-room q.stamps r.stamps in
    elim (Bool-cases (next_idx tx.ts_wr_idx == tx.ts_rd_idx)) [
      | inl e ↦ rw e record {
        enable = r.enable;
        lost = r.lost;
        work = r.work;
        packets = r.packets;
        stamps = rw e at dropped;
      }
      | inr e ↦ rw e record {
        enable = r.enable;
        lost = r.lost;
        work = r.work;
        packets = r.packets;
        stamps = rw e at dropped;
      }
    ]

abbrev no_entry : FpgaTimestamp
no_entry = record {
  seconds_hi = 0;
  start_of_ts = 0;
  seconds = 0;
  nanoseconds = 0;
  sequence_id = 0;
  reserved = 0;
}

-- What the search in the FIFO yields.
abbrev pub stamp_at : (ℕ → ℕ) → Option (ℕ × ℕ) → Option TimeStamp
stamp_at words none = none
stamp_at words (some (sot, k)) = some (time_stamp (read_entry no_entry sot words k))

-- The time stamp does not depend on what the slot held.
time_stamp-read_entry :
    (old : FpgaTimestamp) (sot : ℕ) (words : ℕ → ℕ) (k : ℕ)
    → time_stamp (read_entry old sot words k) ≡ time_stamp (read_entry no_entry sot words k)
unfolding read_entry hwtstamp_of
time_stamp-read_entry old sot words k = refl

store-Represents :
    {tx : TxTs} (q : Queues) (words : ℕ → ℕ) (found : Option (ℕ × ℕ))
    → length (room q.stamps) < 63
    → Represents tx (record q { stamps = room q.stamps })
    → Represents (store_ts tx words found) (receive q (stamp_at words found))
unfolding store_ts
store-Represents q words none fits r = record {
  enable = r.enable;
  lost = let e = r.lost in ap (λ n. (n + 1) % 2 ^ 32) e;
  work = refl;
  packets = r.packets;
  stamps = r.stamps;
}
store-Represents {tx} q words (some (sot, k)) fits r =
    let old = tx.fpga_ts tx.ts_wr_idx in
    let entry = read_entry old sot words k in
    let t : TimeStamp = time_stamp (read_entry no_entry sot words k) in
    record {
      enable = r.enable;
      lost = r.lost;
      work = refl;
      packets = r.packets;
      stamps =
          subst (λ f. Holds f tx.ts_rd_idx (next_idx tx.ts_wr_idx) (room q.stamps ++ t ∷ []))
            (ap (λ v. update (λ i. time_stamp (tx.fpga_ts i)) tx.ts_wr_idx v)
                (sym (time_stamp-read_entry old sot words k))
              ∙ update_map time_stamp tx.fpga_ts tx.ts_wr_idx entry)
            (Holds-push t fits r.stamps);
    }

-- The interrupt handler adds the time stamp that it finds in four words of the FIFO to the queue that
-- the ring holds, or counts it as lost where it finds none; either way a queue that was full loses its
-- oldest entry, and the work item is scheduled.
pub tx_ts_irq_lem :
    {tx : TxTs} {q : Queues} (words : ℕ → ℕ)
    → Represents tx q
    → Represents (tx_ts_irq tx words) (receive q (stamp_at words (find_start words 0 4)))
unfolding tx_ts_irq
tx_ts_irq_lem {tx} {q} words r =
    store-Represents q words (find_start words 0 4) (room_fits q.stamps r.stamps.fits)
      (drop_ts-Represents r)

-- dropping the oldest packet
drop_skb-Represents :
    {tx : TxTs} (q : Queues) (ks : List Skb)
    → Represents tx (record q { packets = ks })
    → let (tx', effects) = drop_oldest_skb tx in
      Represents tx' (record q { packets = room ks }) × (effects ≡ map kfree_skb (evicted ks))
unfolding drop_oldest_skb
drop_skb-Represents q [] r = rw (packets-full r.packets) (r, refl)
drop_skb-Represents {tx} q (k ∷ ks) r = elim (Bool-cases (length (k ∷ ks) == 63)) [
  | inl e ↦
      rw (packets-full r.packets, e)
        (
          record {
            enable = r.enable;
            lost = r.lost;
            work = r.work;
            packets = clear_packet r.packets;
            stamps = r.stamps;
          },
          ap kfree (packets-head r.packets),
        )
  | inr e ↦ rw (packets-full r.packets, e) (r, refl)
]

pub not-not_or : (a b : Bool) → not (not a || not b) ≡ (a && b)
not-not_or true true = refl
not-not_or true false = refl
not-not_or false b = refl

-- A sent packet is taken exactly if time stamps are enabled and it asks for one; then it is added to
-- the queue that the ring holds, marked as in progress, and the oldest packet is dropped and freed
-- where the queue is full. Otherwise nothing changes.
pub tx_ts_queue-Represents :
    {tx : TxTs} {q : Queues} (skb : Skb)
    → Represents tx q
    → let (taken, tx', effects) = tx_ts_queue tx skb in
      (taken ≡ (q.enable && skb.hw_tstamp))
      × Represents tx' (accept q skb)
      × (effects ≡ evicts q skb)
unfolding tx_ts_queue
tx_ts_queue-Represents {tx} {q} skb r =
    let (d, effects) = drop_skb-Represents q q.packets r in
    let asked : (not tx.enable || not skb.hw_tstamp) ≡ (not q.enable || not skb.hw_tstamp) =
      ap (λ b. not b || not skb.hw_tstamp) r.enable in
    elim (Bool-cases (not q.enable || not skb.hw_tstamp)) [
      | inl e ↦ rw (asked ∙ e, e) (sym (ap not e) ∙ not-not_or q.enable skb.hw_tstamp, r, refl)
      | inr e ↦
          rw (asked ∙ e, e)
            (
              sym (ap not e) ∙ not-not_or q.enable skb.hw_tstamp,
              record {
                enable = d.enable;
                lost = d.lost;
                work = d.work;
                packets =
                    add_packet (record skb { in_progress = true })
                      (room_fits q.packets r.packets.fits) d.packets;
                stamps = d.stamps;
              },
              effects,
            )
    ]
