-- ===== src/Net/TxTs/Heads.antt =====
-- The tests for empty rings, and what taking the oldest entry leaves.
use ravenna_fpga_drivers.Common.{◌≡◌, true, false, List, [], ◌∷◌}
use ravenna_fpga_drivers.Net.TxTs.{TxTs, Skb, skbs_empty, stamps_empty, consume_skb, consume_ts}
use ravenna_fpga_drivers.Net.TxTs.Spec.{Queues, TimeStamp, time_stamp}
use ravenna_fpga_drivers.Net.TxTs.Rings.{Holds, Holds-pop, nil_iff, cons_iff}
use ravenna_fpga_drivers.Net.TxTs.Packets.{HoldsPackets, clear_packet}
use ravenna_fpga_drivers.Net.TxTs.Refine.{Represents}

module _ (tx : TxTs) where
  abbrev pub HasPackets : List Skb → Type 0
  HasPackets ks = HoldsPackets tx.skb_ptr tx.skb_rd_idx tx.skb_wr_idx ks

  abbrev pub HasStamps : List TimeStamp → Type 0
  HasStamps ts = Holds (λ i. time_stamp (tx.fpga_ts i)) tx.ts_rd_idx tx.ts_wr_idx ts

  pub skbs_empty-nil : HasPackets [] → skbs_empty tx ≡ true
  unfolding skbs_empty
  skbs_empty-nil p = nil_iff p.ring

  pub skbs_empty-cons : {k : Skb} {ks : List Skb} → HasPackets (k ∷ ks) → skbs_empty tx ≡ false
  unfolding skbs_empty
  skbs_empty-cons p = cons_iff p.ring

  pub stamps_empty-nil : HasStamps [] → stamps_empty tx ≡ true
  unfolding stamps_empty
  stamps_empty-nil r = nil_iff r

  pub stamps_empty-cons :
      {t : TimeStamp} {ts : List TimeStamp} → HasStamps (t ∷ ts) → stamps_empty tx ≡ false
  unfolding stamps_empty
  stamps_empty-cons r = cons_iff r

  pub consume_skb-Represents :
      (q : Queues) {k : Skb} (ks : List Skb)
      → Represents tx (record q { packets = k ∷ ks })
      → Represents (consume_skb true tx) (record q { packets = ks })
  unfolding consume_skb
  consume_skb-Represents q ks r = record {
    enable = r.enable;
    lost = r.lost;
    work = r.work;
    packets = clear_packet r.packets;
    stamps = r.stamps;
  }

  pub consume_ts-Represents :
      (q : Queues) {t : TimeStamp} (ts : List TimeStamp)
      → Represents tx (record q { stamps = t ∷ ts })
      → Represents (consume_ts true tx) (record q { stamps = ts })
  unfolding consume_ts
  consume_ts-Represents q ts r = record {
    enable = r.enable;
    lost = r.lost;
    work = r.work;
    packets = r.packets;
    stamps = Holds-pop r.stamps;
  }
