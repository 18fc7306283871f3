-- ===== src/Net/TxTs/Drain.antt =====
-- The first loop of ra_net_tx_ts_work.
use ravenna_fpga_drivers.Common.{
  ℕ, zero, suc, ◌-◌, ◌<◌, ◌≡◌, refl, true, false, some, List, [], ◌∷◌, map, arith, not, ◌&&◌, ltb,
  length, subst,
}
use ravenna_fpga_drivers.Net.TxTs.{TxTs, Skb, kfree_skb, drain_lost, consume_skb, skbs_empty}
use ravenna_fpga_drivers.Net.TxTs.Spec.{Queues, take, drop}
use ravenna_fpga_drivers.Net.TxTs.Packets.{packets-head}
use ravenna_fpga_drivers.Net.TxTs.Refine.{Represents}
use ravenna_fpga_drivers.Net.TxTs.Heads.{skbs_empty-nil, skbs_empty-cons, consume_skb-Represents}

-- With fuel for each packet it ends, and drops as many packets as time stamps were lost.
pub drain_lost-Represents :
    (fuel n : ℕ) (ks : List Skb) {tx : TxTs} (q : Queues)
    → length ks < fuel
    → Represents tx (record q { lost = n; packets = ks })
    → (tx' : TxTs) × (drain_lost fuel tx ≡ some (tx', map kfree_skb (take n ks)))
      × Represents tx' (record q { lost = n - length ks; packets = drop n ks })
unfolding drain_lost
drain_lost-Represents zero n ks q h r = absurd (omega arith)
drain_lost-Represents (suc fuel) zero ks {tx} q h r = (
  tx,
  let e : (ltb 0 tx.ts_lost && not (skbs_empty tx)) ≡ false = rw r.lost refl in rw e refl,
  subst (λ m. Represents tx (record q { lost = m; packets = ks })) (omega arith) r,
)
drain_lost-Represents (suc fuel) (suc n) [] {tx} q h r = (
  tx,
  let e : (ltb 0 tx.ts_lost && not (skbs_empty tx)) ≡ false =
        ground (arith, skbs_empty-nil tx r.packets) in
      rw e refl,
  subst (λ m. Represents tx (record q { lost = m; packets = [] })) (omega arith) r,
)
drain_lost-Represents (suc fuel) (suc n) (k ∷ ks) {tx} q h r =
    let c = consume_skb-Represents tx (record q { lost = suc n }) ks r in
    let next : TxTs = record (consume_skb true tx) { ts_lost = tx.ts_lost - 1 } in
    let here : Represents next (record q { lost = n; packets = ks }) = record {
      enable = c.enable;
      lost = let e = r.lost in omega arith;
      work = c.work;
      packets = c.packets;
      stamps = c.stamps;
    } in
    let (tx', e, r') = drain_lost-Represents fuel n ks q (omega arith) here in
    (
      tx',
      let go_on : (ltb 0 tx.ts_lost && not (skbs_empty tx)) ≡ true =
            let lost = r.lost in ground (arith, skbs_empty-cons tx r.packets) in
          rw (go_on, e, packets-head r.packets) refl,
      subst (λ m. Represents tx' (record q { lost = m; packets = drop n ks })) (omega arith) r',
    )
