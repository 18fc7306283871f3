-- ===== src/Net/TxTs/Correlate.antt =====
-- The second loop of ra_net_tx_ts_work, up to where it gives up the lock.
use mathlib.Core.List.{append_assoc}
use ravenna_fpga_drivers.Common.{
  ℕ, zero, suc, ◌+◌, ◌<◌, ◌≤◌, ◌≡◌, refl, sym, ap, ◌∙◌, true, false, some, List, [], ◌∷◌, arith,
  length, ltb, ◌==◌, Bool-cases, inl, inr, ◌⊎◌,
}
use ravenna_fpga_drivers.Net.TxTs.{
  TxTs, Skb, Headers, FpgaTimestamp, Effect, kfree_skb, Stamp, stamp_none, stamp_tx_skb,
  packet_seq_id, id_offset, hwtstamp_of, Locked, prepend, stop, settle, correlate, consume_skb,
  consume_ts,
}
use ravenna_fpga_drivers.Net.TxTs.Spec.{
  Queues, TimeStamp, time_stamp, seq_id, Verdict, too_short, same, stamp_is_older, stamp_is_newer,
  verdict, Paired, after, pair,
}
use ravenna_fpga_drivers.Net.TxTs.Rings.{Holds-head}
use ravenna_fpga_drivers.Net.TxTs.Packets.{packets-head}
use ravenna_fpga_drivers.Net.TxTs.Heads.{
  skbs_empty-nil, skbs_empty-cons, stamps_empty-nil, stamps_empty-cons, consume_skb-Represents,
  consume_ts-Represents,
}
use ravenna_fpga_drivers.Net.TxTs.Refine.{Represents}

-- The three tests of ra_net_stamp_tx_skb, as one verdict.
stamp_for : Verdict → ℕ → Stamp
stamp_for too_short n = stamp_none true true
stamp_for same n = record { ts_consumed = true; skb_consumed = true; do_stamp = true; hwtstamp = n }
stamp_for stamp_is_older n = stamp_none true false
stamp_for stamp_is_newer n = stamp_none false true

stamp_for-verdict :
    (h : Headers) (k : Skb) (ts : FpgaTimestamp)
    → stamp_tx_skb h k ts ≡ stamp_for (verdict (seq_id h k) ts.sequence_id) (hwtstamp_of ts)
unfolding stamp_tx_skb verdict seq_id stamp_for
stamp_for-verdict h k ts = elim (Bool-cases (ltb k.len (id_offset h k + 2))) [
  | inl e ↦ rw e refl
  | inr e ↦ rw e (elim (Bool-cases (ts.sequence_id == packet_seq_id h k)) [
    | inl e' ↦ rw e' refl
    | inr e' ↦ rw e' (elim (Bool-cases (ltb ts.sequence_id (packet_seq_id h k))) [
      | inl e'' ↦ rw e'' refl
      | inr e'' ↦ rw e'' refl
    ])
  ])
]

abbrev pub Finished : Headers → List Skb → List TimeStamp → Type 0
Finished h ks ts = pair h ks ts ≡ record { packets = ks; stamps = ts; effects = [] }

-- What the second loop has done where it gives up the lock: it is on its way to the pairing of the
-- queues, and has delivered a time stamp or is done.
pub record Reaches (h : Headers) (q : Queues) (ks : List Skb) (ts : List TimeStamp) (l : Locked)
    : Type 0 where
  pub packets : List Skb
  pub stamps : List TimeStamp
  pub state : Represents l.state (record q { packets = packets; stamps = stamps })
  pub on_the_way : pair h ks ts ≡ after l.effects (pair h packets stamps)
  pub ends :
      ((l.again ≡ true) × (length packets < length ks))
      ⊎ ((l.again ≡ false) × Finished h packets stamps)

stops :
    {h : Headers} {q : Queues} {ks : List Skb} {ts : List TimeStamp} {tx : TxTs}
    → Represents tx (record q { packets = ks; stamps = ts })
    → Finished h ks ts
    → Reaches h q ks ts (stop tx)
stops {h} {q} {ks} {ts} r f = record {
  packets = ks;
  stamps = ts;
  state = r;
  on_the_way = refl;
  ends = inr (refl, f);
}

-- One round that drops entries and goes on.
pub goes_on :
    {h : Headers} {q : Queues} {ks ks' : List Skb} {ts ts' : List TimeStamp} {l : Locked}
    (effects : List Effect)
    → length ks' ≤ length ks
    → pair h ks ts ≡ after effects (pair h ks' ts')
    → Reaches h q ks' ts' l
    → Reaches h q ks ts (prepend effects l)
goes_on {h = h} {l = l} effects le e reached = record {
  packets = reached.packets;
  stamps = reached.stamps;
  state = reached.state;
  on_the_way =
      e
      ∙ ap (after effects) reached.on_the_way
      ∙ ap (λ es. record rest { effects = es }) (sym (append_assoc effects l.effects rest.effects));
  ends = elim reached.ends [ inl (again, fewer) ↦ inl (again, omega arith) | inr done ↦ inr done ];
}
  where
    rest : Paired
    rest = pair h reached.packets reached.stamps

pair-nil : (h : Headers) (ts : List TimeStamp) → Finished h [] ts
unfolding pair
pair-nil h ts = refl

pair-cons_nil : (h : Headers) (k : Skb) (ks : List Skb) → Finished h (k ∷ ks) []
unfolding pair
pair-cons_nil h k ks = refl

module _ (h : Headers) (q : Queues) where
  abbrev pub Correlates : ℕ → List Skb → List TimeStamp → TxTs → Type 0
  Correlates fuel ks ts tx = (l : Locked) × (correlate h fuel tx ≡ some l) × Reaches h q ks ts l

  abbrev Shorter : ℕ → Type 0
  Shorter fuel =
      (ks : List Skb) (ts : List TimeStamp) (tx : TxTs)
      → length ks + length ts < fuel
      → Represents tx (record q { packets = ks; stamps = ts })
      → Correlates fuel ks ts tx

  -- The round where both rings hold an entry, by the verdict on the heads.
  settle_by :
      (fuel : ℕ) (k : Skb) (ks : List Skb) (t : TimeStamp) (ts : List TimeStamp) {tx : TxTs}
      (v : Verdict)
      → verdict (seq_id h k) t.0 ≡ v
      → Shorter fuel
      → length ks + length ts + 1 < fuel
      → Represents tx (record q { packets = k ∷ ks; stamps = t ∷ ts })
      → (l : Locked) × (settle (correlate h fuel) k (stamp_for v t.1) tx ≡ some l)
        × Reaches h q (k ∷ ks) (t ∷ ts) l
  unfolding settle stamp_for pair consume_skb consume_ts
  settle_by fuel k ks t ts {tx} too_short e ih small r =
      let r' =
        consume_ts-Represents _ (record q { packets = ks }) ts
          (consume_skb-Represents tx (record q { stamps = t ∷ ts }) ks r) in
      let (l, run, reached) = ih ks ts _ (omega arith) r' in
      (
        prepend (kfree_skb k ∷ []) l,
        rw run refl,
        goes_on (kfree_skb k ∷ []) (omega arith) (rw (e, pair) refl) reached,
      )
  settle_by fuel k ks t ts {tx} same e ih small r =
      let r' =
        consume_ts-Represents _ (record q { packets = ks }) ts
          (consume_skb-Represents tx (record q { stamps = t ∷ ts }) ks r) in
      (
        _,
        refl,
        record {
          packets = ks;
          stamps = ts;
          state = r';
          on_the_way = rw (e, pair) refl;
          ends = inl (refl, omega arith);
        },
      )
  settle_by fuel k ks t ts {tx} stamp_is_older e ih small r =
      let r' = consume_ts-Represents tx (record q { packets = k ∷ ks }) ts r in
      let (l, run, reached) = ih (k ∷ ks) ts _ (omega arith) r' in
      (prepend [] l, rw run refl, goes_on [] (omega arith) (rw (e, pair) refl) reached)
  settle_by fuel k ks t ts {tx} stamp_is_newer e ih small r =
      let r' = consume_skb-Represents tx (record q { stamps = t ∷ ts }) ks r in
      let (l, run, reached) = ih ks (t ∷ ts) _ (omega arith) r' in
      (
        prepend (kfree_skb k ∷ []) l,
        rw run refl,
        goes_on (kfree_skb k ∷ []) (omega arith) (rw (e, pair) refl) reached,
      )

  pub correlate-Reaches :
      (fuel : ℕ) (ks : List Skb) (ts : List TimeStamp) (tx : TxTs)
      → length ks + length ts < fuel
      → Represents tx (record q { packets = ks; stamps = ts })
      → Correlates fuel ks ts tx
  unfolding correlate
  correlate-Reaches zero ks ts tx small r = absurd (omega arith)
  correlate-Reaches (suc fuel) [] ts tx small r =
      (stop tx, rw (skbs_empty-nil tx r.packets) refl, stops r (pair-nil h ts))
  correlate-Reaches (suc fuel) (k ∷ ks) [] tx small r = (
    stop tx,
    rw (skbs_empty-cons tx r.packets, stamps_empty-nil tx r.stamps) refl,
    stops r (pair-cons_nil h k ks),
  )
  correlate-Reaches (suc fuel) (k ∷ ks) (t ∷ ts) tx small r =
      let head : time_stamp (tx.fpga_ts tx.ts_rd_idx) ≡ t = Holds-head r.stamps in
      let (l, run, reached) =
        settle_by fuel k ks t ts (verdict (seq_id h k) t.0) refl (correlate-Reaches fuel)
          (omega arith) r in
      (
        l,
        rw
            (
              skbs_empty-cons tx r.packets,
              stamps_empty-cons tx r.stamps,
              packets-head r.packets,
              stamp_for-verdict h k (tx.fpga_ts tx.ts_rd_idx)
                  ∙ ap (λ (p : TimeStamp). stamp_for (verdict (seq_id h k) p.0) p.1) head,
            )
            run,
        reached,
      )
