-- ===== src/Net/TxTs/Delivery.antt =====
-- Which packets get a time stamp from the work item, and which time stamp.
use mathlib.Core.List.{Mem, Subset, mem-cons_self, mem-cons_of_mem}
use ravenna_fpga_drivers.Common.{
  ℕ, suc, ◌-◌, ◌<◌, ◌≡◌, refl, ap, ◌∙◌, subst, false, Option, none, some, List, [], ◌∷◌, ◌++◌, map,
  arith, ==_refl,
}
use ravenna_fpga_drivers.Net.TxTs.{TxTs, Skb, Headers, Effect, kfree_skb, tstamp_tx, tx_ts_work}
use ravenna_fpga_drivers.Net.TxTs.Spec.{
  Queues, TimeStamp, seq_id, Verdict, too_short, same, stamp_is_older, stamp_is_newer, verdict,
  Paired, after, pair, take, drop, drain, leave,
}
use ravenna_fpga_drivers.Net.TxTs.Refine.{Represents}
use ravenna_fpga_drivers.Net.TxTs.WorkItem.{tx_ts_work-Works}

-- Each time stamp that is delivered is one of `ts`, with the sequence id of the packet.
abbrev pub Stamped : Headers → List TimeStamp → List Effect → Type 0
Stamped h ts [] = Unit {0}
Stamped h ts (kfree_skb k ∷ es) = Stamped h ts es
Stamped h ts (tstamp_tx k n ∷ es) =
    ((id : ℕ) × (seq_id h k ≡ some id) × Mem (id, n) ts) × Stamped h ts es

Stamped-subset :
    (h : Headers) {ts us : List TimeStamp} (es : List Effect)
    → Subset ts us
    → Stamped h ts es
    → Stamped h us es
Stamped-subset h [] sub s = tt
Stamped-subset h (kfree_skb k ∷ es) sub s = Stamped-subset h es sub s
Stamped-subset h (tstamp_tx k n ∷ es) sub ((id, e, m), s) =
    ((id, e, sub (id, n) m), Stamped-subset h es sub s)

Stamped-kfree :
    (h : Headers) (ts : List TimeStamp) (ks : List Skb) (es : List Effect)
    → Stamped h ts es
    → Stamped h ts (map kfree_skb ks ++ es)
Stamped-kfree h ts [] es s = s
Stamped-kfree h ts (k ∷ ks) es s = Stamped-kfree h ts ks es s

verdict-same : (o : Option ℕ) (t : ℕ) → verdict o t ≡ same → o ≡ some t
unfolding verdict
verdict-same none t e = absurd (ground arith)
verdict-same (some n) t e = ground arith

pair-Stamped :
    (h : Headers) (ks : List Skb) (ts : List TimeStamp) → Stamped h ts (pair h ks ts).effects
unfolding pair
pair-Stamped h [] ts = tt
pair-Stamped h (k ∷ ks) [] = tt
pair-Stamped h (k ∷ ks) (t ∷ ts) =
    by (verdict (seq_id h k) t.0) refl
      (Stamped-subset h (pair h ks ts).effects (λ a m. mem-cons_of_mem t m) (pair-Stamped h ks ts))
      (Stamped-subset h (pair h (k ∷ ks) ts).effects (λ a m. mem-cons_of_mem t m)
        (pair-Stamped h (k ∷ ks) ts))
      (pair-Stamped h ks (t ∷ ts))
  where
    by :
        (v : Verdict)
        → verdict (seq_id h k) t.0 ≡ v
        → Stamped h (t ∷ ts) (pair h ks ts).effects
        → Stamped h (t ∷ ts) (pair h (k ∷ ks) ts).effects
        → Stamped h (t ∷ ts) (pair h ks (t ∷ ts)).effects
        → Stamped h (t ∷ ts) (pair h (k ∷ ks) (t ∷ ts)).effects
    by too_short e both ts_only skb_only = rw (e, pair) both
    by same e both ts_only skb_only =
        rw (e, pair) ((t.0, verdict-same (seq_id h k) t.0 e, mem-cons_self), both)
    by stamp_is_older e both ts_only skb_only = rw (e, pair) ts_only
    by stamp_is_newer e both ts_only skb_only = rw (e, pair) skb_only

-- A run of the work item, with what it leaves and what it does.
pub record WorkRun (h : Headers) (tx : TxTs) (q' : Queues) (es : List Effect) : Type 0 where
  pub tx' : TxTs
  pub returns : tx_ts_work h tx ≡ some record { state = tx'; effects = es; again = false }
  pub state : Represents tx' q'

-- Each time stamp that the work item delivers is one that the FPGA reported for the sequence id of the
-- packet.
pub tx_ts_work-Stamped :
    (h : Headers) {tx : TxTs} {q : Queues}
    → Represents tx q
    → (es : List Effect) × (q' : Queues) × WorkRun h tx q' es × Stamped h q.stamps es
tx_ts_work-Stamped h {tx} {q} r =
    let w = tx_ts_work-Works h r in
    (
      w.effects,
      leave (drain q) (pair h (drain q).packets q.stamps),
      record { tx' = w.tx'; returns = w.returns; state = w.state },
      rw w.happens (
          Stamped-kfree h q.stamps (take q.lost q.packets)
            (pair h (drain q).packets q.stamps).effects
            (pair-Stamped h (drain q).packets q.stamps)),
    )

-- The time stamps are those of the packets, in the same order.
abbrev pub Matches : Headers → List Skb → List TimeStamp → Type 0
Matches h [] [] = Unit {0}
Matches h [] (t ∷ ts) = ⊥
Matches h (k ∷ ks) [] = ⊥
Matches h (k ∷ ks) (t ∷ ts) = (seq_id h k ≡ some t.0) × Matches h ks ts

-- Each packet gets the time at its place, and is freed.
abbrev pub deliveries : List Skb → List TimeStamp → List Effect
deliveries [] ts = []
deliveries (k ∷ ks) [] = []
deliveries (k ∷ ks) (t ∷ ts) = tstamp_tx k t.1 ∷ kfree_skb k ∷ deliveries ks ts

verdict-some : (n : ℕ) → verdict (some n) n ≡ same
unfolding verdict
verdict-some n = rw ==_refl refl

pair-deliveries :
    (h : Headers) (ks : List Skb) (ts : List TimeStamp)
    → Matches h ks ts
    → pair h ks ts ≡ record { packets = []; stamps = []; effects = deliveries ks ts }
unfolding pair
pair-deliveries h [] [] m = refl
pair-deliveries h [] (t ∷ ts) m = absurd m
pair-deliveries h (k ∷ ks) [] m = absurd m
pair-deliveries h (k ∷ ks) (t ∷ ts) m =
    let e : verdict (seq_id h k) t.0 ≡ same = rw m.0 (verdict-some t.0) in
    rw (e, pair) (ap (after (tstamp_tx k t.1 ∷ kfree_skb k ∷ [])) (pair-deliveries h ks ts m.1))

-- Without lost time stamps the work item does what the pairing says of the whole queues.
nothing_lost :
    (h : Headers) {tx : TxTs} (q : Queues) (p : Paired)
    → Represents tx q
    → q.lost ≡ 0
    → pair h q.packets q.stamps ≡ p
    → WorkRun h tx
        (record q { lost = 0; work = false; packets = p.packets; stamps = p.stamps })
        p.effects
nothing_lost h {tx} q p r none_lost e =
    let w = tx_ts_work-Works h r in
    let e' : pair h (drain q).packets q.stamps ≡ p =
      ap (λ n. pair h (drop n q.packets) q.stamps) none_lost ∙ e in
    let es : w.effects ≡ p.effects =
      w.happens
      ∙ ap (λ n. map kfree_skb (take n q.packets) ++ (pair h (drain q).packets q.stamps).effects)
          none_lost
      ∙ ap (λ p. p.effects) e' in
    record {
      tx' = w.tx';
      returns = w.returns ∙ ap (λ l. some record { state = w.tx'; effects = l; again = false }) es;
      state =
          subst (λ q'. Represents w.tx' q')
            (ap (leave (drain q)) e'
              ∙ ap
                  (λ n. record q { lost = n; work = false; packets = p.packets; stamps = p.stamps })
                  (omega arith))
            w.state;
    }

-- Where no time stamp was lost and those that wait are those of the packets that wait, in the same
-- order, the work item gives each packet its time, frees it, and leaves both queues empty.
pub tx_ts_work-delivers :
    (h : Headers) {tx : TxTs} {q : Queues}
    → Represents tx q
    → q.lost ≡ 0
    → Matches h q.packets q.stamps
    → WorkRun h tx
        (record q { lost = 0; work = false; packets = []; stamps = [] })
        (deliveries q.packets q.stamps)
tx_ts_work-delivers h {tx} {q} r none_lost m =
    nothing_lost h q _ r none_lost (pair-deliveries h q.packets q.stamps m)

-- A packet that waits for a time stamp with a larger sequence id than any that comes: the time stamps
-- are dropped, and no packet is freed.
abbrev pub AllOlder : ℕ → List TimeStamp → Type 0
AllOlder n [] = Unit {0}
AllOlder n (t ∷ ts) = (t.0 < n) × AllOlder n ts

verdict-older : (n t : ℕ) → t < n → verdict (some n) t ≡ stamp_is_older
unfolding verdict
verdict-older n t h = ground arith

pair-older :
    (h : Headers) (k : Skb) (ks : List Skb) (ts : List TimeStamp) (n : ℕ)
    → seq_id h k ≡ some n
    → AllOlder n ts
    → pair h (k ∷ ks) ts ≡ record { packets = k ∷ ks; stamps = []; effects = [] }
unfolding pair
pair-older h k ks [] n e older = refl
pair-older h k ks (t ∷ ts) n e older =
    let v : verdict (seq_id h k) t.0 ≡ stamp_is_older = rw e (verdict-older n t.0 older.0) in
    rw (v, pair) (pair-older h k ks ts n e older.1)

-- Where no time stamp was lost and the oldest packet has a larger sequence id than all time stamps
-- that wait, the work item drops all of these, delivers none and frees no packet, whatever the
-- sequence ids of the other packets are.
pub tx_ts_work-starves :
    (h : Headers) {tx : TxTs} (q : Queues) (k : Skb) (ks : List Skb) (n : ℕ)
    → Represents tx (record q { packets = k ∷ ks })
    → q.lost ≡ 0
    → seq_id h k ≡ some n
    → AllOlder n q.stamps
    → WorkRun h tx (record q { lost = 0; work = false; packets = k ∷ ks; stamps = [] }) []
tx_ts_work-starves h q k ks n r none_lost id older =
    nothing_lost h (record q { packets = k ∷ ks }) _ r none_lost
      (pair-older h k ks q.stamps n id older)

-- Where a time stamp was lost, the oldest packet is freed first, and gets none.
pub tx_ts_work-loses :
    (h : Headers) {tx : TxTs} (q : Queues) (k : Skb) (ks : List Skb)
    → Represents tx (record q { packets = k ∷ ks })
    → 0 < q.lost
    → (es : List Effect) × (q' : Queues) × WorkRun h tx q' (kfree_skb k ∷ es)
tx_ts_work-loses h {tx} q k ks r lost =
    let q' : Queues = record q { packets = k ∷ ks } in
    let w = tx_ts_work-Works h r in
    let p = pair h (drain q').packets q.stamps in
    let one : q.lost ≡ suc (q.lost - 1) = omega arith in
    let es : w.effects ≡ kfree_skb k ∷ map kfree_skb (take (q.lost - 1) ks) ++ p.effects =
      w.happens ∙ ap (λ n. map kfree_skb (take n (k ∷ ks)) ++ p.effects) one in
    (
      map kfree_skb (take (q.lost - 1) ks) ++ p.effects,
      leave (drain q') p,
      record {
        tx' = w.tx';
        returns =
            w.returns ∙ ap (λ l. some record { state = w.tx'; effects = l; again = false }) es;
        state = w.state;
      },
    )
