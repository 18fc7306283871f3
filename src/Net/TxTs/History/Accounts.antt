-- ===== src/Net/TxTs/History/Accounts.antt =====
-- What any sequence of calls keeps: the rings hold queues, and no packet is lost or freed twice.
use mathlib.Core.List.{Perm, append-nil, append_assoc, perm-append_left_iff, perm-append_right_iff}
use mathlib.Core.List.Perm
use ravenna_fpga_drivers.Common.{
  ◌≡◌, refl, sym, ap, ◌∙◌, subst, true, Option, none, some, List, [], ◌∷◌, ◌++◌, not, ◌||◌, ◌&&◌,
  arith, if◌then◌else◌, Bool-cases, inl, inr,
}
use ravenna_fpga_drivers.Net.TxTs.{
  TxTs, Skb, Headers, Effect, Locked, tx_ts_irq, find_start, rounds, flush_tx_ts,
}
use ravenna_fpga_drivers.Net.TxTs.Spec.{
  Queues, TimeStamp, pair, room, evicted, drain, drained, receive, accept, evicts, flushed, take,
}
use ravenna_fpga_drivers.Net.TxTs.Refine.{
  Represents, not-not_or, stamp_at, tx_ts_irq_lem, tx_ts_queue-Represents,
}
use ravenna_fpga_drivers.Net.TxTs.Flush.{clear_lists-Represents, RunsDry, empty_fifo-RunsDry}
use ravenna_fpga_drivers.Net.TxTs.Correlate.{Reaches, correlate-Reaches}
use ravenna_fpga_drivers.Net.TxTs.WorkItem.{work_begin-Reaches}
use ravenna_fpga_drivers.Net.TxTs.Ledger.{
  freed, freed-append, freed-kfree, pair-freed, take-append-drop, evicted-append-room,
}
use ravenna_fpga_drivers.Net.TxTs.History.{
  Call, irq, send, work, resume, flush, configure, Outcome, step, run,
}

-- The packets that were freed and those that wait are those that waited before and those that were
-- taken, each as often.
abbrev Balance : Queues → Outcome → Queues → Type 0
Balance q o q' = Perm (freed o.effects ++ q'.packets) (q.packets ++ o.accepted)

pub record Keeps (q : Queues) (result : Option Outcome) : Type 0 where
  pub outcome : Outcome
  pub returns : result ≡ some outcome
  pub queues : Queues
  pub state : Represents outcome.state queues
  pub balance : Balance q outcome queues

-- Where no packet is taken, all come off in order.
in_order :
    {q q' : Queues} (tx : TxTs) (es : List Effect)
    → Represents tx q'
    → freed es ++ q'.packets ≡ q.packets
    → Keeps q (some (record { state = tx; effects = es; accepted = [] }))
in_order {q} {q'} tx es r e = record {
  outcome = record { state = tx; effects = es; accepted = [] };
  returns = refl;
  queues = q';
  state = r;
  balance =
      subst (λ l. Perm (freed es ++ q'.packets) l) (e ∙ sym (append-nil q.packets))
        (Perm.refl (freed es ++ q'.packets));
}

-- A critical section of the work item.
section_freed :
    {h : Headers} {q : Queues} {ks : List Skb} {ts : List TimeStamp} {l : Locked}
    (reached : Reaches h q ks ts l)
    → freed l.effects ++ reached.packets ≡ ks
section_freed {h} {q} {ks} {ts} {l} reached =
    let rest = pair h reached.packets reached.stamps in
    let e : freed (l.effects ++ rest.effects) ++ rest.packets ≡ ks =
      subst (λ p. freed p.effects ++ p.packets ≡ ks) reached.on_the_way (pair-freed h ks ts) in
    ap (λ l'. freed l.effects ++ l') (sym (pair-freed h reached.packets reached.stamps))
    ∙ sym (append_assoc (freed l.effects) (freed rest.effects) rest.packets)
    ∙ ap (λ l'. l' ++ rest.packets) (sym (freed-append l.effects rest.effects))
    ∙ e

freed-drain :
    (q : Queues) (es : List Effect) (ks : List Skb)
    → freed es ++ ks ≡ (drain q).packets
    → freed (drained q ++ es) ++ ks ≡ q.packets
freed-drain q es ks e =
    rw (freed-append (drained q) es, freed-kfree (take q.lost q.packets))
      (append_assoc (take q.lost q.packets) (freed es) ks
        ∙ ap (λ l. take q.lost q.packets ++ l) e
        ∙ take-append-drop q.lost q.packets)

-- A packet is taken, and perhaps the oldest is freed.
send_balance :
    (q : Queues) (skb : Skb)
    → freed (evicts q skb) ++ (accept q skb).packets
      ≡ q.packets
        ++ (if q.enable && skb.hw_tstamp then record skb { in_progress = true } ∷ [] else [])
unfolding freed
send_balance q skb = elim (Bool-cases (not q.enable || not skb.hw_tstamp)) [
  | inl e ↦ rw (← not-not_or q.enable skb.hw_tstamp, e) (sym (append-nil q.packets))
  | inr e ↦
      rw (← not-not_or q.enable skb.hw_tstamp, e, freed-kfree (evicted q.packets))
        (sym (
            append_assoc (evicted q.packets) (room q.packets)
              (record skb { in_progress = true } ∷ []))
          ∙ ap (λ l. l ++ record skb { in_progress = true } ∷ []) (evicted-append-room q.packets))
]

packets-receive : (q : Queues) (t : Option TimeStamp) → (receive q t).packets ≡ q.packets
packets-receive q none = refl
packets-receive q (some t) = refl

-- Where a call flushes, the FPGA runs out of time stamps within the rounds given.
abbrev pub Ends : Call → Type 0
Ends (flush available fuel) = RunsDry available 0 fuel
Ends _ = Unit {0}

abbrev pub AllEnd : List Call → Type 0
AllEnd [] = Unit {0}
AllEnd (c ∷ cs) = Ends c × AllEnd cs

pub step-Keeps :
    (h : Headers) (tx : TxTs) {q : Queues} (c : Call)
    → Ends c
    → Represents tx q
    → Keeps q (step h tx c)
unfolding step freed flush_tx_ts
step-Keeps h tx {q} (irq words) ends r =
    in_order (tx_ts_irq tx words) [] (tx_ts_irq_lem words r)
      (packets-receive q (stamp_at words (find_start words 0 4)))
step-Keeps h tx {q} (send skb) ends r =
    let (taken, r', effects) = tx_ts_queue-Represents skb r in
    record {
      outcome = _;
      returns = refl;
      queues = accept q skb;
      state = r';
      balance =
          rw (effects, taken)
            (subst (λ l. Perm (freed (evicts q skb) ++ (accept q skb).packets) l)
              (send_balance q skb) (Perm.refl (freed (evicts q skb) ++ (accept q skb).packets)));
    }
step-Keeps h tx {q} work ends r =
    let (l, e, reached) = work_begin-Reaches h tx r in
    rw e (
      in_order l.state (drained q ++ l.effects) reached.state
        (freed-drain q l.effects reached.packets (section_freed reached)))
step-Keeps h tx {q} resume ends r =
    let (l, e, reached) =
      correlate-Reaches h q rounds q.packets q.stamps tx
        (omega (arith, r.packets.fits, r.stamps.fits)) r in
    rw e (in_order l.state l.effects reached.state (section_freed reached))
step-Keeps h tx {q} (flush available fuel) ends r =
    let (r', order, e, p) = clear_lists-Represents r in
    let (read, done) = empty_fifo-RunsDry available 0 fuel ends in
    rw done record {
      outcome = _;
      returns = refl;
      queues = flushed q;
      state = r';
      balance = rw (e, freed-kfree order, append-nil order, append-nil q.packets) p;
    }
step-Keeps h tx {q} (configure on) ends r =
    let r' : Represents (record tx { enable = on }) (record q { enable = on }) = record {
      enable = refl;
      lost = r.lost;
      work = r.work;
      packets = r.packets;
      stamps = r.stamps;
    } in
    in_order (record tx { enable = on }) [] r' refl

-- Two balances in a row.
balance_trans :
    (f₁ f₂ p₀ p₁ p₂ a₁ a₂ : List Skb)
    → Perm (f₁ ++ p₁) (p₀ ++ a₁)
    → Perm (f₂ ++ p₂) (p₁ ++ a₂)
    → Perm ((f₁ ++ f₂) ++ p₂) (p₀ ++ (a₁ ++ a₂))
balance_trans f₁ f₂ p₀ p₁ p₂ a₁ a₂ first second =
    rw (append_assoc f₁ f₂ p₂, ← append_assoc p₀ a₁ a₂)
      (Perm.trans ((perm-append_left_iff f₁).1 second)
        (rw (← append_assoc f₁ p₁ a₂) ((perm-append_right_iff a₂).1 first)))

-- From rings that hold queues, any calls in any order return, if in each flush the FPGA has no time
-- stamp left after fewer rounds than are given for its FIFO: no loop runs out of rounds, and no packet
-- is read through a null pointer. Then the rings hold queues of fewer than 64 entries again, and the
-- packets that were freed and those that wait are those that waited before and those that were taken,
-- each as often.
pub run-Keeps :
    (h : Headers) (tx : TxTs) {q : Queues} (cs : List Call)
    → AllEnd cs
    → Represents tx q
    → Keeps q (run h tx cs)
unfolding run freed
run-Keeps h tx {q} [] ends r = in_order tx [] r refl
run-Keeps h tx {q} (c ∷ cs) (end, ends) r =
    let first = step-Keeps h tx c end r in
    let rest = run-Keeps h first.outcome.state cs ends first.state in
    record {
      outcome = record {
        state = rest.outcome.state;
        effects = first.outcome.effects ++ rest.outcome.effects;
        accepted = first.outcome.accepted ++ rest.outcome.accepted;
      };
      returns = rw (first.returns, rest.returns) refl;
      queues = rest.queues;
      state = rest.state;
      balance = rw (freed-append first.outcome.effects rest.outcome.effects) (
          balance_trans (freed first.outcome.effects) (freed rest.outcome.effects) q.packets
            first.queues.packets rest.queues.packets first.outcome.accepted rest.outcome.accepted
            first.balance rest.balance);
    }
