-- ===== src/Net/TxTs/History.antt =====
-- Any sequence of calls: interrupts, sent packets, runs of the work item, flushes, and changes of the
-- configuration. Between `work` and `resume`, and between two of the latter, the lock is free.

pub mod Accounts
use ravenna_fpga_drivers.Common.{
  ℕ, Bool, true, false, Option, none, some, ◌>>=◌, List, [], ◌∷◌, ◌++◌, if◌then◌else◌,
}
use ravenna_fpga_drivers.Net.TxTs.{
  TxTs, Skb, Headers, Effect, kfree_skb, tstamp_tx, tx_ts_irq, tx_ts_queue, work_begin, correlate,
  rounds, flush_tx_ts,
}

pub data Call : Type 0 where
  irq : (ℕ → ℕ) → Call
  send : Skb → Call
  work : Call
  resume : Call
  flush : (ℕ → Bool) → ℕ → Call
  configure : Bool → Call

-- The state after a call, what happened to packets, and the packets that it took.
pub record Outcome : Type 0 where
  pub state : TxTs
  pub effects : List Effect
  pub accepted : List Skb

pub step : Headers → TxTs → Call → Option Outcome
step h tx (irq words) = some record { state = tx_ts_irq tx words; effects = []; accepted = [] }
step h tx (send skb) =
    let (taken, tx', effects) = tx_ts_queue tx skb in
    some record {
      state = tx';
      effects = effects;
      accepted = if taken then record skb { in_progress = true } ∷ [] else [];
    }
step h tx work = do
  l ← work_begin h tx
  some record { state = l.state; effects = l.effects; accepted = [] }
step h tx resume = do
  l ← correlate h rounds tx
  some record { state = l.state; effects = l.effects; accepted = [] }
step h tx (flush available fuel) = do
  (tx', effects) ← flush_tx_ts available fuel tx
  some record { state = tx'; effects = effects; accepted = [] }
step h tx (configure on) =
    some record { state = record tx { enable = on }; effects = []; accepted = [] }

pub run : Headers → TxTs → List Call → Option Outcome
run h tx [] = some record { state = tx; effects = []; accepted = [] }
run h tx (c ∷ cs) = do
  first ← step h tx c
  rest ← run h first.state cs
  some record {
    state = rest.state;
    effects = first.effects ++ rest.effects;
    accepted = first.accepted ++ rest.accepted;
  }
