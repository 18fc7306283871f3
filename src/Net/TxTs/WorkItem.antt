-- ===== src/Net/TxTs/WorkItem.antt =====
-- ra_net_tx_ts_work: it ends, and pairs the queues as specified.
use mathlib.Core.List.{append-nil, append_assoc}
use ravenna_fpga_drivers.Common.{
  ℕ, zero, suc, ◌<◌, ◌≤◌, ◌≡◌, refl, sym, ap, subst, ◌∙◌, false, Option, none, some, ◌>>=◌, List,
  [], ◌∷◌, ◌++◌, arith, length, inl, inr, Bool-cases,
}
use ravenna_fpga_drivers.Net.TxTs.{
  TxTs, Skb, Headers, Effect, Locked, prepend, work_begin, work_rest, tx_ts_work, rounds, correlate,
}
use ravenna_fpga_drivers.Net.TxTs.Spec.{Queues, TimeStamp, after, pair, drop, drain, drained, leave}
use ravenna_fpga_drivers.Net.TxTs.Refine.{Represents}
use ravenna_fpga_drivers.Net.TxTs.Drain.{drain_lost-Represents}
use ravenna_fpga_drivers.Net.TxTs.Correlate.{Reaches, Finished, goes_on, correlate-Reaches}

-- Where the work item gives up the lock first, it has drained the packets of lost time stamps, and is
-- on its way to the pairing of what is left.
pub work_begin-Reaches :
    (h : Headers) (tx : TxTs) {q : Queues}
    → Represents tx q
    → (l : Locked) × (work_begin h tx ≡ some (prepend (drained q) l))
      × Reaches h (drain q) (drain q).packets q.stamps l
unfolding work_begin
work_begin-Reaches h tx {q} r =
    let scheduled : Represents (record tx { work = false }) (record q { work = false }) = record {
      enable = r.enable;
      lost = r.lost;
      work = refl;
      packets = r.packets;
      stamps = r.stamps;
    } in
    let fits = r.packets.fits in
    let (tx', e, r') =
      drain_lost-Represents 64 q.lost q.packets (record q { work = false }) fits scheduled in
    let (l, e', reached) =
      correlate-Reaches h (drain q) rounds (drop q.lost q.packets) q.stamps tx'
        (omega (arith, r'.packets.fits, r'.stamps.fits)) r' in
    (l, rw (e, e') refl, reached)

-- Effects that came before stay before.
work_rest-prepend :
    (h : Headers) (es : List Effect) (fuel : ℕ) (l : Locked)
    → work_rest h fuel (prepend es l) ≡ (work_rest h fuel l >>= λ l'. some (prepend es l'))
unfolding work_rest
work_rest-prepend h es zero l = refl
work_rest-prepend h es (suc fuel) l = elim (Bool-cases l.again) [
  | inl e ↦ rw e (go_on (work_rest-prepend h es fuel) (correlate h rounds l.state))
  | inr e ↦ rw e refl
]
  where
    after_es : Locked → Option Locked
    after_es r = some (prepend es r)

    go_on :
        ((l' : Locked) → work_rest h fuel (prepend es l') ≡ (work_rest h fuel l' >>= after_es))
        → (o : Option Locked)
        → (o >>= λ l'. work_rest h fuel (prepend (es ++ l.effects) l'))
          ≡ ((o >>= λ l'. work_rest h fuel (prepend l.effects l')) >>= after_es)
    go_on ih none = refl
    go_on ih (some l') =
        ap (λ e. work_rest h fuel (record l' { effects = e }))
          (append_assoc es l.effects l'.effects)
        ∙ ih (prepend l.effects l')

abbrev Ends : Headers → Queues → List Skb → List TimeStamp → Option Locked → Type 0
Ends h q ks ts o = (l : Locked) × (o ≡ some l) × Reaches h q ks ts l × (l.again ≡ false)

work_rest-Ends :
    (h : Headers) (q : Queues) (fuel : ℕ) (ks : List Skb) (ts : List TimeStamp) (l : Locked)
    → length ks < fuel
    → Reaches h q ks ts l
    → Ends h q ks ts (work_rest h fuel l)
unfolding work_rest
work_rest-Ends h q zero ks ts l small reached = absurd (omega arith)
work_rest-Ends h q (suc fuel) ks ts l small reached = elim reached.ends [
  | inr (done, _) ↦ (l, rw done refl, reached, done)
  | inl (again, fewer) ↦
      let (l', run, next) =
        correlate-Reaches h q rounds reached.packets reached.stamps l.state
          (omega (arith, reached.state.packets.fits, reached.state.stamps.fits)) reached.state in
      let (l'', rest, reached', done) =
        work_rest-Ends h q fuel reached.packets reached.stamps l' (omega arith) next in
      (
        prepend l.effects l'',
        rw (again, run)
            (work_rest-prepend h l.effects fuel l'
              ∙ ap (λ o. o >>= λ r. some (prepend l.effects r)) rest),
        goes_on l.effects (omega arith) reached.on_the_way reached',
        done,
      )
]

-- The time stamps that the work item leaves, and what it does to the packets, are those of the
-- pairing.
finished :
    (h : Headers) (q : Queues) (ks : List Skb) (ts : List TimeStamp) (l : Locked)
    (reached : Reaches h q ks ts l)
    → Finished h reached.packets reached.stamps
    → (pair h ks ts
        ≡ record { packets = reached.packets; stamps = reached.stamps; effects = l.effects })
finished h q ks ts l reached f =
    reached.on_the_way
    ∙ ap (after l.effects) f
    ∙ ap (λ es. record { packets = reached.packets; stamps = reached.stamps; effects = es })
        (append-nil l.effects)

again-Finished :
    {h : Headers} {q : Queues} {ks : List Skb} {ts : List TimeStamp} {l : Locked}
    (reached : Reaches h q ks ts l)
    → l.again ≡ false
    → Finished h reached.packets reached.stamps
again-Finished reached done = elim reached.ends [ inl (again, _) ↦ cc | inr (_, f) ↦ f ]

length-drop : (n : ℕ) (ks : List Skb) → length (drop n ks) ≤ length ks
length-drop zero ks = omega arith
length-drop (suc n) [] = omega arith
length-drop (suc n) (k ∷ ks) = omega (arith, length-drop n ks)

-- What the work item does where nothing happens while the lock is free.
pub record Works (h : Headers) (tx : TxTs) (q : Queues) : Type 0 where
  pub tx' : TxTs
  pub effects : List Effect
  pub returns : tx_ts_work h tx ≡ some record { state = tx'; effects = effects; again = false }
  pub state : Represents tx' (leave (drain q) (pair h (drain q).packets q.stamps))
  pub happens : effects ≡ drained q ++ (pair h (drain q).packets q.stamps).effects

-- From rings that hold queues, the work item ends where nothing happens while the lock is free, and
-- leaves rings that hold the queues that the specified pairing leaves after as many packets as time
-- stamps were lost were dropped; what it does to the packets is to free those, and then what the
-- pairing says.
pub tx_ts_work-Works : (h : Headers) {tx : TxTs} {q : Queues} → Represents tx q → Works h tx q
unfolding tx_ts_work
tx_ts_work-Works h {tx} {q} r =
    let (l, begin, reached) = work_begin-Reaches h tx r in
    let (l', rest, reached', done) =
      work_rest-Ends h (drain q) rounds (drain q).packets q.stamps l
        (omega (arith, length-drop q.lost q.packets, r.packets.fits)) reached in
    let e =
      finished h (drain q) (drain q).packets q.stamps l' reached' (again-Finished reached' done) in
    record {
      tx' = l'.state;
      effects = drained q ++ l'.effects;
      returns = rw begin (
          work_rest-prepend h (drained q) rounds l
          ∙ ap (λ o. o >>= λ r. some (prepend (drained q) r)) rest
          ∙ ap (λ b. some record { state = l'.state; effects = drained q ++ l'.effects; again = b })
              done);
      state = subst (λ p. Represents l'.state (leave (drain q) p)) (sym e) reached'.state;
      happens = ap (λ p. drained q ++ p.effects) (sym e);
    }
