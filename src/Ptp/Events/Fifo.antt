-- ===== src/Ptp/Events/Fifo.antt =====
-- The handler of external events takes the FIFO apart.
use mathlib.Core.List.{append-nil, append_assoc}
use ravenna_fpga_drivers.Common.{
  ℕ, zero, suc, ◌+◌, ◌*◌, ◌/◌, ◌%◌, ◌^◌, ◌<◌, ◌≡◌, ◌≢◌, refl, sym, ap, ◌∙◌, subst, Bool, true,
  false, some, List, [], ◌∷◌, ◌++◌, map, length, arith, ◌==◌, ==_refl, ==_ne,
}
use ravenna_fpga_drivers.Ptp.{nsec_per_sec}
use ravenna_fpga_drivers.Ptp.Events.{
  start_of_ts, timestamp_wordlen, Event, find_mark, event_of, Extts, report, extts_loop, extts_irq,
}

-- A time stamp as the FPGA puts it into the FIFO.
pub record Entry : Type 0 where
  pub seconds_hi : ℕ
  pub seconds : ℕ
  pub nanoseconds : ℕ
  pub rtp_ts : ℕ

-- Its four words, from the k-th on.
pub record StandsAt (words : ℕ → ℕ) (k : ℕ) (t : Entry) : Type 0 where
  pub mark : words k ≡ start_of_ts * 65536 + t.seconds_hi
  pub in_width : t.seconds_hi < 65536
  pub seconds : words (suc k) ≡ t.seconds
  pub nanoseconds : words (suc k + 1) ≡ t.nanoseconds
  pub rtp_ts : words (suc k + 2) ≡ t.rtp_ts

-- From the k-th word on there are the time stamps, before each of which there may be up to 15 words
-- without the mark.
abbrev pub Filled : (ℕ → ℕ) → ℕ → List Entry → Type 0
Filled words k [] = Unit {0}
Filled words k (t ∷ ts) =
    (junk : ℕ) × (junk < timestamp_wordlen)
    × ((i : ℕ) → i < junk → words (k + i) / 65536 ≢ start_of_ts)
    × StandsAt words (k + junk) t
    × Filled words (k + junk + 4) ts

-- The event of a time stamp.
abbrev pub event : Entry → Event
event t = record {
  timestamp = ((t.seconds_hi * 2 ^ 32 + t.seconds) * nsec_per_sec + t.nanoseconds) % 2 ^ 64;
  rtp_ts = t.rtp_ts;
}

abbrev pub latest : Event → List Entry → Event
latest last [] = last
latest last (t ∷ ts) = latest (event t) ts

find_mark_lem :
    (words : ℕ → ℕ) (k junk ctr : ℕ)
    → junk < ctr
    → ((i : ℕ) → i < junk → words (k + i) / 65536 ≢ start_of_ts)
    → words (k + junk) / 65536 ≡ start_of_ts
    → find_mark words k ctr ≡ (suc (k + junk), some (words (k + junk)))
unfolding find_mark
find_mark_lem words k junk zero h clear mark = absurd (omega arith)
find_mark_lem words k zero (suc ctr) h clear mark =
    let e : k + 0 ≡ k = omega arith in
    let found : (words k / 65536 == start_of_ts) ≡ true =
      subst (λ j. (words j / 65536 == start_of_ts) ≡ true) e (rw mark (==_refl start_of_ts)) in
    rw (found, e) refl
find_mark_lem words k (suc junk) (suc ctr) h clear mark =
    let e : suc k + junk ≡ k + suc junk = omega arith in
    let e0 : k + 0 ≡ k = omega arith in
    let other : (words k / 65536 == start_of_ts) ≡ false =
      subst (λ j. (words j / 65536 == start_of_ts) ≡ false) e0
        (==_ne _ start_of_ts (clear 0 (omega arith))) in
    let later =
      find_mark_lem words (suc k) junk ctr (omega arith)
        (λ i hi.
          let e' : suc k + i ≡ k + suc i = omega arith in
          subst (λ j. words j / 65536 ≢ start_of_ts) (sym e') (clear (suc i) (omega arith)))
        (rw e mark) in
    rw other (rw e at later)

event_of_lem :
    (words : ℕ → ℕ) (k : ℕ) (t : Entry)
    → StandsAt words k t
    → event_of (words k) words (suc k) ≡ event t
unfolding event_of
event_of_lem words k t s =
    let hi : words k % 65536 ≡ t.seconds_hi = let m = s.mark in let w = s.in_width in omega arith in
    rw (hi, s.seconds, s.nanoseconds, s.rtp_ts)
      (ap (λ n. record { timestamp = n; rtp_ts = t.rtp_ts }) (omega arith))

-- One round of the loop.
report_lem :
    (words : ℕ → ℕ) (k junk : ℕ) (t : Entry) (e : Extts)
    → junk < timestamp_wordlen
    → ((i : ℕ) → i < junk → words (k + i) / 65536 ≢ start_of_ts)
    → StandsAt words (k + junk) t
    → report e words (find_mark words k timestamp_wordlen)
      ≡ (k + junk + 4, record { last = event t; events = e.events ++ event t ∷ [] })
unfolding report
report_lem words k junk t e few clear s =
    let mark = s.mark in
    let width = s.in_width in
    let marked : words (k + junk) / 65536 ≡ start_of_ts = omega arith in
    let next : suc (k + junk) + 3 ≡ k + junk + 4 = omega arith in
    rw
      (
        find_mark_lem words k junk timestamp_wordlen few clear marked,
        event_of_lem words (k + junk) t s,
        next,
      )
      refl

extts_loop_lem :
    (words : ℕ → ℕ) (k : ℕ) (ts : List Entry) (e : Extts)
    → Filled words k ts
    → extts_loop words k (length ts) e
      ≡ record { last = latest e.last ts; events = e.events ++ map event ts }
unfolding extts_loop
extts_loop_lem words k [] e f =
    ap (λ l. record { last = e.last; events = l }) (sym (append-nil e.events))
extts_loop_lem words k (t ∷ ts) e (junk, few, clear, stands, f) =
    ap (λ (p : ℕ × Extts). extts_loop words p.0 (length ts) p.1)
      (report_lem words k junk t e few clear stands)
    ∙ (extts_loop_lem words (k + junk + 4) ts
          (record { last = event t; events = e.events ++ event t ∷ [] }) f
        ∙ ap (λ l. record { last = latest (event t) ts; events = l })
            (append_assoc e.events (event t ∷ []) (map event ts)))

-- Where the FIFO of external events holds as many time stamps as it counts, with fewer than 16 stray
-- words before each, the handler passes on the event of each, in order, and remembers the last one; a
-- time of more than 64 bits is cut.
pub extts_irq-Reports :
    (words : ℕ → ℕ) (ts : List Entry) (overflow : Bool) (last : Event)
    → Filled words 0 ts
    → ((extts_irq words (length ts) overflow last).1
        ≡ record { last = latest last ts; events = map event ts })
unfolding extts_irq
extts_irq-Reports words ts overflow last f =
    extts_loop_lem words 0 ts (record { last = last; events = [] }) f
