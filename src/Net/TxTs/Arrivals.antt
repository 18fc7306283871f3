-- ===== src/Net/TxTs/Arrivals.antt =====
-- What the interrupt handler finds in the FIFO of time stamps.
use ravenna_fpga_drivers.Common.{
  ℕ, zero, suc, ◌+◌, ◌*◌, ◌/◌, ◌%◌, ◌^◌, ◌<◌, ◌≡◌, ◌≢◌, refl, sym, ap, ◌∙◌, subst, true, false,
  Option, none, some, arith, ◌==◌, ==_refl, ==_ne,
}
use ravenna_fpga_drivers.Net.TxTs.{
  TxTs, find_start, read_entry, hwtstamp_of, start_of_timestamp, tx_ts_irq,
}
use ravenna_fpga_drivers.Net.TxTs.Spec.{Queues, TimeStamp, receive}
use ravenna_fpga_drivers.Net.TxTs.Refine.{Represents, stamp_at, tx_ts_irq_lem}

-- A time stamp as the FPGA takes it.
pub record Entry : Type 0 where
  pub seconds_hi : ℕ
  pub seconds : ℕ
  pub nanoseconds : ℕ
  pub sequence_id : ℕ
  pub reserved : ℕ

-- Its four words in the FIFO, from the k-th on.
pub record StandsAt (words : ℕ → ℕ) (k : ℕ) (t : Entry) : Type 0 where
  pub mark : words k ≡ 0x1588 * 65536 + t.seconds_hi
  pub seconds : words (suc k) ≡ t.seconds
  pub nanoseconds : words (suc k + 1) ≡ t.nanoseconds
  pub fourth : words (suc k + 2) ≡ t.reserved * 65536 + t.sequence_id
  pub hi_fits : t.seconds_hi < 65536
  pub id_fits : t.sequence_id < 65536

-- Its sequence id and its time in nanoseconds, cut to 64 bits.
abbrev pub stamp_of : Entry → TimeStamp
stamp_of t =
    (t.sequence_id, ((t.seconds_hi * 2 ^ 32 + t.seconds) * 1_000_000_000 + t.nanoseconds) % 2 ^ 64)

abbrev pub Unmarked : (ℕ → ℕ) → ℕ → Type 0
Unmarked words n = (i : ℕ) → i < n → words i / 65536 ≢ 0x1588

-- Up to three words without the mark stand before a time stamp; or four of them, and it is lost.
pub data Arrives (words : ℕ → ℕ) : Option TimeStamp → Type 0 where
  arrived :
      (junk : ℕ) (t : Entry)
      → junk < 4
      → Unmarked words junk
      → StandsAt words junk t
      → Arrives words (some (stamp_of t))
  lost : Unmarked words 4 → Arrives words none

find_start_lem :
    (words : ℕ → ℕ) (k junk left : ℕ)
    → junk < left
    → ((i : ℕ) → i < junk → words (k + i) / 65536 ≢ start_of_timestamp)
    → words (k + junk) / 65536 ≡ start_of_timestamp
    → find_start words k left ≡ some (words (k + junk), suc (k + junk))
unfolding find_start
find_start_lem words k junk zero h clear mark = absurd (omega arith)
find_start_lem words k zero (suc left) h clear mark =
    let e : k + 0 ≡ k = omega arith in
    let found : (words k / 65536 == start_of_timestamp) ≡ true =
      subst (λ j. (words j / 65536 == start_of_timestamp) ≡ true) e
        (rw mark (==_refl start_of_timestamp)) in
    rw (found, e) refl
find_start_lem words k (suc junk) (suc left) h clear mark =
    let e : suc k + junk ≡ k + suc junk = omega arith in
    let e0 : k + 0 ≡ k = omega arith in
    let other : (words k / 65536 == start_of_timestamp) ≡ false =
      subst (λ j. (words j / 65536 == start_of_timestamp) ≡ false) e0
        (==_ne _ start_of_timestamp (clear 0 (omega arith))) in
    let later =
      find_start_lem words (suc k) junk left (omega arith)
        (λ i hi.
          let e' : suc k + i ≡ k + suc i = omega arith in
          subst (λ j. words j / 65536 ≢ start_of_timestamp) (sym e') (clear (suc i) (omega arith)))
        (rw e mark) in
    rw other (rw e at later)

find_start-none :
    (words : ℕ → ℕ) (k left : ℕ)
    → ((i : ℕ) → i < left → words (k + i) / 65536 ≢ start_of_timestamp)
    → find_start words k left ≡ none
unfolding find_start
find_start-none words k zero clear = refl
find_start-none words k (suc left) clear =
    let e0 : k + 0 ≡ k = omega arith in
    let other : (words k / 65536 == start_of_timestamp) ≡ false =
      subst (λ j. (words j / 65536 == start_of_timestamp) ≡ false) e0
        (==_ne _ start_of_timestamp (clear 0 (omega arith))) in
    rw other (
      find_start-none words (suc k) left λ i hi.
        let e' : suc k + i ≡ k + suc i = omega arith in
        subst (λ j. words j / 65536 ≢ start_of_timestamp) (sym e') (clear (suc i) (omega arith)))

pair_eq : {a a' b b' : ℕ} → a ≡ a' → b ≡ b' → ◌≡◌ {A = TimeStamp} (a, b) (a', b')
pair_eq {a} {a'} {b} {b'} e f = ap (λ x. (x, b)) e ∙ ap (λ x. (a', x)) f

stamp_at-stamp_of :
    (words : ℕ → ℕ) (k : ℕ) (t : Entry)
    → StandsAt words k t
    → stamp_at words (some (words k, suc k)) ≡ some (stamp_of t)
unfolding read_entry hwtstamp_of
stamp_at-stamp_of words k t s =
    let mark = s.mark in
    let hf = s.hi_fits in
    let fourth = s.fourth in
    let idf = s.id_fits in
    let hi : words k % 65536 ≡ t.seconds_hi = omega arith in
    let id : words (suc k + 2) % 65536 ≡ t.sequence_id = omega arith in
    ap some (rw (hi, s.seconds, s.nanoseconds) (pair_eq id (omega arith)))

shifted :
    (words : ℕ → ℕ) {n : ℕ}
    → Unmarked words n
    → (i : ℕ) → i < n
    → words (0 + i) / 65536 ≢ start_of_timestamp
shifted words clear i h =
    let e : 0 + i ≡ i = omega arith in
    subst (λ j. words j / 65536 ≢ start_of_timestamp) (sym e) (clear i h)

finds :
    (words : ℕ → ℕ) {t : Option TimeStamp}
    → Arrives words t
    → stamp_at words (find_start words 0 4) ≡ t
finds words (arrived junk t few clear s) =
    let e : 0 + junk ≡ junk = omega arith in
    let mark = s.mark in
    let hf = s.hi_fits in
    let marked : words junk / 65536 ≡ start_of_timestamp = omega arith in
    let found = find_start_lem words 0 junk 4 few (shifted words clear) (rw e marked) in
    ap (stamp_at words) (rw e at found) ∙ stamp_at-stamp_of words junk t s
finds words (lost clear) = ap (stamp_at words) (find_start-none words 0 4 (shifted words clear))

-- Where the FPGA has put the four words of a time stamp into the FIFO, behind at most three words
-- without the mark of its start, the interrupt handler adds its sequence id and its time in
-- nanoseconds, in 64 bits, to the queue that the ring holds; where the first four words are without
-- the mark, it counts it as lost; either way a queue that was full loses its oldest entry, and the
-- work item is scheduled.
pub tx_ts_irq-Represents :
    {tx : TxTs} {q : Queues} (words : ℕ → ℕ) {t : Option TimeStamp}
    → Arrives words t
    → Represents tx q
    → Represents (tx_ts_irq tx words) (receive q t)
tx_ts_irq-Represents {tx} {q} words arrives r =
    subst (λ t. Represents (tx_ts_irq tx words) (receive q t)) (finds words arrives)
      (tx_ts_irq_lem words r)
