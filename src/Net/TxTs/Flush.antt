-- ===== src/Net/TxTs/Flush.antt =====
-- ra_net_flush_tx_ts, and the state of a new device.
use mathlib.Core.List.{Perm, perm_append_comm, append-nil}
use ravenna_fpga_drivers.Common.{
  ℕ, zero, suc, ◌+◌, ◌-◌, ◌%◌, ◌<◌, ◌≤◌, ◌≡◌, refl, ap, ◌∙◌, Option, none, some, List, [], ◌∷◌,
  ◌++◌, Bool, true, false, Bool-cases, inl, inr, map, arith, length, replicate, subst,
}
use ravenna_fpga_drivers.Net.TxTs.{
  TxTs, Skb, kfree, kfree_skb, flush_slots, clear_lists, empty_fifo,
}
use ravenna_fpga_drivers.Net.TxTs.Spec.{Queues, time_stamp, flushed}
use ravenna_fpga_drivers.Net.TxTs.Rings.{window, window-add, Holds-empty}
use ravenna_fpga_drivers.Net.TxTs.Packets.{HoldsPackets, length-map}
use ravenna_fpga_drivers.Net.TxTs.Refine.{Represents}

some_only : List (Option Skb) → List Skb
some_only [] = []
some_only (none ∷ xs) = some_only xs
some_only (some k ∷ xs) = k ∷ some_only xs

some_only-append : (xs ys : List (Option Skb)) → some_only (xs ++ ys) ≡ some_only xs ++ some_only ys
unfolding some_only
some_only-append [] ys = refl
some_only-append (none ∷ xs) ys = some_only-append xs ys
some_only-append (some k ∷ xs) ys = ap (λ l. k ∷ l) (some_only-append xs ys)

some_only-some : (ks : List Skb) → some_only (map some ks) ≡ ks
unfolding some_only
some_only-some [] = refl
some_only-some (k ∷ ks) = ap (λ l. k ∷ l) (some_only-some ks)

some_only-null : (n : ℕ) → some_only (replicate n none) ≡ []
unfolding some_only
some_only-null zero = refl
some_only-null (suc n) = some_only-null n

kfree-then :
    (x : Option Skb) (xs : List (Option Skb))
    → kfree x ++ map kfree_skb (some_only xs) ≡ map kfree_skb (some_only (x ∷ xs))
unfolding some_only
kfree-then none xs = refl
kfree-then (some k) xs = refl

-- The loop from slot `i` to slot 63 does not go round.
flush_slots-window :
    (f : ℕ → Option Skb) (i n : ℕ)
    → i + n ≤ 64
    → flush_slots f i n ≡ map kfree_skb (some_only (window f (i % 64) n))
unfolding flush_slots
flush_slots-window f i zero h = unfold some_only in refl
flush_slots-window f i (suc n) h =
    let e : i % 64 ≡ i = omega arith in
    let e' : suc i % 64 ≡ (i + 1) % 64 = omega arith in
    rw e (
      ap (λ l. kfree (f i) ++ l)
        (flush_slots-window f (suc i) n (omega arith)
          ∙ ap (λ j. map kfree_skb (some_only (window f j n))) e')
      ∙ kfree-then (f i) (window f ((i + 1) % 64) n))

-- A round from slot 0 frees what a round from the read index does.
rounds-perm :
    (f : ℕ → Option Skb) (rd m : ℕ)
    → rd < 64
    → rd + m ≡ 64
    → Perm (some_only (window f 0 (rd + m))) (some_only (window f rd (m + rd)))
rounds-perm f rd m h e =
    rw
      (
        window-add f 0 rd m rd (omega arith) (omega arith),
        window-add f rd m rd 0 h (omega arith),
        some_only-append (window f 0 rd) (window f rd m),
        some_only-append (window f rd m) (window f 0 rd),
      )
      (perm_append_comm (some_only (window f 0 rd)) (some_only (window f rd m)))

-- A round from the read index frees the packets in the ring.
round-packets :
    (f : ℕ → Option Skb) (rd wr : ℕ) (ks : List Skb) (p : HoldsPackets f rd wr ks)
    → some_only (window f rd (length ks + p.unused)) ≡ ks
round-packets f rd wr ks p =
    let r = p.ring in
    let entries : window f rd (length ks) ≡ map some ks =
      subst (λ n. window f rd n ≡ map some ks) (length-map some ks) r.entries in
    rw
      (
        window-add f rd (length ks) p.unused wr r.in_range
            (r.write_idx ∙ ap (λ n. (rd + n) % 64) (length-map some ks)),
        some_only-append,
        entries,
        p.null,
        some_only-some,
        some_only-null,
      )
      (append-nil ks)

abbrev pub nulls : ℕ → Option Skb
nulls i = none

all_null : (i n : ℕ) → window nulls i n ≡ replicate n none
all_null i zero = refl
all_null i (suc n) = ap (λ l. none ∷ l) (all_null ((i + 1) % 64) n)

pub no_packets : HoldsPackets nulls 0 0 []
no_packets = record {
  ring = Holds-empty nulls;
  fits = omega arith;
  unused = 64;
  rest = omega arith;
  null = all_null 0 64;
}

-- The flush empties both queues and the count of lost time stamps, and frees each packet that was
-- waiting once, in some order.
pub clear_lists-Represents :
    {tx : TxTs} {q : Queues}
    → Represents tx q
    → let (tx', effects) = clear_lists tx in
      Represents tx' (flushed q)
      × (freed : List Skb) × (effects ≡ map kfree_skb freed)
      × Perm freed q.packets
unfolding clear_lists
clear_lists-Represents {tx} {q} r =
    let p = r.packets in
    let ring = p.ring in
    let rd = tx.skb_rd_idx in
    let all : Perm (some_only (window tx.skb_ptr 0 (rd + (64 - rd))))
        (some_only (window tx.skb_ptr rd ((64 - rd) + rd))) =
      rounds-perm tx.skb_ptr rd (64 - rd) ring.in_range (omega arith) in
    let e : rd + (64 - rd) ≡ 64 = omega arith in
    let rest = p.rest in
    let e' : (64 - rd) + rd ≡ length q.packets + p.unused = omega arith in
    (
      record {
        enable = r.enable;
        lost = refl;
        work = refl;
        packets = no_packets;
        stamps = Holds-empty (λ i. time_stamp (tx.fpga_ts i));
      },
      some_only (window tx.skb_ptr 0 64),
      flush_slots-window tx.skb_ptr 0 64 (omega arith),
      subst (λ l. Perm l q.packets) (ap (λ n. some_only (window tx.skb_ptr 0 n)) e)
          (subst (λ l. Perm (some_only (window tx.skb_ptr 0 (rd + (64 - rd)))) l)
            (ap (λ n. some_only (window tx.skb_ptr rd n)) e'
              ∙ round-packets tx.skb_ptr rd tx.skb_wr_idx q.packets p)
            all),
    )

-- The FPGA has no time stamp left after fewer rounds than there are.
abbrev pub RunsDry : (ℕ → Bool) → ℕ → ℕ → Type 0
RunsDry available n fuel = (m : ℕ) × (m < fuel) × (available (n + m) ≡ false)

-- Then the loop that empties its FIFO ends.
pub empty_fifo-RunsDry :
    (available : ℕ → Bool) (n fuel : ℕ)
    → RunsDry available n fuel
    → (read : ℕ) × (empty_fifo available n fuel ≡ some read)
unfolding empty_fifo
empty_fifo-RunsDry available n zero (m, less, dry) = absurd (omega arith)
empty_fifo-RunsDry available n (suc fuel) (m, less, dry) = elim (Bool-cases (available n)) [
  | inr e ↦ (n, rw e refl)
  | inl e ↦
      let (read, done) = empty_fifo-RunsDry available (suc n) fuel (later m less dry e) in
      (read, rw e done)
]
  where
    later :
        (m : ℕ)
        → m < suc fuel
        → available (n + m) ≡ false
        → available n ≡ true
        → RunsDry available (suc n) fuel
    later zero less dry e =
        let z : n + 0 ≡ n = omega arith in
        let dry' : available n ≡ false = rw z at dry in absurd (ground (arith, e, dry'))
    later (suc m) less dry e =
        let s : n + suc m ≡ suc n + m = omega arith in (m, omega arith, rw s at dry)
