-- ===== src/Net/TxTs/Packets.antt =====
-- The ring of packets, whose unused slots hold null pointers.
use ravenna_fpga_drivers.Common.{
  ℕ, zero, suc, ◌+◌, ◌-◌, ◌%◌, ◌<◌, ◌≡◌, refl, sym, ap, ◌∙◌, Option, none, some, List, [], ◌∷◌,
  ◌++◌, map, arith, length, replicate, update, update_self, subst, ◌==◌,
}
use ravenna_fpga_drivers.Net.TxTs.{next_idx, Skb}
use ravenna_fpga_drivers.Net.TxTs.Rings.{
  window, length-snoc, window-add, window-update_ne, Holds, Holds-push, Holds-clear, Holds-head,
  full_iff,
}

pub length-map {ℓ κ} :
    {A : Type ℓ} {B : Type κ} (f : A → B) (xs : List A) → length (map f xs) ≡ length xs
length-map f [] = refl
length-map f (x ∷ xs) = ap suc (length-map f xs)

replicate-snoc : {A : Type 0} (n : ℕ) (a : A) → replicate n a ++ a ∷ [] ≡ replicate (suc n) a
replicate-snoc zero a = refl
replicate-snoc (suc n) a = ap (λ l. a ∷ l) (replicate-snoc n a)

-- The ring of packets, with null pointers wherever it holds none.
pub record HoldsPackets (f : ℕ → Option Skb) (rd wr : ℕ) (ks : List Skb) : Type 0 where
  pub ring : Holds f rd wr (map some ks)
  pub fits : length ks < 64
  pub unused : ℕ
  pub rest : length ks + unused ≡ 64
  pub null : window f wr unused ≡ replicate unused none

-- The slot behind the unused ones is the one that is read next.
wraps :
    {f : ℕ → Option Skb} {rd wr : ℕ} {k : Skb} {ks : List Skb} (p : HoldsPackets f rd wr (k ∷ ks))
    → (rd ≡ (wr + p.unused) % 64) × (wr < 64) × (p.unused < 64)
wraps {f} {rd} {wr} {k} {ks} p =
    let r = p.ring in
    let h = p.rest in
    (omega (arith, length-map some (k ∷ ks)), omega (arith, length-map some (k ∷ ks)), omega arith)

pub clear_packet :
    {f : ℕ → Option Skb} {rd wr : ℕ} {k : Skb} {ks : List Skb}
    → HoldsPackets f rd wr (k ∷ ks)
    → HoldsPackets (update f rd none) (next_idx rd) wr ks
clear_packet {f} {rd} {wr} {k} {ks} p =
    let (behind, wr_in, small) = wraps p in
    record {
      ring = Holds-clear none p.ring;
      fits = let h = p.fits in omega arith;
      unused = suc p.unused;
      rest = let h = p.rest in omega arith;
      null =
          let e : suc p.unused ≡ p.unused + 1 = omega arith in
          subst (λ n. window (update f rd none) wr n ≡ replicate (suc p.unused) none) (sym e)
            (window-add (update f rd none) wr p.unused 1 rd wr_in behind
              ∙ rw
                  (
                    window-update_ne f none wr p.unused p.unused rd wr_in small (omega arith)
                        behind,
                    p.null,
                    update_self f rd none,
                  )
                  (replicate-snoc p.unused none));
    }

map-snoc :
    {A B : Type 0} (f : A → B) (xs : List A) (x : A) → map f (xs ++ x ∷ []) ≡ map f xs ++ f x ∷ []
map-snoc f [] x = refl
map-snoc f (y ∷ ys) x = ap (λ l. f y ∷ l) (map-snoc f ys x)

-- The slot that is written is the first of the unused ones.
null_after :
    (f : ℕ → Option Skb) (wr n : ℕ) (v : Option Skb)
    → wr < 64
    → n < 64
    → window f wr (suc n) ≡ replicate (suc n) none
    → window (update f wr v) (next_idx wr) n ≡ replicate n none
null_after f wr n v h hn e =
    window-update_ne f v (next_idx wr) n 63 wr (omega arith) (omega arith) (omega arith)
      (omega arith)
    ∙ cc

pub add_packet :
    {f : ℕ → Option Skb} {rd wr : ℕ} {ks : List Skb} (k : Skb)
    → length ks < 63
    → HoldsPackets f rd wr ks
    → HoldsPackets (update f wr (some k)) rd (next_idx wr) (ks ++ k ∷ [])
add_packet {f} {rd} {wr} {ks} k h p = record {
  ring = rw (map-snoc some ks k) (Holds-push (some k) (omega (arith, length-map some ks)) p.ring);
  fits = omega (arith, length-snoc ks k);
  unused = p.unused - 1;
  rest = let r = p.rest in omega (arith, length-snoc ks k);
  null =
      let r = p.rest in
      let w = p.ring in
      let e : p.unused ≡ suc (p.unused - 1) = omega arith in
      null_after f wr (p.unused - 1) (some k) (omega arith) (omega arith)
        (subst (λ n. window f wr n ≡ replicate n none) e p.null);
}

pub packets-full :
    {f : ℕ → Option Skb} {rd wr : ℕ} {ks : List Skb}
    → HoldsPackets f rd wr ks
    → (next_idx wr == rd) ≡ (length ks == 63)
packets-full {f} {rd} {wr} {ks} p = full_iff p.ring ∙ ap (λ n. n == 63) (length-map some ks)

pub packets-head :
    {f : ℕ → Option Skb} {rd wr : ℕ} {k : Skb} {ks : List Skb}
    → HoldsPackets f rd wr (k ∷ ks)
    → f rd ≡ some k
packets-head p = Holds-head p.ring
