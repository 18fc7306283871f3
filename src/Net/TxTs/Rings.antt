-- ===== src/Net/TxTs/Rings.antt =====
-- The rings of ra_net_tx_ts as queues: what the slots from the read index to the write index hold.
use ravenna_fpga_drivers.Common.{
  ℕ, zero, suc, ◌+◌, ◌-◌, ◌%◌, ◌<◌, ◌≤◌, ◌≡◌, refl, ap, ◌∙◌, true, false, List, [], ◌∷◌, ◌++◌,
  arith, length, update, update_self, update_ne, ◌==◌,
}
use ravenna_fpga_drivers.Net.TxTs.{next_idx}

module _ {A : Type 0} where
  -- The `n` slots from `i` on, going round.
  abbrev pub window : (ℕ → A) → ℕ → ℕ → List A
  window f i zero = []
  window f i (suc n) = f i ∷ window f (next_idx i) n

  pub length-window : (f : ℕ → A) (i n : ℕ) → length (window f i n) ≡ n
  length-window f i zero = refl
  length-window f i (suc n) = ap suc (length-window f (next_idx i) n)

  pub window-add :
      (f : ℕ → A) (i m n j : ℕ)
      → i < 64
      → j ≡ (i + m) % 64
      → window f i (m + n) ≡ window f i m ++ window f j n
  window-add f i zero n j h e =
      let e' : j ≡ i = omega arith in let e'' : zero + n ≡ n = omega arith in rw (e', e'') refl
  window-add f i (suc m) n j h e =
      let e' : suc m + n ≡ suc (m + n) = omega arith in
      rw e' (ap (λ l. f i ∷ l) (window-add f (next_idx i) m n j (omega arith) (omega arith)))

  -- A write at a slot outside of a window leaves it as it is.
  pub window-update_ne :
      (f : ℕ → A) (v : A) (i n m j : ℕ)
      → i < 64
      → m < 64
      → n ≤ m
      → j ≡ (i + m) % 64
      → window (update f j v) i n ≡ window f i n
  window-update_ne f v i zero m j h hm le e = refl
  window-update_ne f v i (suc n) m j h hm le e = rw (update_ne f j v i (omega arith)) (
      ap (λ l. f i ∷ l)
        (window-update_ne f v (next_idx i) n (m - 1) j (omega arith) (omega arith) (omega arith)
          (omega arith)))

  -- The queue that the ring holds, the oldest entry first.
  pub record Holds (f : ℕ → A) (rd wr : ℕ) (xs : List A) : Type 0 where
    pub in_range : rd < 64
    pub fits : length xs < 64
    pub write_idx : wr ≡ (rd + length xs) % 64
    pub entries : window f rd (length xs) ≡ xs

  pub Holds-empty : (f : ℕ → A) → Holds f 0 0 []
  Holds-empty f = record {
    in_range = omega arith;
    fits = omega arith;
    write_idx = omega arith;
    entries = refl;
  }

  pub nil_iff : {f : ℕ → A} {rd wr : ℕ} → Holds f rd wr [] → (wr == rd) ≡ true
  nil_iff r = ground arith

  pub cons_iff :
      {f : ℕ → A} {rd wr : ℕ} {x : A} {xs : List A} → Holds f rd wr (x ∷ xs) → (wr == rd) ≡ false
  cons_iff r = ground arith

  pub full_iff :
      {f : ℕ → A} {rd wr : ℕ} {xs : List A}
      → Holds f rd wr xs
      → (next_idx wr == rd) ≡ (length xs == 63)
  full_iff r = ground arith

  pub Holds-head : {f : ℕ → A} {rd wr : ℕ} {x : A} {xs : List A} → Holds f rd wr (x ∷ xs) → f rd ≡ x
  Holds-head r = let e = r.entries in cc

  pub Holds-pop :
      {f : ℕ → A} {rd wr : ℕ} {x : A} {xs : List A}
      → Holds f rd wr (x ∷ xs)
      → Holds f (next_idx rd) wr xs
  Holds-pop r =
      let e = r.entries in
      record { in_range = omega arith; fits = omega arith; write_idx = omega arith; entries = cc }

  -- The slot that has been read may be written.
  pub Holds-clear :
      {f : ℕ → A} {rd wr : ℕ} {x : A} {xs : List A} (v : A)
      → Holds f rd wr (x ∷ xs)
      → Holds (update f rd v) (next_idx rd) wr xs
  Holds-clear {f} {rd} {wr} {x} {xs} v r =
      let p = Holds-pop r in
      record {
        in_range = omega arith;
        fits = omega arith;
        write_idx = omega arith;
        entries =
            window-update_ne f v (next_idx rd) (length xs) 63 rd (omega arith) (omega arith)
              (omega arith) (omega arith)
            ∙ p.entries;
      }

  pub length-snoc : (xs : List A) (v : A) → length (xs ++ v ∷ []) ≡ length xs + 1
  length-snoc [] v = omega arith
  length-snoc (x ∷ xs) v = omega (arith, length-snoc xs v)

  pub Holds-push :
      {f : ℕ → A} {rd wr : ℕ} {xs : List A} (v : A)
      → length xs < 63
      → Holds f rd wr xs
      → Holds (update f wr v) rd (next_idx wr) (xs ++ v ∷ [])
  Holds-push {f} {rd} {wr} {xs} v h r = record {
    in_range = r.in_range;
    fits = omega (arith, length-snoc xs v);
    write_idx = omega (arith, length-snoc xs v);
    entries = rw length-snoc (
        window-add (update f wr v) rd (length xs) 1 wr r.in_range r.write_idx
        ∙ rw
            (
              window-update_ne f v rd (length xs) (length xs) wr r.in_range r.fits (omega arith)
                  r.write_idx,
              r.entries,
              update_self f wr v,
            )
            refl);
  }
