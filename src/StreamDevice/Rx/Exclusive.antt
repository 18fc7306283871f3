-- ===== src/StreamDevice/Rx/Exclusive.antt =====
-- Each track is written by at most one channel of one RX stream, and the bitmap shows which ones are.
use ravenna_fpga_drivers.Common.{
  mem, Distinct, ℕ, ◌≡◌, sym, ap, subst, fun_ext, Bool, true, false, Option, none, some, List,
  arith, inl, inr, update, Bool-cases, ◌==◌, ==_iff, update-eq-some, update-none-eq-some,
  update_self, if◌then◌else◌,
}
use ravenna_fpga_drivers.Kernel.{Bitmap}

-- The bitmap after a write of `b` at the elements of a list.
abbrev pub marked : Bool → Bitmap → List ℕ → Bitmap
marked b used ts p = if mem p ts then b else used p

-- The tracks `r` of the streams are used by one stream each, once, and are the ones marked.
pub record Exclusive (used : Bitmap) (r : ℕ → Option (List ℕ)) : Type 0 where
  pub held : (i t : ℕ) (ts : List ℕ) → r i ≡ some ts → mem t ts ≡ true → used t ≡ true
  pub traced :
      (t : ℕ) → used t ≡ true → (i : ℕ) × (ts : List ℕ) × (r i ≡ some ts) × (mem t ts ≡ true)
  pub apart :
      (i j t : ℕ) (ts us : List ℕ)
      → r i ≡ some ts
      → r j ≡ some us
      → mem t ts ≡ true
      → mem t us ≡ true
      → i ≡ j
  pub once : (i : ℕ) (ts : List ℕ) → r i ≡ some ts → Distinct ts

module _ (used : Bitmap) (r : ℕ → Option (List ℕ)) (i : ℕ) (x : Exclusive used r)
    (ts : List ℕ) where
  pub marked-Exclusive :
      r i ≡ none
      → Distinct ts
      → ((t : ℕ) → mem t ts ≡ true → used t ≡ false)
      → Exclusive (marked true used ts) (update r i (some ts))
  marked-Exclusive vacant distinct free = record {
    held = λ j t us h m. elim (update-eq-some r i ts j h) [
      | inl (at, same) ↦ ground (arith, subst (λ z. mem t z ≡ true) (sym same) m)
      | inr (ne, h') ↦ ground (arith, x.held j t us h' m)
    ];
    traced = λ t u. elim (Bool-cases (mem t ts)) [
      | inl m ↦ (i, ts, update_self r i (some ts), m)
      | inr m ↦ let old = x.traced t (ground arith) in (old.0, old.1, ground (arith, old.2), old.3)
    ];
    apart = λ j k t us vs hu hv mu mv. elim (update-eq-some r i ts j hu) [
      | inl (at, same) ↦ elim (update-eq-some r i ts k hv) [
        | inl (at', same') ↦ ground arith
        | inr (ne, h') ↦ absurd (
            ground (arith, x.held k t vs h' mv, free t (subst (λ z. mem t z ≡ true) (sym same) mu)))
      ]
      | inr (ne, h) ↦ elim (update-eq-some r i ts k hv) [
        | inl (at', same') ↦ absurd (
            ground (arith, x.held j t us h mu, free t (subst (λ z. mem t z ≡ true) (sym same') mv)))
        | inr (ne', h') ↦ x.apart j k t us vs h h' mu mv
      ]
    ];
    once = λ j us h. elim (update-eq-some r i ts j h) [
      | inl (at, same) ↦ subst Distinct same distinct
      | inr (ne, h') ↦ x.once j us h'
    ];
  }

  pub unmarked-Exclusive : r i ≡ some ts → Exclusive (marked false used ts) (update r i none)
  unmarked-Exclusive mine = record {
    held = λ j t us h m.
        let (ne, h') = update-none-eq-some r i j h in
        elim (Bool-cases (mem t ts)) [
          | inl m' ↦ absurd (ne (x.apart i j t ts us mine h' m' m))
          | inr m' ↦ ground (arith, x.held j t us h' m)
        ];
    traced = λ t u. elim (Bool-cases (mem t ts)) [
      | inl m ↦ absurd (ground arith)
      | inr m ↦
          let old = x.traced t (ground arith) in
          (old.0, old.1, other old.0 old.1 t old.2 old.3 m, old.3)
    ];
    apart = λ j k t us vs hu hv.
        x.apart j k t us vs (update-none-eq-some r i j hu).1 (update-none-eq-some r i k hv).1;
    once = λ j us h. x.once j us (update-none-eq-some r i j h).1;
  }
    where
      other :
          (j : ℕ) (us : List ℕ) (t : ℕ)
          → r j ≡ some us
          → mem t us ≡ true
          → mem t ts ≡ false
          → update r i none j ≡ some us
      other j us t h m m' = elim (Bool-cases (i == j)) [
        | inl e ↦ absurd (
            ground (
              arith,
              mine,
              h,
              ap r ((==_iff i j).0 e),
              subst (λ z. mem t z ≡ true) (some_same us j ((==_iff i j).0 e) h) m,
            ))
        | inr e ↦ ground arith
      ]
        where
          some_same : (us : List ℕ) (j : ℕ) → i ≡ j → r j ≡ some us → us ≡ ts
          some_same us j e h = ground (arith, mine, h, ap r e)

  -- Marking again what was unmarked gives the bitmap back.
  pub marked-unmarked : r i ≡ some ts → marked true (marked false used ts) ts ≡ used
  marked-unmarked mine =
      fun_ext
        λ p. elim (Bool-cases (mem p ts)) [ inl m ↦ rw (m, x.held i p ts mine m) | inr m ↦ rw m ]
