-- ===== src/StreamDevice/TrackTable/Ownership.antt =====
-- The allocated entries of a track table are exactly those of its streams.
use ravenna_fpga_drivers.Common.{
  ℕ, ◌+◌, ◌-◌, ◌≤◌, ◌<◌, ◌≡◌, ap, subst, true, false, Option, none, some, List, ℤ, arith, inl, inr,
  update, within, InRange, ltb, Bool-cases, ◌==◌, update-eq-some, update-none-eq-some, update_self,
}
use ravenna_fpga_drivers.Kernel.{Kernel, ok, err, Errno, enospc, IsClear, bitmap_set, bitmap_clear}
use ravenna_fpga_drivers.StreamDevice.TrackTable.{TrackTable, mute, alloc}
use ravenna_fpga_drivers.StreamDevice.TrackTable.Loops.{filled, entry_of}

-- The entries of one stream: where they begin, how many they are, and what they route.
pub record Range : Type 0 where
  pub base : ℕ
  pub len : ℕ
  pub tracks : List ℤ

abbrev pub Covers : Range → ℕ → Type 0
Covers x p = InRange x.base x.len p

-- The entries of the streams `r` lie in the table, do not overlap, and are the ones marked as used;
-- a channel's entry holds its track, and an entry that no stream has is muted.
pub record Owned (t : TrackTable) (r : ℕ → Option Range) : Type 0 where
  pub fits : (i : ℕ) (x : Range) → r i ≡ some x → x.base + x.len ≤ t.max_entries
  pub held : (i : ℕ) (x : Range) (p : ℕ) → r i ≡ some x → Covers x p → t.used_entries p ≡ true
  pub apart :
      (i j : ℕ) (x y : Range) (p : ℕ)
      → r i ≡ some x
      → r j ≡ some y
      → Covers x p
      → Covers y p
      → i ≡ j
  pub traced :
      (p : ℕ)
      → p < t.max_entries
      → t.used_entries p ≡ true
      → (i : ℕ) × (x : Range) × (r i ≡ some x) × Covers x p
  pub routed :
      (i : ℕ) (x : Range) (p : ℕ)
      → r i ≡ some x
      → Covers x p
      → t.regs p ≡ entry_of x.tracks (p - x.base)
  pub idle : (p : ℕ) → p < t.max_entries → t.used_entries p ≡ false → t.regs p ≡ mute

-- The table after `alloc` has found the entries of `x` and `set` has programmed them.
abbrev pub claimed : TrackTable → Range → TrackTable
claimed t x = record t {
  regs = filled t.regs x.base x.len (entry_of x.tracks);
  used_entries = bitmap_set t.used_entries x.base x.len;
}

-- The table after `free` of the entries of `x`.
abbrev pub released : TrackTable → Range → TrackTable
released t x = record t {
  regs = filled t.regs x.base x.len (λ _. mute);
  used_entries = bitmap_clear t.used_entries x.base x.len;
}

-- The table after `set` of other tracks for the entries of `x`.
abbrev pub rerouted : TrackTable → Range → List ℤ → TrackTable
rerouted t x tracks = record t { regs = filled t.regs x.base x.len (entry_of tracks) }

same-Covers :
    (r : ℕ → Option Range) (i j : ℕ) (x y : Range) (p : ℕ)
    → r i ≡ some x
    → r j ≡ some y
    → i ≡ j
    → Covers y p
    → Covers x p
same-Covers r i j x y p hx hy e c =
    subst (λ z. Covers z p) {x = y} {y = x} (ground (arith, ap r e)) c

still_there :
    (r : ℕ → Option Range) (i j : ℕ) (x y : Range) (p : ℕ)
    → r i ≡ some x
    → r j ≡ some y
    → within x.base x.len p ≡ false
    → Covers y p
    → update r i none j ≡ some y
still_there r i j x y p hx hy out c = elim (Bool-cases (i == j)) [
  | inl e ↦ absurd (ground (arith, same-Covers r i j x y p hx hy (ground arith) c))
  | inr e ↦ ground arith
]

module _ (t : TrackTable) (r : ℕ → Option Range) (i : ℕ) (owned : Owned t r) where
  pub claimed-Owned :
      (x : Range)
      → r i ≡ none
      → x.base + x.len ≤ t.max_entries
      → ((p : ℕ) → Covers x p → t.used_entries p ≡ false)
      → Owned (claimed t x) (update r i (some x))
  claimed-Owned x vacant room clear = record {
    fits = λ j y h. elim (update-eq-some r i x j h) [
      | inl e ↦ ground arith
      | inr (ne, h') ↦ owned.fits j y h'
    ];
    held = λ j y p h c. elim (update-eq-some r i x j h) [
      | inl e ↦ ground arith
      | inr (ne, h') ↦ ground (arith, owned.held j y p h' c)
    ];
    apart = λ j k y z p hy hz cy cz. elim (update-eq-some r i x j hy) [
      | inl e ↦ elim (update-eq-some r i x k hz) [
        | inl e' ↦ ground arith
        | inr (ne, h') ↦ ground (arith, owned.held k z p h' cz, clear p)
      ]
      | inr (ne, h) ↦ elim (update-eq-some r i x k hz) [
        | inl e' ↦ ground (arith, owned.held j y p h cy, clear p)
        | inr (ne', h') ↦ owned.apart j k y z p h h' cy cz
      ]
    ];
    traced = λ p lt u. elim (Bool-cases (within x.base x.len p)) [
      | inl e ↦ (i, x, update_self r i (some x), ground arith)
      | inr e ↦
          let old = owned.traced p lt (ground arith) in (old.0, old.1, ground (arith, old.2), old.3)
    ];
    routed = λ j y p h c. elim (update-eq-some r i x j h) [
      | inl e ↦
          subst
            (λ z.
              Covers z p
              → filled t.regs x.base x.len (entry_of x.tracks) p ≡ entry_of z.tracks (p - z.base))
            e.1 (λ c'. ground arith) c
      | inr (ne, h') ↦ ground (arith, owned.held j y p h' c, owned.routed j y p h' c, clear p)
    ];
    idle = λ p lt u. ground (arith, owned.idle p lt);
  }

  pub released-Owned : (x : Range) → r i ≡ some x → Owned (released t x) (update r i none)
  released-Owned x mine = record {
    fits = λ j y h. owned.fits j y (update-none-eq-some r i j h).1;
    held = λ j y p h c.
        let (ne, h') = update-none-eq-some r i j h in
        elim (Bool-cases (within x.base x.len p)) [
          | inl e ↦ absurd (ne (owned.apart i j x y p mine h' (ground arith) c))
          | inr e ↦ ground (arith, owned.held j y p h' c)
        ];
    apart = λ j k y z p hy hz.
        owned.apart j k y z p (update-none-eq-some r i j hy).1 (update-none-eq-some r i k hz).1;
    traced = λ p lt u. elim (Bool-cases (within x.base x.len p)) [
      | inl e ↦ absurd (ground arith)
      | inr e ↦
          let old = owned.traced p lt (ground arith) in
          (old.0, old.1, still_there r i old.0 x old.1 p mine old.2 e old.3, old.3)
    ];
    routed = λ j y p h c.
        let (ne, h') = update-none-eq-some r i j h in
        elim (Bool-cases (within x.base x.len p)) [
          | inl e ↦ absurd (ne (owned.apart i j x y p mine h' (ground arith) c))
          | inr e ↦ ground (arith, owned.routed j y p h' c)
        ];
    idle = λ p lt u. ground (arith, owned.idle p lt);
  }

  pub rerouted-Owned :
      (x : Range) (tracks : List ℤ)
      → r i ≡ some x
      → Owned (rerouted t x tracks) (update r i (some (record x { tracks = tracks })))
  rerouted-Owned x tracks mine = record {
    fits = λ j y h. elim (update-eq-some r i new j h) [
      | inl e ↦ ground (arith, owned.fits i x mine)
      | inr (ne, h') ↦ owned.fits j y h'
    ];
    held = λ j y p h c. elim (update-eq-some r i new j h) [
      | inl e ↦ owned.held i x p mine (ground arith)
      | inr (ne, h') ↦ owned.held j y p h' c
    ];
    apart = λ j k y z p hy hz cy cz. elim (update-eq-some r i new j hy) [
      | inl e ↦ elim (update-eq-some r i new k hz) [
        | inl e' ↦ ground arith
        | inr (ne, h') ↦ absurd (ne (owned.apart i k x z p mine h' (ground arith) cz))
      ]
      | inr (ne, h) ↦ elim (update-eq-some r i new k hz) [
        | inl e' ↦ absurd (ne (owned.apart i j x y p mine h (ground arith) cy))
        | inr (ne', h') ↦ owned.apart j k y z p h h' cy cz
      ]
    ];
    traced = λ p lt u.
        let old = owned.traced p lt u in
        elim (Bool-cases (i == old.0)) [
          | inl e ↦ (
            i,
            new,
            update_self r i (some new),
            same-Covers r i old.0 x old.1 p mine old.2 (ground arith) old.3,
          )
          | inr e ↦ (old.0, old.1, ground (arith, old.2), old.3)
        ];
    routed = λ j y p h c. elim (update-eq-some r i new j h) [
      | inl e ↦
          subst
            (λ z.
              Covers z p
              → filled t.regs x.base x.len (entry_of tracks) p ≡ entry_of z.tracks (p - z.base))
            e.1 (λ c'. ground arith) c
      | inr (ne, h') ↦ elim (Bool-cases (within x.base x.len p)) [
        | inl e ↦ absurd (ne (owned.apart i j x y p mine h' (ground arith) c))
        | inr e ↦ ground (arith, owned.routed j y p h' c)
      ]
    ];
    idle = λ p lt u. elim (Bool-cases (within x.base x.len p)) [
      | inl e ↦ absurd (ground (arith, owned.held i x p mine))
      | inr e ↦ ground (arith, owned.idle p lt u)
    ];
  }
    where
      new : Range
      new = record x { tracks = tracks }

-- `alloc` succeeds only on free entries inside the table, marks exactly those, and otherwise
-- changes nothing.
pub alloc_ok :
    (k : Kernel) (t : TrackTable) (n b : ℕ)
    → (alloc k t n).0 ≡ ok b
    → (b + n ≤ t.max_entries)
      × IsClear t.used_entries b n
      × ((alloc k t n).1 ≡ record t { used_entries = bitmap_set t.used_entries b n })
unfolding alloc
alloc_ok k t n b h = elim (Bool-cases (ltb start t.max_entries)) [
  | inl e ↦ (
    ground (arith, k.find_fits t.used_entries t.max_entries 0 n),
    λ q lt. ground (arith, clear (ground arith) q lt),
    ground arith,
  )
  | inr e ↦ absurd (ground arith)
]
  where
    start : ℕ
    start = k.bitmap_find_next_zero_area t.used_entries t.max_entries 0 n

    clear : start < t.max_entries → IsClear t.used_entries start n
    clear = k.find_clear t.used_entries t.max_entries 0 n

pub alloc_err :
    (k : Kernel) (t : TrackTable) (n : ℕ) (e : Errno)
    → (alloc k t n).0 ≡ err e
    → (e ≡ enospc) × ((alloc k t n).1 ≡ t)
unfolding alloc
alloc_err k t n e h = (ground arith, ground arith)

-- `alloc` finds room wherever there is some.
pub alloc_finds :
    (k : Kernel) (t : TrackTable) (n i : ℕ)
    → 0 < n
    → i + n ≤ t.max_entries
    → IsClear t.used_entries i n
    → (b : ℕ) × ((alloc k t n).0 ≡ ok b)
unfolding alloc
alloc_finds k t n i pos room clear = (
  k.bitmap_find_next_zero_area t.used_entries t.max_entries 0 n,
  ground (arith, k.find_finds t.used_entries t.max_entries 0 n i),
)
