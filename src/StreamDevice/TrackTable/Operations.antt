-- ===== src/StreamDevice/TrackTable/Operations.antt =====
-- The operations of track-table.c on a table that keeps its streams apart: they reach no fault, and
-- an allocation that was given back can be had again.
use ravenna_fpga_drivers.Common.{
  ℕ, ◌+◌, ◌-◌, ◌≤◌, ◌<◌, ◌≡◌, refl, fun_ext, false, Option, none, some, List, ℤ, arith, length,
  update, subst,
}
use ravenna_fpga_drivers.Kernel.{Kernel, ok, bitmap_set, bitmap_clear}
use ravenna_fpga_drivers.StreamDevice.TrackTable.{TrackTable, mute, alloc, set, free, reset}
use ravenna_fpga_drivers.StreamDevice.TrackTable.Loops.{set_lem, free_lem, reset_lem, filled}
use ravenna_fpga_drivers.StreamDevice.TrackTable.Ownership.{
  Range, Owned, claimed, released, rerouted, claimed-Owned, alloc_ok, alloc_finds,
}

abbrev pub range : ℕ → ℕ → List ℤ → Range
range b n tracks = record { base = b; len = n; tracks = tracks }

-- `alloc` and then `set` program the entries that `alloc` found.
pub set-alloc :
    (k : Kernel) (t : TrackTable) (n b : ℕ) (tracks : List ℤ)
    → (alloc k t n).0 ≡ ok b
    → n ≤ length tracks
    → set (alloc k t n).1 b n tracks ≡ some (claimed t (range b n tracks))
set-alloc k t n b tracks got long =
    let (room, _, e) = alloc_ok k t n b got in
    rw e (set_lem (record t { used_entries = bitmap_set t.used_entries b n }) b n tracks room long)

pub alloc-Owned :
    (k : Kernel) (t : TrackTable) (r : ℕ → Option Range) (i n b : ℕ) (tracks : List ℤ)
    → Owned t r
    → r i ≡ none
    → (alloc k t n).0 ≡ ok b
    → Owned (claimed t (range b n tracks)) (update r i (some (range b n tracks)))
alloc-Owned k t r i n b tracks owned vacant got =
    let (room, clear, _) = alloc_ok k t n b got in
    claimed-Owned t r i owned (range b n tracks) vacant room (λ p c.
      subst (λ q. t.used_entries q ≡ false) {x = b + (p - b)} (omega arith)
        (clear (p - b) (omega arith)))

module _ (t : TrackTable) (r : ℕ → Option Range) (owned : Owned t r) (i : ℕ) (x : Range)
    (mine : r i ≡ some x) where
  pub free-released : free t x.base x.len ≡ some (released t x)
  free-released = free_lem t x.base x.len (owned.fits i x mine)

  pub set-rerouted :
      (tracks : List ℤ)
      → x.len ≤ length tracks
      → set t x.base x.len tracks ≡ some (rerouted t x tracks)
  set-rerouted tracks long = set_lem t x.base x.len tracks (owned.fits i x mine) long

  -- The entries that a stream has just given back can be allocated again.
  pub alloc-released :
      (k : Kernel) → 0 < x.len → (b : ℕ) × ((alloc k (released t x) x.len).0 ≡ ok b)
  alloc-released k pos =
      alloc_finds k (released t x) x.len x.base pos (owned.fits i x mine) (λ q lt. ground arith)

-- A range of no entries gives nothing back.
pub released-empty : (t : TrackTable) (x : Range) → x.len ≡ 0 → released t x ≡ t
released-empty t x h i = record {
  regs = regs i;
  used_entries = used i;
  max_entries = t.max_entries;
}
  where
    regs : filled t.regs x.base x.len (λ _. mute) ≡ t.regs
    regs = fun_ext λ p. ground arith

    used : bitmap_clear t.used_entries x.base x.len ≡ t.used_entries
    used = fun_ext λ p. ground arith

-- The reset of a track table succeeds whatever the table held, keeps its size, and leaves every entry
-- muted and unused, as a table without streams.
pub reset-Owned :
    (t : TrackTable)
    → (t' : TrackTable) × (reset t ≡ some t')
      × (t'.max_entries ≡ t.max_entries)
      × Owned t' (λ _. none)
reset-Owned t = (
  record t {
    regs = filled t.regs 0 t.max_entries (λ _. mute);
    used_entries = bitmap_clear t.used_entries 0 t.max_entries;
  },
  reset_lem t,
  refl,
  record {
    fits = λ i x h. cc;
    held = λ i x p h c. cc;
    apart = λ i j x y p h. cc;
    traced = λ p lt u. absurd (ground arith);
    routed = λ i x p h. cc;
    idle = λ p lt u. ground arith;
  },
)
