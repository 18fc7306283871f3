-- ===== src/StreamDevice/TrackTable.antt =====
-- modules/stream-device/track-table.h and track-table.c: the FPGA's table that routes the channels
-- of streams to tracks, with the bitmap of its allocated entries. `none` is a BUG() or an access
-- beyond the end of `tracks`.
pub mod Loops
pub mod Ownership
pub mod Operations
use ravenna_fpga_drivers.Common.{
  ℕ, zero, suc, ◌+◌, Bool, true, false, Option, none, some, List, ℤ, pos, negsuc, ◌>>=◌, ltb, leb_ℤ,
  get_elem?, update, if◌then◌else◌,
}
use ravenna_fpga_drivers.Kernel.{Kernel, Result, ok, err, enospc, Bitmap, bitmap_set, bitmap_clear}

-- `BIT(31)`
abbrev pub mute : ℕ
mute = 0x80000000

pub record TrackTable : Type 0 where
  pub regs : ℕ → ℕ
  pub used_entries : Bitmap
  pub max_entries : ℕ

pub write : TrackTable → ℕ → ℕ → Option TrackTable
write t index val =
    if ltb index t.max_entries then some (record t { regs = update t.regs index val }) else none

unfoldable pub alloc : Kernel → TrackTable → ℕ → Result ℕ × TrackTable
alloc k t n =
    let start = k.bitmap_find_next_zero_area t.used_entries t.max_entries 0 n in
    if ltb start t.max_entries
    then (ok start, record t { used_entries = bitmap_set t.used_entries start n })
    else (err enospc, t)

-- `tracks[i] >= 0 ? tracks[i] : RA_TRACK_TABLE_MUTE`, as a `u32`.
abbrev pub track_entry : ℤ → ℕ
track_entry (pos n) = n
track_entry (negsuc n) = mute

-- The loop of `set` from `i` on, with `left` rounds to go.
set_from : TrackTable → ℕ → ℕ → ℕ → List ℤ → Option TrackTable
set_from t index i zero tracks = some t
set_from t index i (suc left) tracks = do
  track ← get_elem? tracks i
  t' ← write t (index + i) (track_entry track)
  set_from t' index (suc i) left tracks

pub set : TrackTable → ℕ → ℕ → List ℤ → Option TrackTable
set t index n tracks = set_from t index 0 n tracks

-- The loop of `free` and `reset` from `i` on, with `left` rounds to go.
mute_from : TrackTable → ℕ → ℕ → ℕ → Option TrackTable
mute_from t index i zero = some t
mute_from t index i (suc left) = do t' ← write t (index + i) mute; mute_from t' index (suc i) left

pub free : TrackTable → ℕ → ℕ → Option TrackTable
free t index n = do
  t' ← mute_from t index 0 n
  some (record t' { used_entries = bitmap_clear t'.used_entries index n })

pub reset : TrackTable → Option TrackTable
reset t = do
  t' ← mute_from t 0 0 t.max_entries
  some (record t' { used_entries = bitmap_clear t'.used_entries 0 t'.max_entries })
