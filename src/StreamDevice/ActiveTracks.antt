-- ===== src/StreamDevice/ActiveTracks.antt =====
-- modules/stream-device/track-table.h: `ra_for_each_active_track`, the loop over the channels of a
-- stream that are routed to a track. `none` is an access beyond the array of tracks.
pub mod Routed
use ravenna_fpga_drivers.Common.{
  ℕ, zero, suc, ◌-◌, Bool, true, false, Option, none, some, ◌>>=◌, List, ℤ, pos, negsuc, get_elem?,
  leb, if◌then◌else◌,
}

-- The loop of `ra_stream_find_used_track` from `i` on, with `left` rounds to go.
find_from : List ℤ → ℕ → ℕ → Option ℕ
find_from tracks i zero = some i
find_from tracks i (suc left) = do
  track ← get_elem? tracks i
  let rest = find_from tracks (suc i) left
  elim track [ pos _ ↦ some i | negsuc _ ↦ rest ]

pub find_used_track : ℕ → ℕ → List ℤ → Option ℕ
find_used_track start n tracks = find_from tracks start (n - start)

-- The track of a channel that the loop visits.
pub track_at : List ℤ → ℕ → Option ℕ
track_at tracks i = do track ← get_elem? tracks i; elim track [ pos t ↦ some t | negsuc _ ↦ none ]

-- `for (; i < n; i = find_used_track(i + 1))` with a body that takes the track of channel `i` and the
-- state, and returns the new state and whether it breaks.
pub loop_from : {S : Type 0} → (ℕ → S → Option (S × Bool)) → List ℤ → ℕ → ℕ → ℕ → S → Option S
loop_from body tracks n zero i s = none
loop_from body tracks n (suc fuel) i s = if leb n i then some s else do
  track ← track_at tracks i
  (s', stop) ← body track s
  elim stop [
    | true ↦ some s'
    | false ↦ do next ← find_used_track (suc i) n tracks; loop_from body tracks n fuel next s'
  ]

-- `suc n` rounds are enough, as the index grows in each.
pub for_each_active_track : {S : Type 0} → (ℕ → S → Option (S × Bool)) → List ℤ → ℕ → S → Option S
for_each_active_track body tracks n s = do
  first ← find_used_track 0 n tracks
  loop_from body tracks n (suc n) first s
