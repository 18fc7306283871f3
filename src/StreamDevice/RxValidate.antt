-- ===== src/StreamDevice/RxValidate.antt =====
-- modules/stream-device/rx.c: the checks on an RX stream that user space asks for, with the loop over its
-- tracks. `none` is an access beyond the array.
pub mod Verdict
use ravenna_fpga_drivers.Common.{
  ℕ, zero, suc, Bool, true, false, Option, none, some, ◌>>=◌, List, ℤ, leb_ℤ, to_s16, get_elem?,
  if◌then◌else◌,
}
use ravenna_fpga_drivers.Kernel.{Kernel, Result, ok, err, einval}
use ravenna_fpga_drivers.Uapi.{RxStream}
use ravenna_fpga_drivers.StreamDevice.RxFields.{validate_fields}

-- The loop over the tracks from `i` on, with `left` rounds to go: whether none is at or above `limit`.
pub tracks_below_from : ℤ → List ℤ → ℕ → ℕ → Option Bool
tracks_below_from limit tracks i zero = some true
tracks_below_from limit tracks i (suc left) = do
  track ← get_elem? tracks i
  let rest = tracks_below_from limit tracks (suc i) left
  if leb_ℤ limit track then some false else rest

pub validate_stream : Kernel → ℕ → RxStream → Option (Result ℕ)
validate_stream k max_tracks s = elim (validate_fields k s) [
  | err e ↦ some (err e)
  | ok _ ↦ do
    below ← tracks_below_from (to_s16 max_tracks) s.tracks 0 s.num_channels
    some (if below then ok 0 else err einval)
]
