-- ===== src/StreamDevice/Rx.antt =====
-- modules/stream-device/rx.h and rx.c: the ioctls that add, update and delete RX streams, as functions
-- on the state that the mutex `rx->mutex` protects. `none` is a BUG(), or an access beyond an array or
-- a bitmap. A command is `none` where `copy_from_user` fails, and `memory` says whether `kzalloc`,
-- `scratch` whether `bitmap_zalloc` succeeds.
pub mod Exclusive
pub mod Tracks
pub mod Invariant
pub mod Program
pub mod View
pub mod Add
pub mod Update
pub mod Delete
pub mod Isolation
use ravenna_fpga_drivers.Common.{
  ℕ, zero, suc, ◌+◌, ◌-◌, ◌%◌, ◌^◌, Bool, true, false, not, Option, none, some, ◌>>=◌, ltb, ◌==◌,
  update, if◌then◌else◌,
}
use ravenna_fpga_drivers.Kernel.{
  Kernel, Result, ok, err, Errno, einval, efault, enomem, enoent, eacces, ebusy, Bitmap,
}
use ravenna_fpga_drivers.Uapi.{
  RxStream, AddRxStreamCmd, UpdateRxStreamCmd, DeleteRxStreamCmd, sizeof_add_rx_stream_cmd,
  sizeof_update_rx_stream_cmd, sizeof_delete_rx_stream_cmd,
}
use ravenna_fpga_drivers.StreamDevice.TrackTable
use ravenna_fpga_drivers.StreamDevice.TrackTable.{TrackTable}
use ravenna_fpga_drivers.StreamDevice.ActiveTracks.{for_each_active_track}
use ravenna_fpga_drivers.StreamDevice.StreamTable.{StreamTable}
use ravenna_fpga_drivers.StreamDevice.StreamTableRx
use ravenna_fpga_drivers.StreamDevice.StreamTableRx.{RxEntry}
use ravenna_fpga_drivers.StreamDevice.RxValidate.{validate_stream}

-- `struct ra_sd_rx_stream_elem`; files and processes are numbers.
pub record RxElem : Type 0 where
  pub stream : RxStream
  pub filp : ℕ
  pub pid : ℕ
  pub trtb_index : ℕ

-- `struct ra_sd_rx` with the size of its bitmap `used_tracks`, the field `max_tracks` of the device.
pub record Rx : Type 0 where
  pub sttb : StreamTable RxEntry
  pub trtb : TrackTable
  pub streams : ℕ → Option RxElem
  pub used_tracks : Bitmap
  pub max_tracks : ℕ

abbrev pub Outcome : Type 0
Outcome = Option (Result ℕ × Rx)

-- An error that leaves the state as it is.
abbrev pub fail : Errno → Rx → Outcome
fail e rx = some (err e, rx)

abbrev pub is_err : Result ℕ → Bool
is_err (ok _) = false
is_err (err _) = true

-- The body of the loop of `tracks_available` at one track: the temporary bitmap and `ret`.
unfoldable pub check_track :
    ℕ → Bitmap → ℕ → Bitmap × Result ℕ → Option ((Bitmap × Result ℕ) × Bool)
check_track max_tracks used track (seen, ret) =
    let once = if seen track then err einval else ret in
    let ret' = if used track then err ebusy else once in
    if ltb track max_tracks then some ((update seen track true, ret'), is_err ret') else none

pub tracks_available : Rx → RxStream → Bool → Option (Result ℕ)
tracks_available rx s scratch = if not scratch then some (err enomem) else do
  (seen, ret) ←
      for_each_active_track (check_track rx.max_tracks rx.used_tracks) s.tracks s.num_channels
        (λ _. false, ok 0)
  some ret

-- `set_bit` or `clear_bit` on `used_tracks`.
unfoldable pub write_bit : ℕ → Bool → ℕ → Bitmap → Option (Bitmap × Bool)
write_bit max_tracks b track used =
    if ltb track max_tracks then some (update used track b, false) else none

pub mark : Bool → Rx → RxStream → Option Rx
mark b rx s = do
  used ← for_each_active_track (write_bit rx.max_tracks b) s.tracks s.num_channels rx.used_tracks
  some (record rx { used_tracks = used })

abbrev pub tracks_mark_used : Rx → RxStream → Option Rx
tracks_mark_used rx s = mark true rx s

abbrev pub tracks_mark_unused : Rx → RxStream → Option Rx
tracks_mark_unused rx s = mark false rx s

-- `XA_LIMIT(0, max_entries - 1)`, as a `u32`.
abbrev pub xa_limit : ℕ → ℕ
xa_limit max_entries = (max_entries + 2 ^ 32 - 1) % 2 ^ 32

abbrev pub taken : (ℕ → Option RxElem) → ℕ → Bool
taken streams i = elim (streams i) [ none ↦ false | some e ↦ true ]

-- The track table and the stream table take the values of `e`, which is stored at `index`.
program : Kernel → Rx → RxElem → ℕ → Option Rx
program k rx e index = do
  trtb' ← TrackTable.set rx.trtb e.trtb_index e.stream.num_channels e.stream.tracks
  sttb' ← StreamTableRx.set k rx.sttb e.stream index e.trtb_index
  some (record rx { sttb = sttb'; trtb = trtb'; streams = update rx.streams index (some e) })

-- `add` after `xa_alloc` has stored `e` at `index`, and the track table has `got` a range.
place : Kernel → Rx → RxElem → ℕ → Result ℕ → TrackTable → Outcome
place k rx e index (err error) trtb =
    fail error (record rx { trtb = trtb; streams = update rx.streams index none })
place k rx e index (ok base) trtb = do
  marked ← tracks_mark_used (record rx { trtb = trtb }) e.stream
  rx' ← program k marked (record e { trtb_index = base }) index
  some (ok index, rx')

add_at : Kernel → Rx → RxElem → Result ℕ → Outcome
add_at k rx e (err error) = fail error rx
add_at k rx e (ok index) =
    let (got, trtb) = TrackTable.alloc k rx.trtb e.stream.num_channels in
    place k (record rx { streams = update rx.streams index (some e) }) e index got trtb

add_locked : Kernel → Rx → RxElem → Bool → Outcome
add_locked k rx e scratch = do
  available ← tracks_available rx e.stream scratch
  elim available [
    | err error ↦ fail error rx
    | ok _ ↦ add_at k rx e (k.xa_alloc (taken rx.streams) (xa_limit rx.sttb.max_entries))
  ]

-- `add` on a command that was copied, of the right size.
add_checked : Kernel → Rx → ℕ → ℕ → AddRxStreamCmd → Bool → Bool → Outcome
add_checked k rx filp pid cmd memory scratch = if not (cmd.version == 0) then fail einval rx else do
  checked ← validate_stream k rx.max_tracks cmd.stream
  elim checked [
    | err e ↦ fail e rx
    | ok _ ↦
        if memory
        then add_locked k rx
            (record { stream = cmd.stream; filp = filp; pid = pid; trtb_index = 0 }) scratch
        else fail enomem rx
  ]

pub add_stream_ioctl : Kernel → Rx → ℕ → ℕ → ℕ → Option AddRxStreamCmd → Bool → Bool → Outcome
add_stream_ioctl k rx filp pid size user memory scratch =
    if not (size == sizeof_add_rx_stream_cmd) then fail einval rx else elim user [
      | none ↦ fail efault rx
      | some cmd ↦ add_checked k rx filp pid cmd memory scratch
    ]

-- `out_rollback` of `update`, on an error: the tracks of the stored stream are marked again.
give_up : Rx → RxElem → Errno → Outcome
give_up rx e error = do rx' ← tracks_mark_used rx e.stream; some (err error, rx')

-- The end of `update`: the stream takes its new values, and the bitmap and the tables follow.
finish : Kernel → Rx → RxElem → ℕ → RxStream → ℕ → Outcome
finish k rx e index s ret = do
  marked ← tracks_mark_used rx s
  rx' ← program k marked (record e { stream = s }) index
  some (ok ret, rx')

-- The old stream is programmed again, and `error` returned; a second failure only warns.
roll_back : Kernel → Rx → RxElem → ℕ → Errno → Result ℕ → TrackTable → Outcome
roll_back k rx e index error (err again) trtb = give_up (record rx { trtb = trtb }) e again
roll_back k rx e index error (ok base) trtb = do
  rx' ← program k (record rx { trtb = trtb }) (record e { trtb_index = base }) index
  give_up rx' e error

-- `update` after the old range was freed and a new one asked for.
resized : Kernel → Rx → RxElem → ℕ → RxStream → Result ℕ → TrackTable → Outcome
resized k rx e index s (ok base) trtb =
    finish k (record rx { trtb = trtb }) (record e { trtb_index = base }) index s base
resized k rx e index s (err error) trtb =
    let (got, trtb') = TrackTable.alloc k trtb e.stream.num_channels in
    roll_back k rx e index error got trtb'

resize : Kernel → Rx → RxElem → ℕ → RxStream → Outcome
resize k rx e index s = do
  freed ← TrackTable.free rx.trtb e.trtb_index e.stream.num_channels
  let (got, trtb) = TrackTable.alloc k freed s.num_channels
  resized k rx e index s got trtb

-- `update` by the owner, once the old tracks are unmarked and the new ones were checked.
update_available : Kernel → Rx → RxElem → ℕ → RxStream → Result ℕ → Outcome
update_available k rx e index s (err error) = give_up rx e error
update_available k rx e index s (ok _) =
    if not (e.stream.num_channels == s.num_channels)
    then resize k rx e index s
    else finish k rx e index s 0

update_found : Kernel → Rx → ℕ → ℕ → RxStream → Bool → Option RxElem → Outcome
update_found k rx filp index s scratch none = fail enoent rx
update_found k rx filp index s scratch (some e) =
    if not (e.filp == filp) then fail eacces rx else do
      unmarked ← tracks_mark_unused rx e.stream
      available ← tracks_available unmarked s scratch
      update_available k unmarked e index s available

-- `update` on a command that was copied, of the right size.
update_checked : Kernel → Rx → ℕ → UpdateRxStreamCmd → Bool → Outcome
update_checked k rx filp cmd scratch = if not (cmd.version == 0) then fail einval rx else do
  checked ← validate_stream k rx.max_tracks cmd.stream
  elim checked [
    | err e ↦ fail e rx
    | ok _ ↦ update_found k rx filp cmd.index cmd.stream scratch (rx.streams cmd.index)
  ]

pub update_stream_ioctl : Kernel → Rx → ℕ → ℕ → Option UpdateRxStreamCmd → Bool → Outcome
update_stream_ioctl k rx filp size user scratch =
    if not (size == sizeof_update_rx_stream_cmd)
    then fail einval rx
    else elim user [ none ↦ fail efault rx | some cmd ↦ update_checked k rx filp cmd scratch ]

pub free_stream : Rx → RxElem → ℕ → Option Rx
free_stream rx e index = do
  trtb' ← TrackTable.free rx.trtb e.trtb_index e.stream.num_channels
  unmarked ← tracks_mark_unused (record rx { trtb = trtb' }) e.stream
  sttb' ← StreamTableRx.del unmarked.sttb index
  some (record unmarked { sttb = sttb'; streams = update rx.streams index none })

delete_found : Rx → ℕ → ℕ → Option RxElem → Outcome
delete_found rx filp index none = fail enoent rx
delete_found rx filp index (some e) =
    if not (e.filp == filp)
    then fail eacces rx
    else do rx' ← free_stream rx e index; some (ok 0, rx')

pub delete_stream_ioctl : Rx → ℕ → ℕ → Option DeleteRxStreamCmd → Outcome
delete_stream_ioctl rx filp size user =
    if not (size == sizeof_delete_rx_stream_cmd) then fail einval rx else elim user [
      | none ↦ fail efault rx
      | some cmd ↦
          if not (cmd.version == 0)
          then fail einval rx
          else delete_found rx filp cmd.index (rx.streams cmd.index)
    ]

-- The body of `xa_for_each` in `delete_streams`, at one index.
delete_if_owned : Rx → ℕ → ℕ → Option RxElem → Option Rx
delete_if_owned rx filp index none = some rx
delete_if_owned rx filp index (some e) = if e.filp == filp then free_stream rx e index else some rx

-- `xa_for_each` goes through the stored indices in order; all are below `max_entries`.
delete_from : Rx → ℕ → ℕ → ℕ → Option Rx
delete_from rx filp i zero = some rx
delete_from rx filp i (suc left) = do
  rx' ← delete_if_owned rx filp i (rx.streams i)
  delete_from rx' filp (suc i) left

pub delete_streams : Rx → ℕ → Option Rx
delete_streams rx filp = delete_from rx filp 0 rx.sttb.max_entries
