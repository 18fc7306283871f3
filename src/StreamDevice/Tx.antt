-- ===== src/StreamDevice/Tx.antt =====
-- modules/stream-device/tx.h and tx.c: the ioctls that add, update and delete TX streams. Each runs
-- under the mutex `tx->mutex` wherever it touches the state, so it is one function on it. The result
-- beside the new state is the ioctl's; `none` is a BUG() or an access beyond an array. A command is
-- `none` where `copy_from_user` fails, and `memory` says whether `kzalloc` succeeds.
pub mod Invariant
pub mod Program
pub mod Admit
pub mod View
pub mod Add
pub mod Update
pub mod Delete
pub mod Isolation
pub mod Overrun
use ravenna_fpga_drivers.Common.{
  ℕ, zero, suc, ◌+◌, ◌-◌, ◌*◌, ◌%◌, ◌^◌, Bool, true, false, not, Option, none, some, ◌>>=◌, ltb,
  ◌==◌, update, if◌then◌else◌,
}
use ravenna_fpga_drivers.Kernel.{
  Kernel, Result, ok, err, Errno, einval, efault, enomem, enoent, eacces,
}
use ravenna_fpga_drivers.Uapi.{
  TxStream, AddTxStreamCmd, UpdateTxStreamCmd, DeleteTxStreamCmd, max_ethernet_packet_size,
  sizeof_add_tx_stream_cmd, sizeof_update_tx_stream_cmd, sizeof_delete_tx_stream_cmd,
}
use ravenna_fpga_drivers.StreamDevice.Codec.{sample_length}
use ravenna_fpga_drivers.StreamDevice.TrackTable
use ravenna_fpga_drivers.StreamDevice.TrackTable.{TrackTable}
use ravenna_fpga_drivers.StreamDevice.StreamTable.{StreamTable}
use ravenna_fpga_drivers.StreamDevice.StreamTableTx
use ravenna_fpga_drivers.StreamDevice.StreamTableTx.{TxEntry}
use ravenna_fpga_drivers.StreamDevice.TxValidate.{validate_stream}

-- `struct ra_sd_tx_stream_elem`; files and processes are numbers.
pub record TxElem : Type 0 where
  pub stream : TxStream
  pub filp : ℕ
  pub pid : ℕ
  pub trtb_index : ℕ

pub record Tx : Type 0 where
  pub sttb : StreamTable TxEntry
  pub trtb : TrackTable
  pub streams : ℕ → Option TxElem

abbrev pub Outcome : Type 0
Outcome = Option (Result ℕ × Tx)

-- An error that leaves the state as it is.
abbrev pub fail : Errno → Tx → Outcome
fail e tx = some (err e, tx)

unfoldable pub stream_ip_length : TxStream → Option ℕ
stream_ip_length s = do
  codec_len ← sample_length s.codec
  some (20 + 8 + 12 + s.num_channels * s.num_samples * codec_len)

-- `XA_LIMIT(0, max_entries - 1)`, as a `u32`.
abbrev pub xa_limit : ℕ → ℕ
xa_limit max_entries = (max_entries + 2 ^ 32 - 1) % 2 ^ 32

abbrev pub taken : (ℕ → Option TxElem) → ℕ → Bool
taken streams i = elim (streams i) [ none ↦ false | some e ↦ true ]

-- The checks before the lock: the IP length of a stream that passes them.
unfoldable pub admit : Kernel → ℕ → TxStream → Option (Result ℕ)
admit k max_tracks s = elim (validate_stream k max_tracks s) [
  | err e ↦ some (err e)
  | ok _ ↦ do
    ip_total_len ← stream_ip_length s
    some (if ltb max_ethernet_packet_size ip_total_len then err einval else ok ip_total_len)
]

-- `add` after `xa_alloc` has stored `e` at `index`, and the track table has `got` a range.
place : Kernel → Tx → TxElem → ℕ → ℕ → Result ℕ → TrackTable → Outcome
place k tx e index ip_total_len (err error) trtb =
    fail error (record tx { trtb = trtb; streams = update tx.streams index none })
place k tx e index ip_total_len (ok base) trtb = do
  trtb' ← TrackTable.set trtb base e.stream.num_channels e.stream.tracks
  sttb' ← StreamTableTx.set k tx.sttb e.stream index base ip_total_len true
  some (
    ok index,
    record {
      sttb = sttb';
      trtb = trtb';
      streams = update tx.streams index (some (record e { trtb_index = base }));
    },
  )

add_at : Kernel → Tx → TxElem → ℕ → Result ℕ → Outcome
add_at k tx e ip_total_len (err error) = fail error tx
add_at k tx e ip_total_len (ok index) =
    let (got, trtb) = TrackTable.alloc k tx.trtb e.stream.num_channels in
    place k (record tx { streams = update tx.streams index (some e) }) e index ip_total_len got trtb

add_locked : Kernel → Tx → TxElem → ℕ → Outcome
add_locked k tx e ip_total_len =
    add_at k tx e ip_total_len (k.xa_alloc (taken tx.streams) (xa_limit tx.sttb.max_entries))

-- `add` on a command that was copied, of the right size.
add_checked : Kernel → ℕ → Tx → ℕ → ℕ → AddTxStreamCmd → Bool → Outcome
add_checked k max_tracks tx filp pid cmd memory =
    if not (cmd.version == 0) then fail einval tx else do
      checked ← admit k max_tracks cmd.stream
      elim checked [
        | err e ↦ fail e tx
        | ok ip_total_len ↦
            if memory
            then add_locked k tx
                (record { stream = cmd.stream; filp = filp; pid = pid; trtb_index = 0 })
                ip_total_len
            else fail enomem tx
      ]

pub add_stream_ioctl : Kernel → ℕ → Tx → ℕ → ℕ → ℕ → Option AddTxStreamCmd → Bool → Outcome
add_stream_ioctl k max_tracks tx filp pid size user memory =
    if not (size == sizeof_add_tx_stream_cmd) then fail einval tx else elim user [
      | none ↦ fail efault tx
      | some cmd ↦ add_checked k max_tracks tx filp pid cmd memory
    ]

-- The end of `update`: the stream takes its new values, and the tables follow.
finish : Kernel → Tx → TxElem → ℕ → TxStream → ℕ → ℕ → Outcome
finish k tx e index s ip_total_len ret = do
  trtb' ← TrackTable.set tx.trtb e.trtb_index s.num_channels s.tracks
  sttb' ← StreamTableTx.set k tx.sttb s index e.trtb_index ip_total_len false
  some (
    ok ret,
    record {
      sttb = sttb';
      trtb = trtb';
      streams = update tx.streams index (some (record e { stream = s }));
    },
  )

-- The old stream is programmed again, and `error` returned; a second failure only warns.
roll_back : Kernel → Tx → TxElem → ℕ → Errno → Result ℕ → TrackTable → Outcome
roll_back k tx e index error (err again) trtb = fail again (record tx { trtb = trtb })
roll_back k tx e index error (ok base) trtb = do
  trtb' ← TrackTable.set trtb base e.stream.num_channels e.stream.tracks
  ip_total_len ← stream_ip_length e.stream
  sttb' ← StreamTableTx.set k tx.sttb e.stream index base ip_total_len false
  some (
    err error,
    record {
      sttb = sttb';
      trtb = trtb';
      streams = update tx.streams index (some (record e { trtb_index = base }));
    },
  )

-- `update` after the old range was freed and a new one asked for.
resized : Kernel → Tx → TxElem → ℕ → TxStream → ℕ → Result ℕ → TrackTable → Outcome
resized k tx e index s ip_total_len (ok base) trtb =
    finish k (record tx { trtb = trtb }) (record e { trtb_index = base }) index s ip_total_len base
resized k tx e index s ip_total_len (err error) trtb =
    let (got, trtb') = TrackTable.alloc k trtb e.stream.num_channels in
    roll_back k tx e index error got trtb'

resize : Kernel → Tx → TxElem → ℕ → TxStream → ℕ → Outcome
resize k tx e index s ip_total_len = do
  freed ← TrackTable.free tx.trtb e.trtb_index e.stream.num_channels
  let (got, trtb) = TrackTable.alloc k freed s.num_channels
  resized k tx e index s ip_total_len got trtb

update_found : Kernel → Tx → ℕ → ℕ → TxStream → ℕ → Option TxElem → Outcome
update_found k tx filp index s ip_total_len none = fail enoent tx
update_found k tx filp index s ip_total_len (some e) =
    if not (e.filp == filp)
    then fail eacces tx
    else if not (e.stream.num_channels == s.num_channels)
    then resize k tx e index s ip_total_len
    else finish k tx e index s ip_total_len 0

update_locked : Kernel → Tx → ℕ → ℕ → TxStream → ℕ → Outcome
update_locked k tx filp index s ip_total_len =
    update_found k tx filp index s ip_total_len (tx.streams index)

-- `update` on a command that was copied, of the right size.
update_checked : Kernel → ℕ → Tx → ℕ → UpdateTxStreamCmd → Outcome
update_checked k max_tracks tx filp cmd = if not (cmd.version == 0) then fail einval tx else do
  checked ← admit k max_tracks cmd.stream
  elim checked [
    | err e ↦ fail e tx
    | ok ip_total_len ↦ update_locked k tx filp cmd.index cmd.stream ip_total_len
  ]

pub update_stream_ioctl : Kernel → ℕ → Tx → ℕ → ℕ → Option UpdateTxStreamCmd → Outcome
update_stream_ioctl k max_tracks tx filp size user =
    if not (size == sizeof_update_tx_stream_cmd)
    then fail einval tx
    else elim user [ none ↦ fail efault tx | some cmd ↦ update_checked k max_tracks tx filp cmd ]

pub free_stream : Tx → TxElem → ℕ → Option Tx
free_stream tx e index = do
  trtb' ← TrackTable.free tx.trtb e.trtb_index e.stream.num_channels
  sttb' ← StreamTableTx.del tx.sttb index
  some (record { sttb = sttb'; trtb = trtb'; streams = update tx.streams index none })

delete_found : Tx → ℕ → ℕ → Option TxElem → Outcome
delete_found tx filp index none = fail enoent tx
delete_found tx filp index (some e) =
    if not (e.filp == filp)
    then fail eacces tx
    else do tx' ← free_stream tx e index; some (ok 0, tx')

pub delete_stream_ioctl : Tx → ℕ → ℕ → Option DeleteTxStreamCmd → Outcome
delete_stream_ioctl tx filp size user =
    if not (size == sizeof_delete_tx_stream_cmd) then fail einval tx else elim user [
      | none ↦ fail efault tx
      | some cmd ↦
          if not (cmd.version == 0)
          then fail einval tx
          else delete_found tx filp cmd.index (tx.streams cmd.index)
    ]

-- The body of `xa_for_each` in `delete_streams`, at one index.
delete_if_owned : Tx → ℕ → ℕ → Option TxElem → Option Tx
delete_if_owned tx filp index none = some tx
delete_if_owned tx filp index (some e) = if e.filp == filp then free_stream tx e index else some tx

-- `xa_for_each` goes through the stored indices in order; all are below `max_entries`.
delete_from : Tx → ℕ → ℕ → ℕ → Option Tx
delete_from tx filp i zero = some tx
delete_from tx filp i (suc left) = do
  tx' ← delete_if_owned tx filp i (tx.streams i)
  delete_from tx' filp (suc i) left

pub delete_streams : Tx → ℕ → Option Tx
delete_streams tx filp = delete_from tx filp 0 tx.sttb.max_entries
