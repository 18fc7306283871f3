-- ===== src/StreamDevice/Tx/Overrun.antt =====
-- `add` does not compare the number of channels with the size of `tracks`.
use ravenna_fpga_drivers.Common.{ℕ, ◌<◌, ◌≡◌, true, some, none, length}
use ravenna_fpga_drivers.Kernel.{Kernel, ok}
use ravenna_fpga_drivers.Uapi.{AddTxStreamCmd, sizeof_add_tx_stream_cmd}
use ravenna_fpga_drivers.StreamDevice.TrackTable.{alloc}
use ravenna_fpga_drivers.StreamDevice.TrackTable.Loops.{set_overrun}
use ravenna_fpga_drivers.StreamDevice.Tx.{
  Tx, admit, taken, xa_limit, place, add_at, add_locked, add_checked, add_stream_ioctl,
}

-- A TX stream with more channels than entries of tracks that passes the checks, and for which the
-- tables have room, makes the add ioctl leave the array of tracks or reach a BUG().
pub add_overrun :
    (k : Kernel) (max_tracks : ℕ) (tx : Tx) (filp pid len index base : ℕ) (cmd : AddTxStreamCmd)
    → cmd.version ≡ 0
    → length cmd.stream.tracks < cmd.stream.num_channels
    → admit k max_tracks cmd.stream ≡ some (ok len)
    → k.xa_alloc (taken tx.streams) (xa_limit tx.sttb.max_entries) ≡ ok index
    → (alloc k tx.trtb cmd.stream.num_channels).0 ≡ ok base
    → add_stream_ioctl k max_tracks tx filp pid sizeof_add_tx_stream_cmd (some cmd) true ≡ none
unfolding add_stream_ioctl add_checked add_locked add_at place
add_overrun k max_tracks tx filp pid len index base cmd version over admitted got room = rw (
  version,
  admitted,
  got,
  room,
  set_overrun (alloc k tx.trtb cmd.stream.num_channels).1 base cmd.stream.num_channels
      cmd.stream.tracks over,
)
