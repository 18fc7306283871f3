-- ===== src/StreamDevice/Device.antt =====
-- modules/stream-device/main.h and main.c: the state of the device, its interrupt handler, and the file
-- operations. `none` is a BUG() or an access beyond an array.
pub mod Calls
pub mod Steps
pub mod History
use ravenna_fpga_drivers.Common.{
  ℕ, ◌+◌, ◌*◌, ◌/◌, ◌%◌, ◌^◌, Bool, true, false, not, Option, none, some, ◌>>=◌, ◌==◌, bit_and,
  if◌then◌else◌,
}
use ravenna_fpga_drivers.Kernel.{Kernel, Result, ok, err, einval, efault, enotty}
use ravenna_fpga_drivers.Uapi.{
  Info, AddTxStreamCmd, UpdateTxStreamCmd, DeleteTxStreamCmd, AddRxStreamCmd, UpdateRxStreamCmd,
  DeleteRxStreamCmd, sizeof_add_rx_stream_cmd, sizeof_update_rx_stream_cmd,
  sizeof_delete_rx_stream_cmd, sizeof_add_tx_stream_cmd, sizeof_update_tx_stream_cmd,
  sizeof_delete_tx_stream_cmd,
}
use ravenna_fpga_drivers.StreamDevice.RtcpData.{
  RtcpRxDataFpga, RtcpTxDataFpga, RtcpRxData, RtcpTxData,
}
use ravenna_fpga_drivers.StreamDevice.Rtcp.{
  Rtcp, ReadRtcpStatCmd, Wait, rtcp_rx_irq, rtcp_tx_irq, read_rtcp_rx_stat_ioctl,
  read_rtcp_tx_stat_ioctl, sizeof_read_rtcp_rx_stat_cmd, sizeof_read_rtcp_tx_stat_cmd,
}
use ravenna_fpga_drivers.StreamDevice.Rx
use ravenna_fpga_drivers.StreamDevice.Rx.{Rx}
use ravenna_fpga_drivers.StreamDevice.Tx
use ravenna_fpga_drivers.StreamDevice.Tx.{Tx}

-- `struct ra_sd_priv`; its `max_tracks` is that of `rx`.
pub record Device : Type 0 where
  pub rtcp_rx : Rtcp RtcpRxDataFpga
  pub rtcp_tx : Rtcp RtcpTxDataFpga
  pub rx : Rx
  pub tx : Tx

-- `_IOC(dir, 'r', nr, size)` and `_IOC_SIZE(cmd)`: `_IOW` has 1 for its direction, `_IOWR` 3.
abbrev pub ioc : ℕ → ℕ → ℕ → ℕ
ioc dir nr size = dir * 2 ^ 30 + size * 2 ^ 16 + 114 * 2 ^ 8 + nr

abbrev pub ioc_size : ℕ → ℕ
ioc_size cmd = cmd / 2 ^ 16 % 2 ^ 14

abbrev pub sizeof_read_info_cmd : ℕ
sizeof_read_info_cmd = 16

abbrev pub read_info_cmd : ℕ
read_info_cmd = ioc 3 0x00 sizeof_read_info_cmd

abbrev pub read_rtcp_rx_stat_cmd : ℕ
read_rtcp_rx_stat_cmd = ioc 3 0x10 sizeof_read_rtcp_rx_stat_cmd

abbrev pub read_rtcp_tx_stat_cmd : ℕ
read_rtcp_tx_stat_cmd = ioc 3 0x11 sizeof_read_rtcp_tx_stat_cmd

abbrev pub add_tx_stream_cmd : ℕ
add_tx_stream_cmd = ioc 1 0x20 sizeof_add_tx_stream_cmd

abbrev pub update_tx_stream_cmd : ℕ
update_tx_stream_cmd = ioc 1 0x21 sizeof_update_tx_stream_cmd

abbrev pub delete_tx_stream_cmd : ℕ
delete_tx_stream_cmd = ioc 1 0x22 sizeof_delete_tx_stream_cmd

abbrev pub add_rx_stream_cmd : ℕ
add_rx_stream_cmd = ioc 1 0x30 sizeof_add_rx_stream_cmd

abbrev pub update_rx_stream_cmd : ℕ
update_rx_stream_cmd = ioc 1 0x31 sizeof_update_rx_stream_cmd

abbrev pub delete_rx_stream_cmd : ℕ
delete_rx_stream_cmd = ioc 1 0x32 sizeof_delete_rx_stream_cmd

-- What `copy_from_user` gives for each command at the caller's pointer, and whether `copy_to_user`
-- succeeds.
pub record User : Type 0 where
  pub readable : Bool
  pub writable : Bool
  pub rtcp_rx : Option (ReadRtcpStatCmd RtcpRxData)
  pub rtcp_tx : Option (ReadRtcpStatCmd RtcpTxData)
  pub add_tx : Option AddTxStreamCmd
  pub update_tx : Option UpdateTxStreamCmd
  pub delete_tx : Option DeleteTxStreamCmd
  pub add_rx : Option AddRxStreamCmd
  pub update_rx : Option UpdateRxStreamCmd
  pub delete_rx : Option DeleteRxStreamCmd

-- What the kernel contributes to a call: the caller's process, whether memory is available, and what
-- happens in a wait.
pub record World : Type 0 where
  pub pid : ℕ
  pub memory : Bool
  pub scratch : Bool
  pub wait_rx : Wait RtcpRxDataFpga
  pub wait_tx : Wait RtcpTxDataFpga
  pub jiffies_to_msecs : ℕ → ℕ

-- What an ioctl copies to user space.
pub data Copied : Type 0 where
  nothing : Copied
  info : Info → Copied
  rx_stat : ReadRtcpStatCmd RtcpRxData → Copied
  tx_stat : ReadRtcpStatCmd RtcpTxData → Copied

abbrev pub Reply : Type 0
Reply = Result ℕ × Device × Copied

pub read_info_ioctl : Device → ℕ → User → Reply
read_info_ioctl d size user =
    if not (size == sizeof_read_info_cmd)
    then (err einval, d, nothing)
    else if not user.readable
    then (err efault, d, nothing)
    else if not user.writable
    then (err efault, d, nothing)
    else (
      ok 0,
      d,
      info (record {
        max_tracks = d.rx.max_tracks;
        max_rx_streams = d.rx.sttb.max_entries;
        max_tx_streams = d.tx.sttb.max_entries;
      }),
    )

-- The replies of the handlers of the components.
abbrev pub tx_reply : Device → Tx.Outcome → Option Reply
tx_reply d o = do (ret, tx') ← o; some (ret, record d { tx = tx' }, nothing)

abbrev pub rx_reply : Device → Rx.Outcome → Option Reply
rx_reply d o = do (ret, rx') ← o; some (ret, record d { rx = rx' }, nothing)

abbrev pub rx_stat_copied : Option (ReadRtcpStatCmd RtcpRxData) → Copied
rx_stat_copied none = nothing
rx_stat_copied (some cmd) = rx_stat cmd

abbrev pub tx_stat_copied : Option (ReadRtcpStatCmd RtcpTxData) → Copied
tx_stat_copied none = nothing
tx_stat_copied (some cmd) = tx_stat cmd

pub ioctl : Kernel → Device → ℕ → ℕ → User → World → Option Reply
ioctl k d filp cmd user world =
    let size = ioc_size cmd in
    if cmd == read_info_cmd
    then some (read_info_ioctl d size user)
    else if cmd == read_rtcp_rx_stat_cmd
    then (let (ret, r, copied) =
          read_rtcp_rx_stat_ioctl world.jiffies_to_msecs d.rtcp_rx size user.rtcp_rx world.wait_rx
            user.writable in
        some (ret, record d { rtcp_rx = r }, rx_stat_copied copied))
    else if cmd == read_rtcp_tx_stat_cmd
    then (let (ret, r, copied) =
          read_rtcp_tx_stat_ioctl world.jiffies_to_msecs d.rtcp_tx size user.rtcp_tx world.wait_tx
            user.writable in
        some (ret, record d { rtcp_tx = r }, tx_stat_copied copied))
    else if cmd == add_tx_stream_cmd
    then tx_reply d
        (Tx.add_stream_ioctl k d.rx.max_tracks d.tx filp world.pid size user.add_tx world.memory)
    else if cmd == update_tx_stream_cmd
    then tx_reply d (Tx.update_stream_ioctl k d.rx.max_tracks d.tx filp size user.update_tx)
    else if cmd == delete_tx_stream_cmd
    then tx_reply d (Tx.delete_stream_ioctl d.tx filp size user.delete_tx)
    else if cmd == add_rx_stream_cmd
    then rx_reply d
        (Rx.add_stream_ioctl k d.rx filp world.pid size user.add_rx world.memory world.scratch)
    else if cmd == update_rx_stream_cmd
    then rx_reply d (Rx.update_stream_ioctl k d.rx filp size user.update_rx world.scratch)
    else if cmd == delete_rx_stream_cmd
    then rx_reply d (Rx.delete_stream_ioctl d.rx filp size user.delete_rx)
    else some (err enotty, d, nothing)

pub release : Device → ℕ → Option Device
release d filp = do
  rx' ← Rx.delete_streams d.rx filp
  tx' ← Tx.delete_streams d.tx filp
  some (record d { rx = rx'; tx = tx' })

abbrev pub irq_rtcp_rx : ℕ
irq_rtcp_rx = 1

abbrev pub irq_rtcp_tx : ℕ
irq_rtcp_tx = 0x10000

-- `irqs` is what RA_SD_IRQ_REQUEST reads, and the data what the FPGA shows; the result says whether the
-- interrupt was handled.
pub irqhandler : Device → ℕ → RtcpRxDataFpga → RtcpTxDataFpga → Bool × Device
irqhandler d irqs rx_data tx_data =
    let rx_set = not (bit_and irqs irq_rtcp_rx == 0) in
    let tx_set = not (bit_and irqs irq_rtcp_tx == 0) in
    let after_rx = if rx_set then record d { rtcp_rx = rtcp_rx_irq d.rtcp_rx rx_data } else d in
    let after_tx =
      if tx_set
      then record after_rx { rtcp_tx = rtcp_tx_irq after_rx.rtcp_tx tx_data }
      else after_rx in
    (if tx_set then true else rx_set, after_tx)
