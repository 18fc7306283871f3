-- ===== src/StreamDevice/Probe.antt =====
-- The state that the probe functions of modules/stream-device leave: stream-table-tx.c,
-- stream-table-rx.c, track-table.c, tx.c, rx.c and main.c. What the registers hold at first, the sizes of
-- the resources and the RTCP state, which `devm_kzalloc` zeroes, are arguments; the device tree, the
-- mappings and the registration are taken to succeed. Resources are smaller than 8 GiB, so that an `int`
-- holds the numbers of entries. The Booleans say whether the allocations succeed. `none` is a BUG().
pub mod Sound
use ravenna_fpga_drivers.Common.{
  ℕ, ◌/◌, ◌%◌, Bool, true, false, not, Option, none, some, ◌>>=◌, [], ltb, ◌==◌, if◌then◌else◌,
}
use ravenna_fpga_drivers.Kernel.{Result, ok, err, einval, enomem}
use ravenna_fpga_drivers.StreamDevice.StreamTable.{StreamTable}
use ravenna_fpga_drivers.StreamDevice.StreamTableRx
use ravenna_fpga_drivers.StreamDevice.StreamTableRx.{RxEntry}
use ravenna_fpga_drivers.StreamDevice.StreamTableTx
use ravenna_fpga_drivers.StreamDevice.StreamTableTx.{TxEntry}
use ravenna_fpga_drivers.StreamDevice.TrackTable
use ravenna_fpga_drivers.StreamDevice.TrackTable.{TrackTable}
use ravenna_fpga_drivers.StreamDevice.RtcpData.{RtcpRxDataFpga, RtcpTxDataFpga}
use ravenna_fpga_drivers.StreamDevice.Rtcp.{Rtcp}
use ravenna_fpga_drivers.StreamDevice.Rx.{Rx}
use ravenna_fpga_drivers.StreamDevice.Tx.{Tx}
use ravenna_fpga_drivers.StreamDevice.Device.{Device}

-- What is done with the result of a probe function: `if (ret < 0) return ret;`
abbrev pub and_then :
    {A B : Type 0} → Option (Result A) → (A → Option (Result B)) → Option (Result B)
and_then none f = none
and_then (some (err e)) f = some (err e)
and_then (some (ok a)) f = f a

pub stream_table_tx_probe : (ℕ → TxEntry) → ℕ → Option (Result (StreamTable TxEntry))
stream_table_tx_probe regs size = if not (size % 0x40 == 0) then some (err einval) else do
  sttb ← StreamTableTx.reset (record { regs = regs; max_entries = size / 0x40; writes = [] })
  some (ok sttb)

pub stream_table_rx_probe : (ℕ → RxEntry) → ℕ → Option (Result (StreamTable RxEntry))
stream_table_rx_probe regs size = if not (size % 0x20 == 0) then some (err einval) else do
  sttb ← StreamTableRx.reset (record { regs = regs; max_entries = size / 0x20; writes = [] })
  some (ok sttb)

pub track_table_probe : (ℕ → ℕ) → ℕ → Bool → Option (Result TrackTable)
track_table_probe regs size memory =
    if not (size % 4 == 0) then some (err einval) else if not memory then some (err enomem) else do
      trtb ←
          TrackTable.reset
            (record { regs = regs; used_entries = λ _. false; max_entries = size / 4 })
      some (ok trtb)

-- One direction of the device: its registers, and the sizes of their resources.
pub record Resources (E : Type 0) : Type 0 where
  pub stream_regs : ℕ → E
  pub stream_size : ℕ
  pub track_regs : ℕ → ℕ
  pub track_size : ℕ

pub tx_probe : Resources TxEntry → Bool → Option (Result Tx)
tx_probe r memory = and_then (stream_table_tx_probe r.stream_regs r.stream_size) (λ sttb.
    and_then (track_table_probe r.track_regs r.track_size memory)
      (λ trtb. some (ok (record { sttb = sttb; trtb = trtb; streams = λ _. none }))))

pub rx_probe : ℕ → Resources RxEntry → Bool → Bool → Option (Result Rx)
rx_probe max_tracks r memory bitmap =
    and_then (stream_table_rx_probe r.stream_regs r.stream_size) (λ sttb.
      and_then (track_table_probe r.track_regs r.track_size memory) (λ trtb.
        if bitmap
        then some (
            ok (record {
              sttb = sttb;
              trtb = trtb;
              streams = λ _. none;
              used_tracks = λ _. false;
              max_tracks = max_tracks;
            }))
        else some (err enomem)))

pub probe :
    Rtcp RtcpRxDataFpga
    → Rtcp RtcpTxDataFpga
    → ℕ
    → Resources RxEntry
    → Resources TxEntry
    → Bool
    → Bool
    → Bool
    → Option (Result Device)
probe rtcp_rx rtcp_tx max_tracks rx_res tx_res rx_memory bitmap tx_memory =
    if ltb 256 max_tracks
    then some (err einval)
    else and_then (rx_probe max_tracks rx_res rx_memory bitmap) (λ rx.
      and_then (tx_probe tx_res tx_memory)
        (λ tx. some (ok (record { rtcp_rx = rtcp_rx; rtcp_tx = rtcp_tx; rx = rx; tx = tx }))))
