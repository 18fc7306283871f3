-- ===== src/StreamDevice/Tests/DeviceTests.antt =====
-- The whole device, on which client 7 sends and receives a stream, and client 9 asks for others.
use ravenna_fpga_drivers.Common.{◌*◌, ◌≡◌, refl, true, none, some, List, [], ◌∷◌, arith}
use ravenna_fpga_drivers.Kernel.{ok, err, number}
use ravenna_fpga_drivers.StreamDevice.RtcpData.{
  RtcpRxDataFpga, RtcpTxDataFpga, RtcpRxData, RtcpTxData, parse_rtcp_rx_data, parse_rtcp_tx_data,
}
use ravenna_fpga_drivers.StreamDevice.RtcpData.Fields.{
  Flags, word_1, word_2, Reports, parse_rtcp_rx_data-Reports,
}
use ravenna_fpga_drivers.StreamDevice.Rtcp.{
  read_rtcp_stat, request, report, Rtcp, ReadRtcpStatCmd, fetch, set_ready, Wait,
  read_rtcp_rx_stat_ioctl,
}
use ravenna_fpga_drivers.StreamDevice.Rx
use ravenna_fpga_drivers.StreamDevice.Tx
use ravenna_fpga_drivers.StreamDevice.Device.{
  Device, User, World, add_tx_stream_cmd, add_rx_stream_cmd, update_rx_stream_cmd,
}
use ravenna_fpga_drivers.StreamDevice.Device.Calls.{
  Call, ioctls, releases, interrupts, run, IsSound, Fits,
}
use ravenna_fpga_drivers.StreamDevice.Device.History.{run-IsSound, run_rx_kept, run_tx_kept}
use ravenna_fpga_drivers.StreamDevice.StreamTableRx
use ravenna_fpga_drivers.StreamDevice.StreamTableRx.{RxEntry, activated}
use ravenna_fpga_drivers.StreamDevice.StreamTableTx
use ravenna_fpga_drivers.StreamDevice.StreamTableTx.{TxEntry, valid}
use ravenna_fpga_drivers.StreamDevice.Probe.{Resources, probe}
use ravenna_fpga_drivers.StreamDevice.Probe.Sound.{Probes, probe-Probes}
use ravenna_fpga_drivers.StreamDevice.Tests.FirstFit.{linux}
use ravenna_fpga_drivers.StreamDevice.Tests.TxTests.{busy, busy-IsValid, stereo, add_mono}
use ravenna_fpga_drivers.StreamDevice.Tests.RxData.{headphones}
use ravenna_fpga_drivers.StreamDevice.Tests.RxTests.{
  busy_rx, busy_rx-IsValid, add_fitting, update_fitting,
}

abbrev no_rx_data : RtcpRxDataFpga
no_rx_data = record {
  rtp_timestamp = 0;
  pri_base_sequence_nr = 0;
  pri_misordered_pkts = 0;
  pri_extended_max_sequence_nr = 0;
  pri_received_pkts = 0;
  pri_estimated_jitter = 0;
  pri_peak_jitter = 0;
  sec_base_sequence_nr = 0;
  sec_misordered_pkts = 0;
  sec_extended_max_sequence_nr = 0;
  sec_received_pkts = 0;
  sec_estimated_jitter = 0;
  sec_peak_jitter = 0;
  pri_current_offset_estimation = 0;
  pri_last_transit_time = 0;
  pri_last_ssrc = 0;
  pri_buffer_margin_max = 0;
  pri_buffer_margin_min = 0;
  pri_early_pkts = 0;
  pri_late_pkts = 0;
  sec_current_offset_estimation = 0;
  sec_last_transit_time = 0;
  sec_last_ssrc = 0;
  sec_buffer_margin_max = 0;
  sec_buffer_margin_min = 0;
  sec_early_pkts = 0;
  sec_late_pkts = 0;
  flags_1 = 0;
  flags_2 = 0;
}

abbrev no_tx_data : RtcpTxDataFpga
no_tx_data = record {
  rtp_timestamp = 0;
  pri_sent_pkts = 0;
  pri_sent_rtp_bytes = 0;
  sec_sent_pkts = 0;
  sec_sent_rtp_bytes = 0;
}

-- The second network plays and has an error; the offset estimation needs all its 17 bits.
abbrev locked : Flags
locked = record {
  state = 4;
  playing_primary = 0;
  playing_secondary = 1;
  error_primary = 0;
  error_secondary = 1;
  offset = 0x10002;
  unread_1 = 1;
  payload_id = 97;
  timeout_primary = 3;
  timeout_secondary = 5;
  path = 0x7fff0;
  unread_2 = 1;
}

abbrev locked_data : RtcpRxDataFpga
locked_data = record no_rx_data { flags_1 = word_1 locked; flags_2 = word_2 locked }

parse_rtcp_rx_data-Reports_example : Reports locked locked_data
parse_rtcp_rx_data-Reports_example =
    parse_rtcp_rx_data-Reports locked locked_data
      (record {
        state = omega arith;
        playing_primary = omega arith;
        playing_secondary = omega arith;
        error_primary = omega arith;
        error_secondary = omega arith;
        offset = omega arith;
        unread_1 = omega arith;
        payload_id = omega arith;
        timeout_primary = omega arith;
        timeout_secondary = omega arith;
        path = omega arith;
      })
      refl refl

abbrev rtcp_rx : Rtcp RtcpRxDataFpga
rtcp_rx = record { ready = true; rtcp_data = no_rx_data; page_select = 0 }

abbrev rtcp_tx : Rtcp RtcpTxDataFpga
rtcp_tx = record { ready = true; rtcp_data = no_tx_data; page_select = 0 }

abbrev wait_rx : Wait RtcpRxDataFpga
wait_rx = record {
  early = [];
  arrivals = fetch locked_data ∷ set_ready ∷ [];
  late = [];
  returned = ok 40;
}

-- The handler runs before the page is selected, and not after that.
abbrev wait_overlapped : Wait RtcpRxDataFpga
wait_overlapped = record {
  early = fetch locked_data ∷ set_ready ∷ [];
  arrivals = [];
  late = [];
  returned = ok 40;
}

-- No interrupt comes in.
abbrev wait_tx : Wait RtcpTxDataFpga
wait_tx = record { early = []; arrivals = []; late = []; returned = ok 0 }

abbrev read_rx : ReadRtcpStatCmd RtcpRxData
read_rx = record { index = 5; timeout_ms = 500; rtcp_data = parse_rtcp_rx_data no_rx_data }

abbrev read_tx : ReadRtcpStatCmd RtcpTxData
read_tx = record { index = 0; timeout_ms = 500; rtcp_data = parse_rtcp_tx_data no_tx_data }

-- Data of the page that was selected before are shown for index 5.
shows_the_old_page :
    (read_rtcp_rx_stat_ioctl (λ j. j * 10) rtcp_rx 92 (some read_rx) wait_overlapped true).2
    ≡ some (record { index = 5; timeout_ms = 100; rtcp_data = parse_rtcp_rx_data locked_data })
unfolding read_rtcp_rx_stat_ioctl read_rtcp_stat request report
shows_the_old_page = refl

-- A wait without a limit ends with a number of jiffies that an `int` does not hold.
no_limit :
    (read_rtcp_rx_stat_ioctl
      (λ j. j * 10)
      rtcp_rx
      92
      (some read_rx)
      (record wait_rx { returned = ok 4_611_686_018_427_387_892 })
      true).0
    ≡ err (number 12)
unfolding read_rtcp_rx_stat_ioctl read_rtcp_stat request report
no_limit = refl

abbrev device : Device
device = record { rtcp_rx = rtcp_rx; rtcp_tx = rtcp_tx; rx = busy_rx; tx = busy }

device-IsSound : IsSound linux device
device-IsSound = record { rx = busy_rx-IsValid; tx = busy-IsValid }

abbrev user : User
user = record {
  readable = true;
  writable = true;
  rtcp_rx = some read_rx;
  rtcp_tx = some read_tx;
  add_tx = some add_mono;
  update_tx = none;
  delete_tx = none;
  add_rx = some add_fitting;
  update_rx = some update_fitting;
  delete_rx = none;
}

abbrev world : World
world = record {
  pid = 1200;
  memory = true;
  scratch = true;
  wait_rx = wait_rx;
  wait_tx = wait_tx;
  jiffies_to_msecs = λ j. j * 10;
}

user-Fits : Fits user
user-Fits = record { add_rx = refl; update_rx = refl; add_tx = omega arith; update_tx = tt }

-- Client 9 adds a stream of each kind, tries to update one of client 7, and closes its file.
abbrev history : List Call
history =
    ioctls 9 add_tx_stream_cmd user world
    ∷ ioctls 9 add_rx_stream_cmd user world
    ∷ interrupts 1 locked_data no_tx_data
    ∷ ioctls 9 update_rx_stream_cmd user world
    ∷ releases 9
    ∷ []

run-IsSound_example : (d' : Device) × (run linux device history ≡ some d') × IsSound linux d'
run-IsSound_example =
    run-IsSound linux device history device-IsSound
      (user-Fits, (user-Fits, (tt, (user-Fits, (tt, tt)))))

run_rx_kept_example :
    (d' : Device) × (run linux device history ≡ some d')
    × (Rx.View.view d'.rx.streams 0 ≡ some (record { stream = headphones; filp = 7; pid = 1117 }))
run_rx_kept_example =
    run_rx_kept linux device history 0 (record { stream = headphones; filp = 7; pid = 1117 })
      device-IsSound (user-Fits, (user-Fits, (tt, (user-Fits, (tt, tt)))))
      (omega arith, (omega arith, (omega arith, (omega arith, (omega arith, tt))))) refl

run_tx_kept_example :
    (d' : Device) × (run linux device history ≡ some d')
    × (Tx.View.view d'.tx.streams 0 ≡ some (record { stream = stereo; filp = 7; pid = 1117 }))
run_tx_kept_example =
    run_tx_kept linux device history 0 (record { stream = stereo; filp = 7; pid = 1117 })
      device-IsSound (user-Fits, (user-Fits, (tt, (user-Fits, (tt, tt)))))
      (omega arith, (omega arith, (omega arith, (omega arith, (omega arith, tt))))) refl

abbrev rx_resources : Resources RxEntry
rx_resources = record {
  stream_regs = λ i. activated StreamTableRx.zero_entry;
  stream_size = 0x1000;
  track_regs = λ i. i;
  track_size = 0x800;
}

abbrev tx_resources : Resources TxEntry
tx_resources = record {
  stream_regs = λ i. valid StreamTableTx.zero_entry;
  stream_size = 0x2000;
  track_regs = λ i. i;
  track_size = 0x800;
}

probe-Probes_example :
    Probes (IsSound linux) (probe rtcp_rx rtcp_tx 128 rx_resources tx_resources true true true)
probe-Probes_example =
    probe-Probes linux rtcp_rx rtcp_tx 128 rx_resources tx_resources true true true (omega arith)
      (omega arith) (omega arith) (omega arith)
