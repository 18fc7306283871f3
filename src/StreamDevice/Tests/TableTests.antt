-- ===== src/StreamDevice/Tests/TableTests.antt =====
-- The tables of the FPGA and the checks on payload types, on small inputs.
use ravenna_fpga_drivers.Common.{◌≡◌, true, false, some, arith}
use ravenna_fpga_drivers.StreamDevice.StreamTable.{written}
use ravenna_fpga_drivers.StreamDevice.StreamTableTx
use ravenna_fpga_drivers.StreamDevice.StreamTableTx.{TxEntry, valid, misc_vld}
use ravenna_fpga_drivers.StreamDevice.StreamTableTx.Laws.{set-valid_last}
use ravenna_fpga_drivers.StreamDevice.StreamTableRx
use ravenna_fpga_drivers.StreamDevice.StreamTableRx.{RxEntry, activated, destinations}
use ravenna_fpga_drivers.StreamDevice.StreamTableRx.Laws.{set_invalid_first}
use ravenna_fpga_drivers.StreamDevice.Tests.FirstFit.{linux}
use ravenna_fpga_drivers.StreamDevice.Tests.TxTests.{stereo, empty_sttb}
use ravenna_fpga_drivers.StreamDevice.Tests.RxData.{headphones, empty_rx_sttb}

set-valid_last_example :
    (e : TxEntry) × (StreamTableTx.fill linux stereo 0 136 ≡ some e)
    × StreamTableTx.Laws.ShowsFlags stereo e.misc_control 0
    × StreamTableTx.Laws.ShowsFlags stereo (valid e).misc_control 1
    × (StreamTableTx.set linux empty_sttb stereo 1 0 136 true
        ≡ some (written (written empty_sttb 1 e) 1 (valid e)))
    × (StreamTableTx.set linux empty_sttb stereo 1 0 136 false
        ≡ some (written empty_sttb 1 (valid e)))
set-valid_last_example = set-valid_last linux empty_sttb stereo 1 0 136 (omega arith) (omega arith)

set_invalid_first_example :
    (e : RxEntry) × (StreamTableRx.fill linux headphones 4 ≡ some e)
    × StreamTableRx.Laws.Redundant linux headphones (StreamTableRx.Laws.destinations_in e)
    × StreamTableRx.Laws.ShowsFlags headphones e.misc_control 0
    × StreamTableRx.Laws.ShowsFlags headphones (activated e).misc_control 1
    × (StreamTableRx.set linux empty_rx_sttb headphones 1 4
        ≡ some (
            written
              (written (written empty_rx_sttb 1 StreamTableRx.zero_entry) 1 e)
              1
              (activated e)))
set_invalid_first_example =
    set_invalid_first linux empty_rx_sttb headphones 1 4 (omega arith) (omega arith)
