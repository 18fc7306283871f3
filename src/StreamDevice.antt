-- ===== src/StreamDevice.antt =====
-- modules/stream-device: the character device that programs the audio streams.
pub mod Codec
pub mod TrackTable
pub mod ActiveTracks
pub mod StreamTable
pub mod StreamTableTx
pub mod TxValidate
pub mod Tx
pub mod StreamTableRx
pub mod RxFields
pub mod RxValidate
pub mod Rx
pub mod RtcpData
pub mod Rtcp
pub mod Device
pub mod Probe
mod Tests
