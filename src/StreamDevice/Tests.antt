-- ===== src/StreamDevice/Tests.antt =====
-- Concrete devices and streams, and the theorems applied to them.
pub mod FirstFit
pub mod TxTests
pub mod RxData
pub mod RxTests
pub mod TableTests
pub mod DeviceTests
