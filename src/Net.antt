-- ===== src/Net.antt =====
-- modules/net: the Ethernet driver.
pub mod TxTs
pub mod Hwtstamp
pub mod Xmit
pub mod Dma
pub mod Filter
pub mod Poll
pub mod Control
mod Tests
mod DeviceTests
