-- ===== src/Net/Control.antt =====
-- modules/net/main.c: the device goes up and down, starts again after a timeout, and gets ioctls.
pub mod Timeout
use ravenna_fpga_drivers.Common.{ℕ, Bool, true, false, not, Option, List, [], ◌==◌, if◌then◌else◌}
use ravenna_fpga_drivers.Kernel.{Result, ok, err, einval}
use ravenna_fpga_drivers.Net.TxTs.{Effect}
use ravenna_fpga_drivers.Net.Hwtstamp.{Config, hwtstamp_get, hwtstamp_ioctl}
use ravenna_fpga_drivers.Net.Xmit.{
  Dev, set_queue, irq_enable, irq_rx_packet_available, irq_rx_overrun, reset,
}

-- ra_net_open. `connected` is the outcome of phylink_of_phy_connect.
pub open_dev : Dev → Result ℕ → Dev × List Effect × Result ℕ
open_dev dev (err e) = (dev, [], err e)
open_dev dev (ok _) =
    let (dev', effects) = reset dev in
    (
      set_queue (irq_enable (irq_enable dev' irq_rx_packet_available) irq_rx_overrun) false,
      effects,
      ok 0,
    )

-- ra_net_stop. After napi_disable no packets are received.
pub stop_dev : Dev → Dev × List Effect
stop_dev dev = reset (record (set_queue dev true) { rx_scheduled = false })

-- ra_net_tx_timeout
unfoldable pub tx_timeout : Dev → Dev × List Effect
tx_timeout dev = let (dev', effects) = reset dev in (set_queue dev' false, effects)

-- include/uapi/linux/sockios.h
abbrev pub siocshwtstamp : ℕ
siocshwtstamp = 0x89b0

abbrev pub siocghwtstamp : ℕ
siocghwtstamp = 0x89b1

-- What an ioctl answers: a configuration, or what phylink_mii_ioctl returns.
pub data Answer : Type 0 where
  configured : Result Config → Answer
  mii : Result ℕ → Answer

-- ra_net_eth_ioctl. `config` is what can be read from the caller, `can_write` says whether it can be
-- written, and `from_mii` is the outcome of phylink_mii_ioctl.
pub eth_ioctl : Dev → Bool → ℕ → Bool → Option Config → Result ℕ → Dev × Answer
eth_ioctl dev running command can_write config from_mii =
    let (stamping, answer) = hwtstamp_ioctl can_write dev.stamping config in
    if not running
    then (dev, mii (err einval))
    else if command == siocshwtstamp
    then (record dev { stamping = stamping }, configured answer)
    else if command == siocghwtstamp
    then (dev, configured (hwtstamp_get can_write dev.stamping))
    else (dev, mii from_mii)
