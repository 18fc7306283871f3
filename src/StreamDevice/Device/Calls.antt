-- ===== src/StreamDevice/Device/Calls.antt =====
-- Sequences of calls of clients and interrupts on the stream device, and the state they begin in.
use ravenna_fpga_drivers.Common.{ℕ, ◌≢◌, Option, some, List, [], ◌∷◌, ◌>>=◌}
use ravenna_fpga_drivers.Kernel.{Kernel}
use ravenna_fpga_drivers.StreamDevice.RtcpData.{RtcpRxDataFpga, RtcpTxDataFpga}
use ravenna_fpga_drivers.StreamDevice.Rx
use ravenna_fpga_drivers.StreamDevice.Rx.{Rx}
use ravenna_fpga_drivers.StreamDevice.Tx
use ravenna_fpga_drivers.StreamDevice.Tx.{Tx}
use ravenna_fpga_drivers.StreamDevice.Device.{
  Device, User, World, Reply, ioctl, release, irqhandler,
}

-- A call of a client, by its open file, or an interrupt.
pub data Call : Type 0 where
  ioctls : (filp cmd : ℕ) (user : User) (world : World) → Call
  releases : (filp : ℕ) → Call
  interrupts : (irqs : ℕ) (rx_data : RtcpRxDataFpga) (tx_data : RtcpTxDataFpga) → Call

-- The state that an ioctl leaves.
abbrev pub state_of : Option Reply → Option Device
state_of o = do (ret, d, copied) ← o; some d

unfoldable pub step : Kernel → Device → Call → Option Device
step k d (ioctls filp cmd user world) = state_of (ioctl k d filp cmd user world)
step k d (releases filp) = release d filp
step k d (interrupts irqs rx_data tx_data) = some (irqhandler d irqs rx_data tx_data).1

unfoldable pub run : Kernel → Device → List Call → Option Device
run k d [] = some d
run k d (c ∷ cs) = do d' ← step k d c; run k d' cs

pub record IsSound (k : Kernel) (d : Device) : Type 0 where
  pub rx : Rx.Invariant.IsValid k d.rx
  pub tx : Tx.Invariant.IsValid k d.tx

-- The arrays of tracks in user memory: those for RX have their size, those for TX a track for each
-- channel.
pub record Fits (user : User) : Type 0 where
  pub add_rx : Rx.Isolation.FitsAdd user.add_rx
  pub update_rx : Rx.Isolation.FitsUpdate user.update_rx
  pub add_tx : Tx.Isolation.FitsAdd user.add_tx
  pub update_tx : Tx.Isolation.FitsUpdate user.update_tx

abbrev pub CallFits : Call → Type 0
CallFits (ioctls filp cmd user world) = Fits user
CallFits (releases filp) = Unit {0}
CallFits (interrupts irqs rx_data tx_data) = Unit {0}

abbrev pub AllFit : List Call → Type 0
AllFit [] = Unit {0}
AllFit (c ∷ cs) = CallFits c × AllFit cs

-- The file of a call; an interrupt has the null pointer.
abbrev pub by : Call → ℕ
by (ioctls caller cmd user world) = caller
by (releases caller) = caller
by (interrupts irqs rx_data tx_data) = 0

-- The file `filp` makes none of the calls.
abbrev pub NoneBy : ℕ → List Call → Type 0
NoneBy filp [] = Unit {0}
NoneBy filp (c ∷ cs) = (filp ≢ by c) × NoneBy filp cs
