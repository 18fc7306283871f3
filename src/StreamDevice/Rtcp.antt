-- ===== src/StreamDevice/Rtcp.antt =====
-- modules/stream-device/rtcp.c: the interrupt half of the RTCP statistics, and the ioctls that ask the
-- FPGA for them and wait for that interrupt. The handler takes no lock, so that its halves may come in
-- anywhere: they are an argument of the ioctls, as is the value that `wait_event_interruptible_timeout`
-- returns. Copying the data, in the handler and in the ioctl, is one step. A command
-- is `none` where `copy_from_user` fails, and `copied` says whether `copy_to_user` succeeds.
pub mod Fresh
use ravenna_fpga_drivers.Common.{
  ℕ, zero, suc, ◌+◌, ◌-◌, ◌%◌, ◌^◌, ◌≡◌, ◌≢◌, Bool, true, false, not, Option, none, some, List, [],
  ◌∷◌, ltb, ◌==◌, if◌then◌else◌,
}
use ravenna_fpga_drivers.Kernel.{Result, ok, err, Errno, einval, efault, etimedout, number}
use ravenna_fpga_drivers.StreamDevice.RtcpData.{
  RtcpRxDataFpga, RtcpTxDataFpga, RtcpRxData, RtcpTxData, parse_rtcp_rx_data, parse_rtcp_tx_data,
}

-- `priv->rtcp_rx` or `priv->rtcp_tx`, with the page that the FPGA was asked for; `rtcp_data` is `data`.
pub record Rtcp (F : Type 0) : Type 0 where
  pub ready : Bool
  pub rtcp_data : F
  pub page_select : ℕ

-- `struct ra_sd_read_rtcp_rx_stat_cmd` or the one for TX.
pub record ReadRtcpStatCmd (D : Type 0) : Type 0 where
  pub index : ℕ
  pub timeout_ms : ℕ
  pub rtcp_data : D

-- The halves of the interrupt handler: it reads the data of the FPGA, and sets the flag.
pub data Half (F : Type 0) : Type 0 where
  fetch : F → Half F
  set_ready : Half F

-- What happens during an ioctl, in order: between the reset of the flag and the selection of the page,
-- from there to the end of the wait, and from there to the use of the data; and what the wait returns.
pub record Wait (F : Type 0) : Type 0 where
  pub early : List (Half F)
  pub arrivals : List (Half F)
  pub late : List (Half F)
  pub returned : Result ℕ

-- An ioctl's result, the state, and the command that was copied back to user space.
abbrev pub Reading : Type 0 → Type 0 → Type 0
Reading F D = Result ℕ × Rtcp F × Option (ReadRtcpStatCmd D)

-- A half of `rtcp_rx_irq` or `rtcp_tx_irq`, with the data that it reads from the FPGA.
abbrev pub half : {F : Type 0} → Rtcp F → Half F → Rtcp F
half r (fetch fpga) = record r { rtcp_data = fpga }
half r set_ready = record r { ready = true }

abbrev pub halves : {F : Type 0} → Rtcp F → List (Half F) → Rtcp F
halves r [] = r
halves r (e ∷ rest) = halves (half r e) rest

abbrev pub irq : {F : Type 0} → Rtcp F → F → Rtcp F
irq r fpga = halves r (fetch fpga ∷ set_ready ∷ [])

pub rtcp_rx_irq : Rtcp RtcpRxDataFpga → RtcpRxDataFpga → Rtcp RtcpRxDataFpga
rtcp_rx_irq r fpga = irq r fpga

pub rtcp_tx_irq : Rtcp RtcpTxDataFpga → RtcpTxDataFpga → Rtcp RtcpTxDataFpga
rtcp_tx_irq r fpga = irq r fpga

-- `cmd.timeout_ms -= elapsed`, on a `__u32`.
abbrev pub minus_u32 : ℕ → ℕ → ℕ
minus_u32 a b = (a + (2 ^ 32 - b % 2 ^ 32)) % 2 ^ 32

-- The flag is reset.
abbrev pub reset_ready : {F : Type 0} → Rtcp F → Rtcp F
reset_ready r = record r { ready = false }

-- The page is selected.
abbrev pub select_page : {F : Type 0} → ℕ → Rtcp F → Rtcp F
select_page index r = record r { page_select = index }

module _ {F D : Type 0} (parse : F → D) (jiffies_to_msecs : ℕ → ℕ) where
  -- After the wait, with the state `r` in which the data are used. The number of jiffies that are left
  -- is cut to an `int`.
  unfoldable pub report : Rtcp F → ReadRtcpStatCmd D → Result ℕ → Bool → Reading F D
  report r cmd (err e) copied = (err e, r, none)
  report r cmd (ok jiffies) copied =
      let left = jiffies % 2 ^ 32 in
      if left == 0
      then (err etimedout, r, none)
      else if not (ltb left (2 ^ 31))
      then (err (number (2 ^ 32 - left)), r, none)
      else if copied
      then (
        ok 0,
        r,
        some (record {
          index = cmd.index;
          timeout_ms = minus_u32 cmd.timeout_ms (jiffies_to_msecs left);
          rtcp_data = parse r.rtcp_data;
        }),
      )
      else (err efault, r, none)

  unfoldable pub request : Rtcp F → ReadRtcpStatCmd D → Wait F → Bool → Reading F D
  request r cmd wait copied =
      let selected = select_page cmd.index (halves (reset_ready r) wait.early) in
      report (halves (halves selected wait.arrivals) wait.late) cmd wait.returned copied

  unfoldable pub read_rtcp_stat :
      ℕ → Rtcp F → ℕ → Option (ReadRtcpStatCmd D) → Wait F → Bool → Reading F D
  read_rtcp_stat sizeof_cmd r size user wait copied =
      if not (size == sizeof_cmd) then (err einval, r, none) else elim user [
        | none ↦ (err efault, r, none)
        | some cmd ↦ if ltb 127 cmd.index then (err einval, r, none) else request r cmd wait copied
      ]

abbrev pub sizeof_read_rtcp_rx_stat_cmd : ℕ
sizeof_read_rtcp_rx_stat_cmd = 92

abbrev pub sizeof_read_rtcp_tx_stat_cmd : ℕ
sizeof_read_rtcp_tx_stat_cmd = 28

unfoldable pub read_rtcp_rx_stat_ioctl :
    (ℕ → ℕ)
    → Rtcp RtcpRxDataFpga
    → ℕ
    → Option (ReadRtcpStatCmd RtcpRxData)
    → Wait RtcpRxDataFpga
    → Bool
    → Reading RtcpRxDataFpga RtcpRxData
read_rtcp_rx_stat_ioctl jiffies_to_msecs =
    read_rtcp_stat parse_rtcp_rx_data jiffies_to_msecs sizeof_read_rtcp_rx_stat_cmd

pub read_rtcp_tx_stat_ioctl :
    (ℕ → ℕ)
    → Rtcp RtcpTxDataFpga
    → ℕ
    → Option (ReadRtcpStatCmd RtcpTxData)
    → Wait RtcpTxDataFpga
    → Bool
    → Reading RtcpTxDataFpga RtcpTxData
read_rtcp_tx_stat_ioctl jiffies_to_msecs =
    read_rtcp_stat parse_rtcp_tx_data jiffies_to_msecs sizeof_read_rtcp_tx_stat_cmd
