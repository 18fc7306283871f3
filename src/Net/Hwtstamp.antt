-- ===== src/Net/Hwtstamp.antt =====
-- modules/net/timestamp.c: the ioctls that configure time stamps, and the time stamps of received
-- packets. The registers are the two bits that the ioctls write.
pub mod Laws
use ravenna_fpga_drivers.Common.{
  ℕ, ◌+◌, ◌*◌, ◌/◌, ◌%◌, ◌^◌, Bool, true, false, not, ◌&&◌, ◌||◌, Option, none, some, ltb, ◌==◌,
  if◌then◌else◌,
}
use ravenna_fpga_drivers.Kernel.{Errno, Result, ok, err, einval, efault}
use ravenna_fpga_drivers.Net.TxTs.{TxTs, FpgaTimestamp, start_of_timestamp}

-- What these functions use of `struct ra_net_priv`: PTP_TX_TS_IRQ_AVAILABLE in PP_IRQ_DISABLE,
-- ENABLE_PTP_TIMESTAMPS in PP_CONFIG, and whether the queue of the net device is stopped.
pub record Stamping : Type 0 where
  pub tx_ts : TxTs
  pub rx_ts_enable : Bool
  pub irq_disabled : Bool
  pub timestamps_enabled : Bool
  pub queue_stopped : Bool

-- `struct hwtstamp_config`
pub record Config : Type 0 where
  pub flags : ℕ
  pub tx_type : ℕ
  pub rx_filter : ℕ

-- include/uapi/linux/net_tstamp.h
abbrev pub tx_off : ℕ
tx_off = 0

abbrev pub tx_on : ℕ
tx_on = 1

abbrev pub filter_none : ℕ
filter_none = 0

abbrev pub filter_ptp_v2_l4_event : ℕ
filter_ptp_v2_l4_event = 6

abbrev pub filter_ptp_v2_l4_sync : ℕ
filter_ptp_v2_l4_sync = 7

abbrev pub filter_ptp_v2_l4_delay_req : ℕ
filter_ptp_v2_l4_delay_req = 8

unfoldable pub tx_ts_config : Stamping → Stamping
tx_ts_config priv =
    let on = priv.tx_ts.enable || priv.rx_ts_enable in
    record priv { timestamps_enabled = on; irq_disabled = not on; queue_stopped = false }

unfoldable pub config_of : Stamping → Config
config_of priv = record {
  flags = 0;
  tx_type = if priv.tx_ts.enable then tx_on else tx_off;
  rx_filter = if priv.rx_ts_enable then filter_ptp_v2_l4_event else filter_none;
}

-- What user space finds in its structure; `can_write` says whether copy_to_user succeeds.
pub hwtstamp_get : Bool → Stamping → Result Config
unfolding config_of
hwtstamp_get can_write priv = if can_write then ok (config_of priv) else err efault

abbrev pub is_tx_type : ℕ → Bool
is_tx_type t = t == tx_off || t == tx_on

abbrev pub is_l4_filter : ℕ → Bool
is_l4_filter f =
    f == filter_ptp_v2_l4_event || f == filter_ptp_v2_l4_sync || f == filter_ptp_v2_l4_delay_req

-- The two switches that apply a configuration.
unfoldable pub set_tx : Stamping → ℕ → Stamping
unfolding tx_ts_config
set_tx priv t =
    if t == tx_off
    then tx_ts_config (record priv { tx_ts = record priv.tx_ts { enable = false } })
    else if t == tx_on
    then tx_ts_config (record priv { tx_ts = record priv.tx_ts { enable = true } })
    else priv

unfoldable pub set_rx : Stamping → Config → Stamping × Config
unfolding tx_ts_config
set_rx priv config =
    if config.rx_filter == filter_none
    then (tx_ts_config (record priv { rx_ts_enable = false }), config)
    else if is_l4_filter config.rx_filter
    then (
      tx_ts_config (record priv { rx_ts_enable = true }),
      record config { rx_filter = filter_ptp_v2_l4_event },
    )
    else (priv, config)

-- ra_net_hwtstamp_ioctl. `input` is what copy_from_user yields, `none` if it fails.
pub hwtstamp_ioctl : Bool → Stamping → Option Config → Stamping × Result Config
unfolding set_tx set_rx
hwtstamp_ioctl can_write priv none = (priv, err efault)
hwtstamp_ioctl can_write priv (some config) =
    if not (config.flags == 0)
    then (priv, err einval)
    else if not (is_tx_type config.tx_type)
    then (priv, err einval)
    else if not (config.rx_filter == filter_none || is_l4_filter config.rx_filter)
    then (priv, err einval)
    else let (priv', config') = set_rx (set_tx priv config.tx_type) config in
      (priv', if can_write then ok config' else err efault)

-- ra_net_rx_apply_timestamp: the `hwtstamp` of a packet after it, as the pattern of its 64 bits. The
-- lower 32 bits of `seconds_hi << 32` are clear, so that the `|` adds.
unfoldable pub rx_apply_timestamp : Stamping → FpgaTimestamp → ℕ → ℕ
rx_apply_timestamp priv ts old =
    if not priv.rx_ts_enable
    then old
    else if not (ts.start_of_ts == start_of_timestamp)
    then old
    else ((ts.seconds_hi * 2 ^ 32 + ts.seconds) * 1_000_000_000 + ts.nanoseconds) % 2 ^ 64

-- ra_net_rx_read_timestamp, with the four words of the FIFO on a little-endian CPU
unfoldable pub rx_read_timestamp : Stamping → (ℕ → ℕ) → ℕ → ℕ
unfolding rx_apply_timestamp
rx_read_timestamp priv words old =
    rx_apply_timestamp priv
      record {
        seconds_hi = words 0 % 65536;
        start_of_ts = words 0 / 65536;
        seconds = words 1;
        nanoseconds = words 2;
        sequence_id = words 3 % 65536;
        reserved = words 3 / 65536;
      }
      old
