-- ===== src/StreamDevice/RtcpData.antt =====
-- modules/stream-device/rtcp.h, the RTCP types of include/uapi/ravenna/stream-device.h, and the parsers
-- of modules/stream-device/rtcp.c. A result that is stored in a narrower field keeps its low bits.
pub mod Fields
use ravenna_fpga_drivers.Common.{ℕ, ◌/◌, ◌%◌, ◌^◌, bit_and}

-- `struct ra_sd_rtcp_rx_data_fpga`
pub record RtcpRxDataFpga : Type 0 where
  pub rtp_timestamp : ℕ
  pub pri_base_sequence_nr : ℕ
  pub pri_misordered_pkts : ℕ
  pub pri_extended_max_sequence_nr : ℕ
  pub pri_received_pkts : ℕ
  pub pri_estimated_jitter : ℕ
  pub pri_peak_jitter : ℕ
  pub sec_base_sequence_nr : ℕ
  pub sec_misordered_pkts : ℕ
  pub sec_extended_max_sequence_nr : ℕ
  pub sec_received_pkts : ℕ
  pub sec_estimated_jitter : ℕ
  pub sec_peak_jitter : ℕ
  pub pri_current_offset_estimation : ℕ
  pub pri_last_transit_time : ℕ
  pub pri_last_ssrc : ℕ
  pub pri_buffer_margin_max : ℕ
  pub pri_buffer_margin_min : ℕ
  pub pri_early_pkts : ℕ
  pub pri_late_pkts : ℕ
  pub sec_current_offset_estimation : ℕ
  pub sec_last_transit_time : ℕ
  pub sec_last_ssrc : ℕ
  pub sec_buffer_margin_max : ℕ
  pub sec_buffer_margin_min : ℕ
  pub sec_early_pkts : ℕ
  pub sec_late_pkts : ℕ
  pub flags_1 : ℕ
  pub flags_2 : ℕ

-- `struct ra_sd_rtcp_tx_data_fpga`
pub record RtcpTxDataFpga : Type 0 where
  pub rtp_timestamp : ℕ
  pub pri_sent_pkts : ℕ
  pub pri_sent_rtp_bytes : ℕ
  pub sec_sent_pkts : ℕ
  pub sec_sent_rtp_bytes : ℕ

pub record RtcpRxDataInterface : Type 0 where
  pub misordered_pkts : ℕ
  pub base_sequence_nr : ℕ
  pub extended_max_sequence_nr : ℕ
  pub received_pkts : ℕ
  pub peak_jitter : ℕ
  pub estimated_jitter : ℕ
  pub last_transit_time : ℕ
  pub current_offset_estimation : ℕ
  pub last_ssrc : ℕ
  pub buffer_margin_min : ℕ
  pub buffer_margin_max : ℕ
  pub late_pkts : ℕ
  pub early_pkts : ℕ
  pub timeout_counter : ℕ
  pub error : ℕ
  pub playing : ℕ

pub record RtcpRxData : Type 0 where
  pub rtp_timestamp : ℕ
  pub dev_state : ℕ
  pub rtp_payload_id : ℕ
  pub offset_estimation : ℕ
  pub path_differential : ℕ
  pub primary : RtcpRxDataInterface
  pub secondary : RtcpRxDataInterface

pub record RtcpTxDataInterface : Type 0 where
  pub sent_pkts : ℕ
  pub sent_rtp_bytes : ℕ

pub record RtcpTxData : Type 0 where
  pub rtp_timestamp : ℕ
  pub primary : RtcpTxDataInterface
  pub secondary : RtcpTxDataInterface

unfoldable pub parse_rtcp_rx_data : RtcpRxDataFpga → RtcpRxData
parse_rtcp_rx_data from = record {
  rtp_timestamp = from.rtp_timestamp;
  dev_state = bit_and from.flags_1 0x7;
  rtp_payload_id = from.flags_1 / 2 ^ 25 % 2 ^ 8;
  offset_estimation = bit_and (from.flags_1 / 2 ^ 7) 0x1ffff % 2 ^ 16;
  path_differential = bit_and (from.flags_2 / 2 ^ 8) 0x7ffff;
  primary = record {
    misordered_pkts = from.pri_misordered_pkts;
    base_sequence_nr = from.pri_base_sequence_nr;
    extended_max_sequence_nr = from.pri_extended_max_sequence_nr;
    received_pkts = from.pri_received_pkts;
    peak_jitter = from.pri_peak_jitter;
    estimated_jitter = from.pri_estimated_jitter;
    last_transit_time = from.pri_last_transit_time;
    current_offset_estimation = from.pri_current_offset_estimation;
    last_ssrc = from.pri_last_ssrc;
    buffer_margin_min = from.pri_buffer_margin_min;
    buffer_margin_max = from.pri_buffer_margin_max;
    late_pkts = from.pri_late_pkts;
    early_pkts = from.pri_early_pkts;
    timeout_counter = bit_and from.flags_2 0xf;
    error = bit_and from.flags_1 0x20;
    playing = bit_and from.flags_1 8;
  };
  secondary = record {
    misordered_pkts = from.sec_misordered_pkts;
    base_sequence_nr = from.sec_base_sequence_nr;
    extended_max_sequence_nr = from.sec_extended_max_sequence_nr;
    received_pkts = from.sec_received_pkts;
    peak_jitter = from.sec_peak_jitter;
    estimated_jitter = from.sec_estimated_jitter;
    last_transit_time = from.sec_last_transit_time;
    current_offset_estimation = from.sec_current_offset_estimation;
    last_ssrc = from.sec_last_ssrc;
    buffer_margin_min = from.sec_buffer_margin_min;
    buffer_margin_max = from.sec_buffer_margin_max;
    late_pkts = from.sec_late_pkts;
    early_pkts = from.sec_early_pkts;
    timeout_counter = bit_and (from.flags_2 / 2 ^ 4) 0xf;
    error = bit_and from.flags_1 0x40;
    playing = bit_and from.flags_1 0x10;
  };
}

unfoldable pub parse_rtcp_tx_data : RtcpTxDataFpga → RtcpTxData
parse_rtcp_tx_data from = record {
  rtp_timestamp = from.rtp_timestamp;
  primary = record { sent_pkts = from.pri_sent_pkts; sent_rtp_bytes = from.pri_sent_rtp_bytes };
  secondary = record { sent_pkts = from.sec_sent_pkts; sent_rtp_bytes = from.sec_sent_rtp_bytes };
}
