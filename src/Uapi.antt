-- ===== src/Uapi.antt =====
-- include/uapi/ravenna: the types that user space and the stream device share. Fields have the
-- source's names; integers are numbers below their width, `__bool` and `__be` fields the raw value.
use ravenna_fpga_drivers.Common.{ℕ, List, ℤ}

abbrev pub codec_am824 : ℕ
codec_am824 = 0

abbrev pub codec_l32 : ℕ
codec_l32 = 1

abbrev pub codec_l24 : ℕ
codec_l24 = 2

abbrev pub codec_l16 : ℕ
codec_l16 = 3

abbrev pub codec_max : ℕ
codec_max = 4

abbrev pub max_ethernet_packet_size : ℕ
max_ethernet_packet_size = 1460

abbrev pub max_channels : ℕ
max_channels = 256

pub record Info : Type 0 where
  pub max_tracks : ℕ
  pub max_rx_streams : ℕ
  pub max_tx_streams : ℕ

pub record RxStreamInterface : Type 0 where
  pub destination_ip : ℕ
  pub destination_port : ℕ

pub record RxStream : Type 0 where
  pub primary : RxStreamInterface
  pub secondary : RxStreamInterface
  pub sync_source : ℕ
  pub vlan_tagged : ℕ
  pub hitless_protection : ℕ
  pub synchronous : ℕ
  pub rtp_filter : ℕ
  pub codec : ℕ
  pub rtp_payload_type : ℕ
  pub active : ℕ
  pub vlan_tag : ℕ
  pub jitter_buffer_margin : ℕ
  pub rtp_offset : ℕ
  pub rtp_ssrc : ℕ
  pub num_channels : ℕ
  pub tracks : List ℤ

pub record AddRxStreamCmd : Type 0 where
  pub version : ℕ
  pub stream : RxStream

pub record UpdateRxStreamCmd : Type 0 where
  pub version : ℕ
  pub index : ℕ
  pub stream : RxStream

pub record DeleteRxStreamCmd : Type 0 where
  pub version : ℕ
  pub index : ℕ

-- `destination_mac` has six bytes.
pub record TxStreamInterface : Type 0 where
  pub destination_ip : ℕ
  pub source_ip : ℕ
  pub destination_port : ℕ
  pub source_port : ℕ
  pub vlan_tag : ℕ
  pub destination_mac : List ℕ

pub record TxStream : Type 0 where
  pub primary : TxStreamInterface
  pub secondary : TxStreamInterface
  pub vlan_tagged : ℕ
  pub multicast : ℕ
  pub use_primary : ℕ
  pub use_secondary : ℕ
  pub codec : ℕ
  pub rtp_payload_type : ℕ
  pub next_rtp_tx_time : ℕ
  pub ttl : ℕ
  pub dscp_tos : ℕ
  pub num_samples : ℕ
  pub active : ℕ
  pub next_rtp_sequence_num : ℕ
  pub num_channels : ℕ
  pub rtp_offset : ℕ
  pub rtp_ssrc : ℕ
  pub tracks : List ℤ

pub record AddTxStreamCmd : Type 0 where
  pub version : ℕ
  pub stream : TxStream

pub record UpdateTxStreamCmd : Type 0 where
  pub version : ℕ
  pub index : ℕ
  pub stream : TxStream

pub record DeleteTxStreamCmd : Type 0 where
  pub version : ℕ
  pub index : ℕ

-- The sizes of the commands on the ABI of the Linux ports: every field is aligned to its size.
abbrev pub sizeof_add_rx_stream_cmd : ℕ
sizeof_add_rx_stream_cmd = 556

abbrev pub sizeof_update_rx_stream_cmd : ℕ
sizeof_update_rx_stream_cmd = 560

abbrev pub sizeof_delete_rx_stream_cmd : ℕ
sizeof_delete_rx_stream_cmd = 8

abbrev pub sizeof_add_tx_stream_cmd : ℕ
sizeof_add_tx_stream_cmd = 580

abbrev pub sizeof_update_tx_stream_cmd : ℕ
sizeof_update_tx_stream_cmd = 584

abbrev pub sizeof_delete_tx_stream_cmd : ℕ
sizeof_delete_tx_stream_cmd = 8
