-- ===== src/StreamDevice/StreamTableTx.antt =====
-- modules/stream-device/stream-table-tx.c: the entries of TX streams in the FPGA.
pub mod Laws
use ravenna_fpga_drivers.Common.{
  ℕ, ◌+◌, ◌*◌, ◌%◌, ◌^◌, Bool, Option, none, some, List, [], ◌∷◌, ◌>>=◌, bit_or, get_or,
  if◌then◌else◌,
}
use ravenna_fpga_drivers.Kernel.{Kernel}
use ravenna_fpga_drivers.Uapi.{TxStream, TxStreamInterface}
use ravenna_fpga_drivers.StreamDevice.Codec.{fpga_code}
use ravenna_fpga_drivers.StreamDevice.StreamTable.{StreamTable, set_flag, stream_write, write_all}

abbrev pub misc_vld : ℕ
misc_vld = 0x80

abbrev pub misc_act : ℕ
misc_act = 0x40

abbrev pub misc_vlan : ℕ
misc_vlan = 0x10

abbrev pub misc_multicast : ℕ
misc_multicast = 8

abbrev pub misc_sec : ℕ
misc_sec = 2

abbrev pub misc_pri : ℕ
misc_pri = 1

-- `struct ra_stream_table_tx_fpga` without its reserved bytes, which stay 0.
pub record TxEntry : Type 0 where
  pub trtp_base_addr : ℕ
  pub codec : ℕ
  pub misc_control : ℕ
  pub num_channels : ℕ
  pub num_samples : ℕ
  pub destination_ip_primary : ℕ
  pub destination_ip_secondary : ℕ
  pub destination_mac_primary_msb : ℕ
  pub destination_mac_secondary_msb : ℕ
  pub destination_mac_primary_lsb : ℕ
  pub destination_mac_secondary_lsb : ℕ
  pub vlan_tag_primary : ℕ
  pub vlan_tag_secondary : ℕ
  pub ip_total_len : ℕ
  pub dscp_tos : ℕ
  pub ttl : ℕ
  pub source_ip_primary : ℕ
  pub source_ip_secondary : ℕ
  pub destination_port_primary : ℕ
  pub source_port_primary : ℕ
  pub destination_port_secondary : ℕ
  pub source_port_secondary : ℕ
  pub next_rtp_tx_time : ℕ
  pub rtp_payload_type : ℕ
  pub next_rtp_sequence_num : ℕ
  pub rtp_offset : ℕ
  pub rtp_ssrc : ℕ

abbrev pub zero_entry : TxEntry
zero_entry = record {
  trtp_base_addr = 0;
  codec = 0;
  misc_control = 0;
  num_channels = 0;
  num_samples = 0;
  destination_ip_primary = 0;
  destination_ip_secondary = 0;
  destination_mac_primary_msb = 0;
  destination_mac_secondary_msb = 0;
  destination_mac_primary_lsb = 0;
  destination_mac_secondary_lsb = 0;
  vlan_tag_primary = 0;
  vlan_tag_secondary = 0;
  ip_total_len = 0;
  dscp_tos = 0;
  ttl = 0;
  source_ip_primary = 0;
  source_ip_secondary = 0;
  destination_port_primary = 0;
  source_port_primary = 0;
  destination_port_secondary = 0;
  source_port_secondary = 0;
  next_rtp_tx_time = 0;
  rtp_payload_type = 0;
  next_rtp_sequence_num = 0;
  rtp_offset = 0;
  rtp_ssrc = 0;
}

-- `mac[0] << 24 | mac[1] << 16 | mac[2] << 8 | mac[3] << 0`
unfoldable pub mac_msb : List ℕ → ℕ
mac_msb mac =
    bit_or
      (bit_or (bit_or (get_or mac 0 0 * 2 ^ 24) (get_or mac 1 0 * 2 ^ 16)) (get_or mac 2 0 * 2 ^ 8))
      (get_or mac 3 0)

-- `mac[4] << 8 | mac[5] << 0`
unfoldable pub mac_lsb : List ℕ → ℕ
mac_lsb mac = bit_or (get_or mac 4 0 * 2 ^ 8) (get_or mac 5 0)

unfoldable pub misc_control_of : TxStream → ℕ
misc_control_of s = set_flag s.use_secondary misc_sec (
    set_flag s.use_primary misc_pri (
      set_flag s.multicast misc_multicast
        (set_flag s.vlan_tagged misc_vlan (set_flag s.active misc_act 0))))

-- The entry that `fill` makes, given the FPGA's code of the codec. A wider C integer that is stored in
-- a field of w bits keeps its low bits.
abbrev pub entry_with : Kernel → TxStream → ℕ → ℕ → ℕ → TxEntry
entry_with k s trtb_index ip_total_len code = record {
  trtp_base_addr = trtb_index % 2 ^ 16;
  codec = code;
  misc_control = misc_control_of s;
  num_channels = s.num_channels % 2 ^ 8;
  num_samples = s.num_samples;
  destination_ip_primary = k.be32_to_cpu s.primary.destination_ip;
  destination_ip_secondary = k.be32_to_cpu s.secondary.destination_ip;
  destination_mac_primary_msb = mac_msb s.primary.destination_mac;
  destination_mac_secondary_msb = mac_msb s.secondary.destination_mac;
  destination_mac_primary_lsb = mac_lsb s.primary.destination_mac;
  destination_mac_secondary_lsb = mac_lsb s.secondary.destination_mac;
  vlan_tag_primary = k.be16_to_cpu s.primary.vlan_tag;
  vlan_tag_secondary = k.be16_to_cpu s.secondary.vlan_tag;
  ip_total_len = ip_total_len % 2 ^ 16;
  dscp_tos = s.dscp_tos;
  ttl = s.ttl;
  source_ip_primary = k.be32_to_cpu s.primary.source_ip;
  source_ip_secondary = k.be32_to_cpu s.secondary.source_ip;
  destination_port_primary = k.be16_to_cpu s.primary.destination_port;
  source_port_primary = k.be16_to_cpu s.primary.source_port;
  destination_port_secondary = k.be16_to_cpu s.secondary.destination_port;
  source_port_secondary = k.be16_to_cpu s.secondary.source_port;
  next_rtp_tx_time = s.next_rtp_tx_time;
  rtp_payload_type = s.rtp_payload_type;
  next_rtp_sequence_num = s.next_rtp_sequence_num;
  rtp_offset = s.rtp_offset;
  rtp_ssrc = s.rtp_ssrc;
}

unfoldable pub fill : Kernel → TxStream → ℕ → ℕ → Option TxEntry
fill k s trtb_index ip_total_len = do
  code ← fpga_code s.codec
  some (entry_with k s trtb_index ip_total_len code)

-- `fpga.misc_control |= RA_STREAM_TABLE_TX_MISC_VLD`
abbrev pub valid : TxEntry → TxEntry
valid e = record e { misc_control = bit_or e.misc_control misc_vld }

pub set : Kernel → StreamTable TxEntry → TxStream → ℕ → ℕ → ℕ → Bool → Option (StreamTable TxEntry)
set k sttb stream index trtb_index ip_total_len invalidate = do
  fpga ← fill k stream trtb_index ip_total_len
  sttb' ← if invalidate then stream_write sttb index fpga else some sttb
  stream_write sttb' index (valid fpga)

pub del : StreamTable TxEntry → ℕ → Option (StreamTable TxEntry)
del sttb index = stream_write sttb index zero_entry

pub reset : StreamTable TxEntry → Option (StreamTable TxEntry)
reset sttb = write_all sttb zero_entry 0 sttb.max_entries
