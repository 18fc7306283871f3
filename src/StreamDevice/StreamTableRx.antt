-- ===== src/StreamDevice/StreamTableRx.antt =====
-- modules/stream-device/stream-table-rx.c: the entries of RX streams in the FPGA.
pub mod Laws
use ravenna_fpga_drivers.Common.{
  ℕ, ◌-◌, ◌%◌, ◌^◌, Option, none, some, ◌>>=◌, bit_and, bit_or, ◌==◌, if◌then◌else◌,
}
use ravenna_fpga_drivers.Kernel.{Kernel}
use ravenna_fpga_drivers.Uapi.{RxStream}
use ravenna_fpga_drivers.StreamDevice.Codec.{fpga_code}
use ravenna_fpga_drivers.StreamDevice.StreamTable.{
  StreamTable, set_flag, stream_write, stream_read, write_all,
}

abbrev pub misc_vld : ℕ
misc_vld = 0x80

abbrev pub misc_act : ℕ
misc_act = 0x40

abbrev pub misc_sync_source : ℕ
misc_sync_source = 0x20

abbrev pub misc_vlan : ℕ
misc_vlan = 0x10

abbrev pub misc_exec_hash : ℕ
misc_exec_hash = 4

abbrev pub misc_hitless : ℕ
misc_hitless = 2

abbrev pub misc_synchronous : ℕ
misc_synchronous = 1

abbrev pub rtp_filter_bit : ℕ
rtp_filter_bit = 0x8000

-- `struct ra_stream_table_rx_fpga` without `reserved_0` and `rtcp_control`, which stay 0.
pub record RxEntry : Type 0 where
  pub destination_ip_primary : ℕ
  pub destination_ip_secondary : ℕ
  pub destination_port_primary : ℕ
  pub destination_port_secondary : ℕ
  pub num_channels : ℕ
  pub codec : ℕ
  pub misc_control : ℕ
  pub rtp_offset : ℕ
  pub jitter_buffer_margin : ℕ
  pub trtp_base_addr : ℕ
  pub rtp_ssrc : ℕ
  pub rtp_payload_type : ℕ
  pub rtp_filter_vlan_id : ℕ

abbrev pub zero_entry : RxEntry
zero_entry = record {
  destination_ip_primary = 0;
  destination_ip_secondary = 0;
  destination_port_primary = 0;
  destination_port_secondary = 0;
  num_channels = 0;
  codec = 0;
  misc_control = 0;
  rtp_offset = 0;
  jitter_buffer_margin = 0;
  trtp_base_addr = 0;
  rtp_ssrc = 0;
  rtp_payload_type = 0;
  rtp_filter_vlan_id = 0;
}

unfoldable pub misc_control_of : RxStream → ℕ
misc_control_of s = set_flag s.synchronous misc_synchronous (
    set_flag s.hitless_protection misc_hitless (
      set_flag s.vlan_tagged misc_vlan
        (set_flag s.sync_source misc_sync_source (set_flag s.active misc_act 0))))

-- The destinations of both networks: where one has no address, that of the other.
pub record Destinations : Type 0 where
  pub ip_primary : ℕ
  pub ip_secondary : ℕ
  pub port_primary : ℕ
  pub port_secondary : ℕ

-- `if (ip_primary == 0)`
unfoldable pub copy_to_primary : Destinations → Destinations
copy_to_primary d =
    if d.ip_primary == 0
    then record d { ip_primary = d.ip_secondary; port_primary = d.port_secondary }
    else d

-- `if (ip_secondary == 0)`
unfoldable pub copy_to_secondary : Destinations → Destinations
copy_to_secondary d =
    if d.ip_secondary == 0
    then record d { ip_secondary = d.ip_primary; port_secondary = d.port_primary }
    else d

unfoldable pub destinations : Kernel → RxStream → Destinations
unfolding copy_to_primary copy_to_secondary
destinations k s = copy_to_secondary (
    copy_to_primary (record {
      ip_primary = k.be32_to_cpu s.primary.destination_ip;
      ip_secondary = k.be32_to_cpu s.secondary.destination_ip;
      port_primary = k.be16_to_cpu s.primary.destination_port;
      port_secondary = k.be16_to_cpu s.secondary.destination_port;
    }))

-- The entry that `fill` makes, given the FPGA's code of the codec. A wider C integer that is stored
-- in a field of w bits keeps its low bits.
abbrev pub entry_with : Kernel → RxStream → ℕ → ℕ → RxEntry
entry_with k s trtb_index code = record {
  destination_ip_primary = (destinations k s).ip_primary;
  destination_ip_secondary = (destinations k s).ip_secondary;
  destination_port_primary = (destinations k s).port_primary;
  destination_port_secondary = (destinations k s).port_secondary;
  num_channels = s.num_channels % 2 ^ 8;
  codec = code;
  misc_control = misc_control_of s;
  rtp_offset = s.rtp_offset;
  jitter_buffer_margin = s.jitter_buffer_margin;
  trtp_base_addr = trtb_index % 2 ^ 16;
  rtp_ssrc = s.rtp_ssrc;
  rtp_payload_type = s.rtp_payload_type;
  rtp_filter_vlan_id =
      set_flag s.rtp_filter rtp_filter_bit (bit_and (k.be16_to_cpu s.vlan_tag) 0xfff);
}

unfoldable pub fill : Kernel → RxStream → ℕ → Option RxEntry
fill k s trtb_index = do code ← fpga_code s.codec; some (entry_with k s trtb_index code)

-- `fpga.misc_control |= VLD | EXEC_HASH`
abbrev pub activated : RxEntry → RxEntry
activated e = record e { misc_control = bit_or e.misc_control (bit_or misc_vld misc_exec_hash) }

pub set : Kernel → StreamTable RxEntry → RxStream → ℕ → ℕ → Option (StreamTable RxEntry)
set k sttb stream index trtb_index = do
  cleared ← stream_write sttb index zero_entry
  fpga ← fill k stream trtb_index
  filled ← stream_write cleared index fpga
  stream_write filled index (activated fpga)

-- `misc_control &= ~VLD; misc_control &= ~ACT; misc_control |= EXEC_HASH`, on a `__u8`.
abbrev pub deactivated : RxEntry → RxEntry
deactivated e = record e {
  misc_control =
      bit_or (bit_and (bit_and e.misc_control (0xff - misc_vld)) (0xff - misc_act)) misc_exec_hash;
}

pub del : StreamTable RxEntry → ℕ → Option (StreamTable RxEntry)
del sttb index = do fpga ← stream_read sttb index; stream_write sttb index (deactivated fpga)

pub reset : StreamTable RxEntry → Option (StreamTable RxEntry)
reset sttb = write_all sttb zero_entry 0 sttb.max_entries
