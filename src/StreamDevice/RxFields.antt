-- ===== src/StreamDevice/RxFields.antt =====
-- modules/stream-device/rx.c: the checks on an RX stream, up to the loop over its tracks.
use ravenna_fpga_drivers.Common.{ℕ, not, ◌&&◌, ltb, ◌==◌}
use ravenna_fpga_drivers.Kernel.{Kernel, Result, einval, require, ◌>>◌}
use ravenna_fpga_drivers.Uapi.{RxStream, RxStreamInterface, codec_max, max_channels}
use ravenna_fpga_drivers.StreamDevice.Codec.{validate_rtp_payload_type}

unfoldable pub validate_stream_interface : RxStreamInterface → Result (Unit {0})
validate_stream_interface iface =
    require (not (not (iface.destination_ip == 0) && iface.destination_port == 0)) einval

unfoldable pub validate_fields : Kernel → RxStream → Result ℕ
validate_fields k s = do
  require (not (s.primary.destination_ip == 0 && s.secondary.destination_ip == 0)) einval
  validate_stream_interface s.primary
  validate_stream_interface s.secondary
  require (not (not (s.vlan_tagged == 0) && ltb 4095 (k.be16_to_cpu s.vlan_tag))) einval
  require (ltb s.codec codec_max) einval
  require (not (ltb max_channels s.num_channels)) einval
  validate_rtp_payload_type s.rtp_payload_type s.num_channels s.codec
