-- ===== src/StreamDevice/TxValidate.antt =====
-- modules/stream-device/tx.c: the checks on a TX stream that user space asks for.
pub mod Accepts
use ravenna_fpga_drivers.Common.{
  ℕ, ◌+◌, ◌*◌, Bool, true, not, ◌&&◌, ◌||◌, Option, List, [], ◌∷◌, ℤ, leb, ltb, leb_ℤ, to_s16, ◌==◌,
  if◌then◌else◌,
}
use ravenna_fpga_drivers.Kernel.{Kernel, Result, ok, err, einval, require, ◌>>=◌, ◌>>◌}
use ravenna_fpga_drivers.Uapi.{TxStream, TxStreamInterface, codec_max}
use ravenna_fpga_drivers.StreamDevice.Codec.{validate_rtp_payload_type}

unfoldable pub validate_stream_interface : Kernel → TxStreamInterface → ℕ → Result (Unit {0})
validate_stream_interface k iface vlan = do
  require
      (not (
        iface.destination_ip == 0
        || iface.destination_port == 0
        || iface.source_ip == 0
        || iface.source_port == 0))
      einval
  require (not (not (vlan == 0) && ltb 4095 (k.be16_to_cpu iface.vlan_tag))) einval

-- No track of the list is at or above `limit`.
unfoldable pub tracks_below : ℤ → List ℤ → Bool
tracks_below limit [] = true
tracks_below limit (track ∷ tracks) = not (leb_ℤ limit track) && tracks_below limit tracks

unfoldable pub validate_stream : Kernel → ℕ → TxStream → Result (Unit {0})
validate_stream k max_tracks s = do
  require (not (s.use_primary == 0 && s.use_secondary == 0)) einval
  if s.use_primary == 0 then ok tt else validate_stream_interface k s.primary s.vlan_tagged
  if s.use_secondary == 0 then ok tt else validate_stream_interface k s.secondary s.vlan_tagged
  require (ltb s.dscp_tos 64) einval
  require (not (s.rtp_ssrc == 0)) einval
  _ ← validate_rtp_payload_type s.rtp_payload_type s.num_channels s.codec
  require (ltb s.codec codec_max) einval
  require (tracks_below (to_s16 max_tracks) s.tracks) einval
