-- ===== src/StreamDevice/TxValidate/Accepts.antt =====
-- Which TX streams `validate_stream` accepts.
use ravenna_fpga_drivers.Common.{
  ℕ, ◌≤◌, ◌<◌, ◌≡◌, ◌≢◌, refl, ◌⊎◌, ◌↔◌, inl, inr, true, false, List, [], ◌∷◌, ℤ, arith, leb_ℤ,
  to_s16, ◌==◌, Bool-cases,
}
use ravenna_fpga_drivers.Kernel.{Kernel, ok, Result-cases}
use ravenna_fpga_drivers.Uapi.{TxStream, TxStreamInterface, codec_max}
use ravenna_fpga_drivers.StreamDevice.Codec.{
  validate_rtp_payload_type, validate_rtp_payload_type_zero,
}
use ravenna_fpga_drivers.StreamDevice.TxValidate.{
  validate_stream_interface, tracks_below, validate_stream,
}

pub record InterfaceAccepted (k : Kernel) (iface : TxStreamInterface) (vlan : ℕ) : Type 0 where
  pub destination_ip : iface.destination_ip ≢ 0
  pub destination_port : iface.destination_port ≢ 0
  pub source_ip : iface.source_ip ≢ 0
  pub source_port : iface.source_port ≢ 0
  pub tag : vlan ≢ 0 → k.be16_to_cpu iface.vlan_tag ≤ 4095

-- Every track is below the limit.
abbrev pub AllBelow : ℤ → List ℤ → Type 0
AllBelow limit [] = Unit {0}
AllBelow limit (track ∷ tracks) = (leb_ℤ limit track ≡ false) × AllBelow limit tracks

pub record Accepted (k : Kernel) (max_tracks : ℕ) (s : TxStream) : Type 0 where
  pub networks : (s.use_primary ≢ 0) ⊎ (s.use_secondary ≢ 0)
  pub primary : s.use_primary ≢ 0 → InterfaceAccepted k s.primary s.vlan_tagged
  pub secondary : s.use_secondary ≢ 0 → InterfaceAccepted k s.secondary s.vlan_tagged
  pub tos : s.dscp_tos < 64
  pub ssrc : s.rtp_ssrc ≢ 0
  pub payload : validate_rtp_payload_type s.rtp_payload_type s.num_channels s.codec ≡ ok 0
  pub codec : s.codec < codec_max
  pub tracks : AllBelow (to_s16 max_tracks) s.tracks

interface_sound :
    (k : Kernel) (i : TxStreamInterface) (vlan : ℕ)
    → validate_stream_interface k i vlan ≡ ok tt
    → InterfaceAccepted k i vlan
unfolding validate_stream_interface
interface_sound k i vlan h = ground arith

interface_complete :
    (k : Kernel) (i : TxStreamInterface) (vlan : ℕ)
    → InterfaceAccepted k i vlan
    → validate_stream_interface k i vlan ≡ ok tt
unfolding validate_stream_interface
interface_complete k i vlan a = ground (arith, a.tag)

tracks_below_iff :
    (limit : ℤ) (tracks : List ℤ) → (tracks_below limit tracks ≡ true) ↔ AllBelow limit tracks
unfolding tracks_below
tracks_below_iff limit [] = (λ h. tt, λ h. refl)
tracks_below_iff limit (t ∷ tracks) =
    let ih = tracks_below_iff limit tracks in
    (λ h. (ground arith, ih.0 (ground arith)), λ h. ground (arith, ih.1 h.1))

sound :
    (k : Kernel) (max_tracks : ℕ) (s : TxStream)
    → validate_stream k max_tracks s ≡ ok tt
    → Accepted k max_tracks s
unfolding validate_stream
sound k m s h = record {
  networks = elim (Bool-cases (s.use_primary == 0)) [
    | inl e ↦ inr (ground arith)
    | inr e ↦ inl (ground arith)
  ];
  primary = λ ne. interface_sound k s.primary s.vlan_tagged (ground arith);
  secondary = λ ne. interface_sound k s.secondary s.vlan_tagged (ground arith);
  tos = ground arith;
  ssrc = ground arith;
  payload =
      elim (Result-cases (validate_rtp_payload_type s.rtp_payload_type s.num_channels s.codec)) [
        | inl (e, failed) ↦ absurd (ground arith)
        | inr (x, passed) ↦ validate_rtp_payload_type_zero _ _ _ x passed
      ];
  codec = ground arith;
  tracks = (tracks_below_iff (to_s16 m) s.tracks).0 (ground arith);
}

complete :
    (k : Kernel) (max_tracks : ℕ) (s : TxStream)
    → Accepted k max_tracks s
    → validate_stream k max_tracks s ≡ ok tt
unfolding validate_stream
complete k m s a = ground (
  arith,
  interface_complete k s.primary s.vlan_tagged,
  interface_complete k s.secondary s.vlan_tagged,
  a.primary,
  a.secondary,
  a.payload,
  (tracks_below_iff (to_s16 m) s.tracks).1 a.tracks,
)

-- A TX stream is accepted exactly if it uses a network, each network in use has both addresses and
-- both ports set and (if tagged) a VLAN tag of at most 4095, the TOS is below 64, the SSRC is not 0,
-- the payload type suits the codec and the number of channels, the codec is known, and all entries of
-- tracks, the unused ones included, are below the number of tracks.
pub validate_stream_iff :
    (k : Kernel) (max_tracks : ℕ) (s : TxStream)
    → (validate_stream k max_tracks s ≡ ok tt) ↔ Accepted k max_tracks s
validate_stream_iff k max_tracks s = (sound k max_tracks s, complete k max_tracks s)
