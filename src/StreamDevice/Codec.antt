-- ===== src/StreamDevice/Codec.antt =====
-- modules/stream-device/codec.h and rtp.h. `none` is a BUG().
use ravenna_fpga_drivers.Common.{
  ℕ, ◌≤◌, ◌<◌, ◌≡◌, ◌↔◌, ◌⊎◌, inl, inr, ◌&&◌, ◌||◌, not, Option, none, some, arith, Option-cases,
  ◌==◌, leb, if◌then◌else◌,
}
use ravenna_fpga_drivers.Kernel.{Result, ok, err, einval}
use ravenna_fpga_drivers.Uapi.{codec_am824, codec_l32, codec_l24, codec_l16, codec_max}

unfoldable pub fpga_code : ℕ → Option ℕ
fpga_code codec =
    if codec == codec_am824
    then some 0xa8
    else if codec == codec_l32
    then some 0x20
    else if codec == codec_l24
    then some 0x18
    else if codec == codec_l16
    then some 0x10
    else none

unfoldable pub sample_length : ℕ → Option ℕ
sample_length codec =
    if codec == codec_am824
    then some 8
    else if codec == codec_l32
    then some 4
    else if codec == codec_l24
    then some 3
    else if codec == codec_l16
    then some 2
    else none

-- RFC 3550
unfoldable pub validate_rtp_payload_type : ℕ → ℕ → ℕ → Result ℕ
validate_rtp_payload_type rtp_payload_type num_channels codec =
    if rtp_payload_type == 10
    then if not (num_channels == 2) || not (codec == codec_l16) then err einval else ok 0
    else if rtp_payload_type == 11
    then if not (num_channels == 1) || not (codec == codec_l16) then err einval else ok 0
    else if leb 95 rtp_payload_type && leb rtp_payload_type 127
    then ok 0
    else err einval

pub fpga_code-defined : (codec : ℕ) → codec < codec_max → (c : ℕ) × (fpga_code codec ≡ some c)
unfolding fpga_code
fpga_code-defined codec h = elim (Option-cases (fpga_code codec)) [
  | inl e ↦ absurd (ground arith)
  | inr found ↦ found
]

pub sample_length-defined :
    (codec : ℕ) → codec < codec_max → (c : ℕ) × (sample_length codec ≡ some c)
unfolding sample_length
sample_length-defined codec h = elim (Option-cases (sample_length codec)) [
  | inl e ↦ absurd (ground arith)
  | inr found ↦ found
]

-- The payload types that the device takes: a dynamic one, or 16-bit PCM in stereo or mono.
abbrev pub PayloadAllowed : ℕ → ℕ → ℕ → Type 0
PayloadAllowed pt n codec =
    ((95 ≤ pt) × (pt ≤ 127))
    ⊎ ((pt ≡ 10) × (n ≡ 2) × (codec ≡ codec_l16))
    ⊎ ((pt ≡ 11) × (n ≡ 1) × (codec ≡ codec_l16))

-- A payload type is accepted exactly if it is dynamic (95 to 127), or one of the two static types
-- for 16-bit PCM (10 and 11) with the number of channels that it fixes (2 and 1).
pub validate_rtp_payload_type_iff :
    (pt n codec : ℕ) → (validate_rtp_payload_type pt n codec ≡ ok 0) ↔ PayloadAllowed pt n codec
unfolding validate_rtp_payload_type
validate_rtp_payload_type_iff pt n codec = (λ h. ground arith, λ h. ground arith)

-- The check has one value on success.
pub validate_rtp_payload_type_zero :
    (pt n codec x : ℕ)
    → validate_rtp_payload_type pt n codec ≡ ok x
    → validate_rtp_payload_type pt n codec ≡ ok 0
unfolding validate_rtp_payload_type
validate_rtp_payload_type_zero pt n codec x h = ground arith
