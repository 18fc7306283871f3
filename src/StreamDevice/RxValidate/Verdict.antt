-- ===== src/StreamDevice/RxValidate/Verdict.antt =====
-- Which RX streams `validate_stream` accepts.
use ravenna_fpga_drivers.Common.{
  ℕ, zero, suc, ◌+◌, ◌≤◌, ◌<◌, ◌≡◌, ◌≢◌, refl, ◌⊎◌, ◌↔◌, inl, inr, Bool, true, false, Option, some,
  List, ℤ, pos, arith, length, get_or, get_elem?-eq-get_or, leb_ℤ, to_s16, ◌==◌, Bool-cases, subst,
}
use ravenna_fpga_drivers.Kernel.{Kernel, Result, ok, err, Errno, einval, Result-cases}
use ravenna_fpga_drivers.Uapi.{RxStream, codec_max, max_channels}
use ravenna_fpga_drivers.StreamDevice.Codec.{
  validate_rtp_payload_type, validate_rtp_payload_type_zero,
}
use ravenna_fpga_drivers.StreamDevice.RxFields.{validate_stream_interface, validate_fields}
use ravenna_fpga_drivers.StreamDevice.RxValidate.{tracks_below_from, validate_stream}

-- What is accepted of the fields other than the tracks.
pub record FieldsAccepted (k : Kernel) (s : RxStream) : Type 0 where
  pub destination : (s.primary.destination_ip ≢ 0) ⊎ (s.secondary.destination_ip ≢ 0)
  pub primary : s.primary.destination_ip ≢ 0 → s.primary.destination_port ≢ 0
  pub secondary : s.secondary.destination_ip ≢ 0 → s.secondary.destination_port ≢ 0
  pub tag : s.vlan_tagged ≢ 0 → k.be16_to_cpu s.vlan_tag ≤ 4095
  pub codec : s.codec < codec_max
  pub channels : s.num_channels ≤ max_channels
  pub payload : validate_rtp_payload_type s.rtp_payload_type s.num_channels s.codec ≡ ok 0

-- The tracks of `left` channels from `i` on are below the limit.
abbrev pub Below : ℤ → List ℤ → ℕ → ℕ → Type 0
Below limit tracks i left =
    (j : ℕ) → i ≤ j → j < i + left → leb_ℤ limit (get_or tracks j (pos 0)) ≡ false

fields_sound : (k : Kernel) (s : RxStream) (x : ℕ) → validate_fields k s ≡ ok x → FieldsAccepted k s
unfolding validate_fields validate_stream_interface
fields_sound k s x h = record {
  destination = elim (Bool-cases (s.primary.destination_ip == 0)) [
    | inl e ↦ inr (ground arith)
    | inr e ↦ inl (ground arith)
  ];
  primary = λ ne. ground arith;
  secondary = λ ne. ground arith;
  tag = λ ne. ground arith;
  codec = ground arith;
  channels = ground arith;
  payload =
      elim (Result-cases (validate_rtp_payload_type s.rtp_payload_type s.num_channels s.codec)) [
        | inl (e, failed) ↦ absurd (ground arith)
        | inr (y, passed) ↦ validate_rtp_payload_type_zero _ _ _ y passed
      ];
}

fields_complete : (k : Kernel) (s : RxStream) → FieldsAccepted k s → validate_fields k s ≡ ok 0
unfolding validate_fields validate_stream_interface
fields_complete k s a = ground (arith, a.destination, a.primary, a.secondary, a.tag, a.payload)

tracks-Below_iff :
    (limit : ℤ) (tracks : List ℤ) (i left : ℕ)
    → i + left ≤ length tracks
    → (b : Bool) × (tracks_below_from limit tracks i left ≡ some b)
      × ((b ≡ true) ↔ Below limit tracks i left)
unfolding tracks_below_from
tracks-Below_iff limit tracks i zero room =
    (true, refl, (λ h j lo hi. absurd (omega arith), λ h. refl))
tracks-Below_iff limit tracks i (suc left) room =
    let (b, done, iff) = tracks-Below_iff limit tracks (suc i) left (omega arith) in
    elim (Bool-cases (leb_ℤ limit (get_or tracks i (pos 0)))) [
      | inl above ↦ (
        false,
        rw (get_elem?-eq-get_or tracks i (pos 0) (omega arith), above),
        (λ h. absurd (ground arith), λ h. absurd (ground (arith, h i (omega arith) (omega arith)))),
      )
      | inr below ↦ (
        b,
        rw (get_elem?-eq-get_or tracks i (pos 0) (omega arith), below) done,
        (
          λ h j lo hi. elim (Bool-cases (i == j)) [
            | inl e ↦
                subst (λ p. leb_ℤ limit (get_or tracks p (pos 0)) ≡ false) {x = i} (ground arith)
                  below
            | inr e ↦ iff.0 h j (ground arith) (omega arith)
          ],
          λ h. iff.1 (λ j lo hi. h j (omega arith) (omega arith)),
        ),
      )
    ]

-- Accepted fields, and the tracks of all channels below the limit.
abbrev pub Accepted : Kernel → ℕ → RxStream → Type 0
Accepted k max_tracks s = FieldsAccepted k s × Below (to_s16 max_tracks) s.tracks 0 s.num_channels

-- The verdict on a stream.
pub data Verdict (k : Kernel) (max_tracks : ℕ) (s : RxStream) (o : Option (Result ℕ)) : Type 0 where
  rejects :
      (e : Errno) → o ≡ some (err e) → (Accepted k max_tracks s → ⊥) → Verdict k max_tracks s o
  accepts : o ≡ some (ok 0) → Accepted k max_tracks s → Verdict k max_tracks s o

-- An RX stream, whose array of tracks has its 256 entries, is accepted exactly if it has a
-- destination, each destination has a port, the VLAN tag of a tagged stream is at most 4095, the codec
-- is known, it has at most 256 channels, the payload type suits the codec and the channels, and the
-- track of each channel is below the number of tracks; otherwise an error is returned.
pub validate_stream-Verdict :
    (k : Kernel) (max_tracks : ℕ) (s : RxStream)
    → length s.tracks ≡ max_channels
    → Verdict k max_tracks s (validate_stream k max_tracks s)
unfolding validate_stream
validate_stream-Verdict k m s full = elim (Result-cases (validate_fields k s)) [
  | inl (e, failed) ↦
      rejects e (rw (failed, validate_stream))
        (λ a. absurd (ground (arith, fields_complete k s a.0)))
  | inr (x, passed) ↦
      let a = fields_sound k s x passed in
      let (b, done, iff) =
        tracks-Below_iff (to_s16 m) s.tracks 0 s.num_channels (omega (arith, a.channels)) in
      elim (Bool-cases b) [
        | inl good ↦ accepts (rw (passed, validate_stream, done, good)) (a, iff.0 good)
        | inr bad ↦
            rejects einval (rw (passed, validate_stream, done, bad))
              (λ good. absurd (ground (arith, iff.1 good.1)))
      ]
]
