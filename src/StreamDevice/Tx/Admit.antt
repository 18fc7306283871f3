-- ===== src/StreamDevice/Tx/Admit.antt =====
-- The checks before the lock of `add` and `update`.
use ravenna_fpga_drivers.Common.{
  ℕ, ◌+◌, ◌*◌, ◌≤◌, ◌<◌, ◌≡◌, some, arith, Option, ltb, Bool-cases, inl, inr,
}
use ravenna_fpga_drivers.Kernel.{Kernel, Result, ok, err, Errno, einval, Result-cases}
use ravenna_fpga_drivers.Uapi.{TxStream, codec_max, max_ethernet_packet_size}
use ravenna_fpga_drivers.StreamDevice.Codec.{sample_length-defined}
use ravenna_fpga_drivers.StreamDevice.TxValidate.{validate_stream}
use ravenna_fpga_drivers.StreamDevice.TxValidate.Accepts.{Accepted, validate_stream_iff}
use ravenna_fpga_drivers.StreamDevice.Tx.{admit, stream_ip_length}

pub stream_ip_length-defined :
    (s : TxStream) → s.codec < codec_max → (len : ℕ) × (stream_ip_length s ≡ some len)
unfolding stream_ip_length
stream_ip_length-defined s h =
    let (c, e) = sample_length-defined s.codec h in
    (20 + 8 + 12 + s.num_channels * s.num_samples * c, rw e)

-- The verdict on a stream: refused, or accepted with its IP length, which fits a packet.
pub data Verdict (k : Kernel) (max_tracks : ℕ) (s : TxStream) (o : Option (Result ℕ)) : Type 0 where
  rejects : (e : Errno) → o ≡ some (err e) → Verdict k max_tracks s o
  accepts :
      (len : ℕ)
      → o ≡ some (ok len)
      → Accepted k max_tracks s
      → stream_ip_length s ≡ some len
      → len ≤ max_ethernet_packet_size
      → Verdict k max_tracks s o

pub admit-Verdict :
    (k : Kernel) (max_tracks : ℕ) (s : TxStream) → Verdict k max_tracks s (admit k max_tracks s)
unfolding admit
admit-Verdict k max_tracks s = elim (Result-cases (validate_stream k max_tracks s)) [
  | inl (e, failed) ↦ rejects e (rw (failed, admit))
  | inr (_, passed) ↦
      let good = (validate_stream_iff k max_tracks s).0 passed in
      let (len, ip) = stream_ip_length-defined s good.codec in
      elim (Bool-cases (ltb max_ethernet_packet_size len)) [
        | inl long ↦ rejects einval (rw (passed, admit, ip, long))
        | inr short ↦ accepts len (rw (passed, admit, ip, short)) good ip (ground arith)
      ]
]
