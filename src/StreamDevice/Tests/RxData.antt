-- ===== src/StreamDevice/Tests/RxData.antt =====
-- RX streams on a device with two entries in the stream table.
use ravenna_fpga_drivers.Common.{
  ℕ, refl, false, none, arith, List, [], ◌∷◌, ℤ, pos, negsuc, replicate,
}
use ravenna_fpga_drivers.Uapi.{RxStream}
use ravenna_fpga_drivers.StreamDevice.StreamTable.{StreamTable}
use ravenna_fpga_drivers.StreamDevice.StreamTableRx.{RxEntry, zero_entry}
use ravenna_fpga_drivers.StreamDevice.TrackTable.{mute}
use ravenna_fpga_drivers.StreamDevice.Rx.{Rx}
use ravenna_fpga_drivers.StreamDevice.Rx.Invariant.{IsValid}
use ravenna_fpga_drivers.StreamDevice.Tests.FirstFit.{linux}

abbrev pub empty_rx_sttb : StreamTable RxEntry
empty_rx_sttb = record { regs = λ _. zero_entry; max_entries = 2; writes = [] }

-- The stream of examples/client.c, with `n` channels.
abbrev pub rx_stream_of : ℕ → List ℤ → RxStream
rx_stream_of n tracks = record {
  primary = record { destination_ip = 0x53721eee; destination_port = 0x8c13 };
  secondary = record { destination_ip = 0; destination_port = 0 };
  sync_source = 0;
  vlan_tagged = 0;
  hitless_protection = 1;
  synchronous = 1;
  rtp_filter = 0;
  codec = 2;
  rtp_payload_type = 97;
  active = 1;
  vlan_tag = 0;
  jitter_buffer_margin = 80;
  rtp_offset = 0;
  rtp_ssrc = 1234;
  num_channels = n;
  tracks = tracks;
}

-- The first channel goes to track 3, the second nowhere.
abbrev pub headphones : RxStream
headphones = rx_stream_of 2 (pos 3 ∷ negsuc 0 ∷ replicate 254 (negsuc 0))

abbrev pub empty_rx : Rx
empty_rx = record {
  sttb = empty_rx_sttb;
  trtb = record { regs = λ _. mute; used_entries = λ _. false; max_entries = 8 };
  streams = λ _. none;
  used_tracks = λ _. false;
  max_tracks = 16;
}

pub empty_rx-IsValid : IsValid linux empty_rx
empty_rx-IsValid = record {
  populated = omega arith;
  small = omega arith;
  few_tracks = omega arith;
  table = record {
    fits = λ i x h. cc;
    held = λ i x p h. cc;
    apart = λ i j x y p h. cc;
    traced = λ p lt u. cc;
    routed = λ i x p h. cc;
    idle = λ p lt u. refl;
  };
  exclusive = record {
    held = λ i t ts h. cc;
    traced = λ t u. cc;
    apart = λ i j t ts us h. cc;
    once = λ i ts h. cc;
  };
  below = λ i e h. cc;
  sane = λ i e h. cc;
  shown = λ i e h. cc;
  hidden = λ i lt h. omega arith;
}
