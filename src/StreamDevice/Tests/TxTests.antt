-- ===== src/StreamDevice/Tests/TxTests.antt =====
-- TX streams on a device with two entries in the stream table and eight in the track table.
use ravenna_fpga_drivers.Common.{
  ℕ, ◌≡◌, ◌≢◌, ◌↔◌, refl, true, false, none, some, List, [], ◌∷◌, ℤ, pos, negsuc, arith, update,
  replicate,
}
use ravenna_fpga_drivers.Kernel.{ok, enospc}
use ravenna_fpga_drivers.Uapi.{
  TxStream, TxStreamInterface, AddTxStreamCmd, UpdateTxStreamCmd, DeleteTxStreamCmd,
}
use ravenna_fpga_drivers.StreamDevice.Codec.{fpga_code, sample_length, validate_rtp_payload_type}
use ravenna_fpga_drivers.StreamDevice.StreamTable.{StreamTable, written}
use ravenna_fpga_drivers.StreamDevice.StreamTableTx.{TxEntry, zero_entry, entry_with, valid, fill}
use ravenna_fpga_drivers.StreamDevice.TrackTable.{TrackTable, mute, alloc}
use ravenna_fpga_drivers.StreamDevice.TrackTable.Ownership.{Owned, claimed, released, claimed-Owned}
use ravenna_fpga_drivers.StreamDevice.TrackTable.Operations.{range, free-released}
use ravenna_fpga_drivers.StreamDevice.Tx.{
  Tx, TxElem, stream_ip_length, add_stream_ioctl, update_stream_ioctl, delete_stream_ioctl,
  delete_streams, admit,
}
use ravenna_fpga_drivers.StreamDevice.Tx.Invariant.{IsValid, put-IsValid, ranges, entry_for}
use ravenna_fpga_drivers.StreamDevice.Tx.Overrun.{add_overrun}
use ravenna_fpga_drivers.StreamDevice.TxValidate.{
  validate_stream, validate_stream_interface, tracks_below,
}
use ravenna_fpga_drivers.StreamDevice.TxValidate.Accepts.{Accepted, validate_stream_iff}
use ravenna_fpga_drivers.StreamDevice.Tx.Add.{Adds, add_stream_ioctl-Adds, requested}
use ravenna_fpga_drivers.StreamDevice.Tx.Update.{
  Updates, update_stream_ioctl-Updates, roll_back_finds,
}
use ravenna_fpga_drivers.StreamDevice.Tx.Delete.{
  Deletes, delete_stream_ioctl-Deletes, delete_streams_lem,
}
use ravenna_fpga_drivers.StreamDevice.Tests.FirstFit.{linux, first_fit, lowest_free}

abbrev empty_table : TrackTable
empty_table = record { regs = λ _. mute; used_entries = λ _. false; max_entries = 8 }

abbrev pub empty_sttb : StreamTable TxEntry
empty_sttb = record { regs = λ _. zero_entry; max_entries = 2; writes = [] }

abbrev empty : Tx
empty = record { sttb = empty_sttb; trtb = empty_table; streams = λ _. none }

empty-Owned : Owned empty_table (λ _. none)
empty-Owned = record {
  fits = λ i x h. cc;
  held = λ i x p h. cc;
  apart = λ i j x y p h. cc;
  traced = λ p lt u. cc;
  routed = λ i x p h. cc;
  idle = λ p lt u. refl;
}

empty-IsValid : IsValid linux empty
empty-IsValid = record {
  populated = omega arith;
  small = omega arith;
  table = empty-Owned;
  below = λ i e h. cc;
  sane = λ i e h. cc;
  shown = λ i e h. cc;
  hidden = λ i lt h. refl;
}

-- Ports and addresses as they lie in memory: any non-zero value.
abbrev interface : TxStreamInterface
interface = record {
  destination_ip = 0x53721eee;
  source_ip = 0x0164a8c0;
  destination_port = 0x8c13;
  source_port = 0xd204;
  vlan_tag = 0;
  destination_mac = 1 ∷ 2 ∷ 3 ∷ 4 ∷ 5 ∷ 6 ∷ [];
}

abbrev unused_interface : TxStreamInterface
unused_interface = record {
  destination_ip = 0;
  source_ip = 0;
  destination_port = 0;
  source_port = 0;
  vlan_tag = 0;
  destination_mac = 0 ∷ 0 ∷ 0 ∷ 0 ∷ 0 ∷ 0 ∷ [];
}

-- The stream of examples/client.c, with `n` channels.
abbrev stream_of : ℕ → List ℤ → TxStream
stream_of n tracks = record {
  primary = interface;
  secondary = unused_interface;
  vlan_tagged = 0;
  multicast = 1;
  use_primary = 1;
  use_secondary = 0;
  codec = 2;
  rtp_payload_type = 97;
  next_rtp_tx_time = 0;
  ttl = 4;
  dscp_tos = 0;
  num_samples = 16;
  active = 1;
  next_rtp_sequence_num = 0;
  num_channels = n;
  rtp_offset = 0;
  rtp_ssrc = 1234;
  tracks = tracks;
}

abbrev pub stereo : TxStream
stereo = stream_of 2 (pos 4 ∷ negsuc 0 ∷ replicate 254 (negsuc 0))

abbrev stereo_elem : TxElem
stereo_elem = record { stream = stereo; filp = 7; pid = 1117; trtb_index = 0 }

abbrev stereo_entry : TxEntry
stereo_entry = entry_with linux stereo 0 136 0x18

abbrev busy_sttb : StreamTable TxEntry
busy_sttb = written (written empty_sttb 0 stereo_entry) 0 (valid stereo_entry)

abbrev busy_table : TrackTable
busy_table = claimed empty_table (range 0 2 stereo.tracks)

-- The state after client 7 has added the stream.
abbrev pub busy : Tx
busy = record {
  sttb = busy_sttb;
  trtb = busy_table;
  streams = update (λ _. none) 0 (some stereo_elem);
}

stereo_entry_shows : entry_for linux stereo_elem ≡ some (valid stereo_entry)
unfolding entry_for fill fpga_code stream_ip_length sample_length
stereo_entry_shows = refl

pub busy-IsValid : IsValid linux busy
busy-IsValid =
    put-IsValid linux empty empty-IsValid 0 (omega arith) busy_table busy_sttb stereo_elem
      (valid stereo_entry)
      (claimed-Owned empty_table (λ _. none) 0 empty-Owned (range 0 2 stereo.tracks) refl
        (omega arith) (λ p c. refl))
      (record { size = refl; here = refl; elsewhere = λ j ne. ground arith }) stereo_entry_shows
      (record { codec_known = omega arith; tracks_given = omega arith })

abbrev mono : TxStream
mono = stream_of 1 (pos 5 ∷ replicate 255 (negsuc 0))

abbrev pub add_mono : AddTxStreamCmd
add_mono = record { version = 0; stream = mono }

abbrev update_mono : UpdateTxStreamCmd
update_mono = record { version = 0; index = 0; stream = mono }

abbrev delete_first : DeleteTxStreamCmd
delete_first = record { version = 0; index = 0 }

mono_admitted : admit linux 16 mono ≡ some (ok 88)
unfolding admit validate_stream validate_stream_interface tracks_below validate_rtp_payload_type
    stream_ip_length sample_length
mono_admitted = refl

set-alloc_test : first_fit busy_table.used_entries 8 0 2 ≡ 2
unfolding first_fit
set-alloc_test = refl

add_stream_ioctl-Adds_example :
    Adds linux busy
      (requested add_mono 9 1200)
      (add_stream_ioctl linux 16 busy 9 1200 580 (some add_mono) true)
add_stream_ioctl-Adds_example =
    add_stream_ioctl-Adds linux 16 busy 9 1200 580 add_mono true busy-IsValid (omega arith)

update_stream_ioctl-Updates_example :
    Updates linux busy 7 0 mono (update_stream_ioctl linux 16 busy 7 584 (some update_mono))
update_stream_ioctl-Updates_example =
    update_stream_ioctl-Updates linux 16 busy 7 584 update_mono busy-IsValid (omega arith)

delete_stream_ioctl-Deletes_example :
    Deletes linux busy 7 0 (delete_stream_ioctl busy 7 8 (some delete_first))
delete_stream_ioctl-Deletes_example =
    delete_stream_ioctl-Deletes linux busy 7 8 delete_first busy-IsValid

delete_streams_example :
    (tx' : Tx) × (delete_streams busy 7 ≡ some tx')
    × IsValid linux tx'
    × ((j : ℕ) (e : TxElem) → (tx'.streams j ≡ some e) ↔ ((busy.streams j ≡ some e) × (e.filp ≢ 7)))
delete_streams_example = delete_streams_lem linux busy 7 busy-IsValid

-- Nine channels do not fit the eight entries.
roll_back_finds_example :
    (base : ℕ) × ((alloc linux
        (alloc linux (released busy_table (range 0 2 stereo.tracks)) 9).1
        2).0
      ≡ ok base)
unfolding alloc first_fit
roll_back_finds_example =
    roll_back_finds linux busy 0 9 stereo_elem (released busy_table (range 0 2 stereo.tracks))
      enospc busy-IsValid refl (omega arith)
      (free-released busy_table (ranges busy.streams) busy-IsValid.table 0 (range 0 2 stereo.tracks)
        refl)
      refl

validate_stream_iff_example : (validate_stream linux 16 mono ≡ ok tt) ↔ Accepted linux 16 mono
validate_stream_iff_example = validate_stream_iff linux 16 mono

-- 300 channels of one sample each fit a packet.
abbrev wide : TxStream
wide = record (stream_of 300 (replicate 256 (negsuc 0))) { num_samples = 1 }

abbrev wide_device : Tx
wide_device = record empty { trtb = record empty_table { max_entries = 1024 } }

wide_admitted : admit linux 16 wide ≡ some (ok 940)
unfolding admit validate_stream validate_stream_interface tracks_below validate_rtp_payload_type
    stream_ip_length sample_length
wide_admitted = refl

add_overrun_example :
    add_stream_ioctl linux 16 wide_device 7 1117 580
      (some (record { version = 0; stream = wide }))
      true
    ≡ none
unfolding alloc first_fit lowest_free
add_overrun_example =
    add_overrun linux 16 wide_device 7 1117 940 0 0 (record { version = 0; stream = wide }) refl
      (omega arith) wide_admitted refl refl
