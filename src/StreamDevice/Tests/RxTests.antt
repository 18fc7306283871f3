-- ===== src/StreamDevice/Tests/RxTests.antt =====
-- The ioctls on RX streams, on a device where client 7 receives one stream.
use ravenna_fpga_drivers.Common.{
  ◌≡◌, refl, true, false, none, some, ◌∷◌, pos, negsuc, arith, update, replicate,
}
use ravenna_fpga_drivers.Uapi.{RxStream, AddRxStreamCmd, UpdateRxStreamCmd, DeleteRxStreamCmd}
use ravenna_fpga_drivers.StreamDevice.Codec.{fpga_code}
use ravenna_fpga_drivers.StreamDevice.StreamTable.{
  StreamTable, written, written-Differs, Differs-again,
}
use ravenna_fpga_drivers.StreamDevice.StreamTableRx.{
  RxEntry, zero_entry, entry_with, fill, activated,
}
use ravenna_fpga_drivers.StreamDevice.TrackTable.Ownership.{claimed, claimed-Owned}
use ravenna_fpga_drivers.StreamDevice.TrackTable.Operations.{range}
use ravenna_fpga_drivers.StreamDevice.ActiveTracks.Routed.{routed, routed_from}
use ravenna_fpga_drivers.StreamDevice.RxValidate.{validate_stream}
use ravenna_fpga_drivers.StreamDevice.RxValidate.Verdict.{Verdict, validate_stream-Verdict}
use ravenna_fpga_drivers.StreamDevice.Rx.{
  Rx, RxElem, tracks_available, add_stream_ioctl, update_stream_ioctl, delete_stream_ioctl,
  delete_streams,
}
use ravenna_fpga_drivers.StreamDevice.Rx.Exclusive.{marked, marked-Exclusive}
use ravenna_fpga_drivers.StreamDevice.Rx.Tracks.{
  tracks_of, AllBelow, Available, tracks_available-Available,
}
use ravenna_fpga_drivers.StreamDevice.Rx.Invariant.{IsValid, put-IsValid, entry_for}
use ravenna_fpga_drivers.StreamDevice.Rx.Add.{AddsRx, requested, add_stream_ioctl-AddsRx}
use ravenna_fpga_drivers.StreamDevice.Rx.Update.{UpdatesRx, update_stream_ioctl-UpdatesRx}
use ravenna_fpga_drivers.StreamDevice.Rx.Delete.{
  DeletesRx, delete_stream_ioctl-DeletesRx, ClosesRx, delete_streams-ClosesRx,
}
use ravenna_fpga_drivers.StreamDevice.Tests.FirstFit.{linux}
use ravenna_fpga_drivers.StreamDevice.Tests.RxData.{
  empty_rx, empty_rx_sttb, empty_rx-IsValid, headphones, rx_stream_of,
}

abbrev headphones_elem : RxElem
headphones_elem = record { stream = headphones; filp = 7; pid = 1117; trtb_index = 0 }

abbrev headphones_entry : RxEntry
headphones_entry = entry_with linux headphones 0 0x18

abbrev cleared : StreamTable RxEntry
cleared = written empty_rx_sttb 0 zero_entry

abbrev filled : StreamTable RxEntry
filled = written cleared 0 headphones_entry

abbrev busy_rx_sttb : StreamTable RxEntry
busy_rx_sttb = written filled 0 (activated headphones_entry)

-- The state after client 7 has added the stream.
abbrev pub busy_rx : Rx
busy_rx = record {
  sttb = busy_rx_sttb;
  trtb = claimed empty_rx.trtb (range 0 2 headphones.tracks);
  streams = update (λ _. none) 0 (some headphones_elem);
  used_tracks = marked true (λ _. false) (tracks_of headphones);
  max_tracks = 16;
}

headphones_shown : entry_for linux headphones_elem ≡ some (activated headphones_entry)
unfolding entry_for fill fpga_code
headphones_shown = refl

headphones-AllBelow : AllBelow 16 (tracks_of headphones)
unfolding routed routed_from
headphones-AllBelow t m = ground arith

pub busy_rx-IsValid : IsValid linux busy_rx
unfolding routed routed_from
busy_rx-IsValid =
    put-IsValid linux empty_rx empty_rx-IsValid 0 (omega arith) busy_rx.trtb busy_rx_sttb
      busy_rx.used_tracks headphones_elem (activated headphones_entry)
      (claimed-Owned empty_rx.trtb (λ _. none) 0 empty_rx-IsValid.table
        (range 0 2 headphones.tracks) refl (omega arith) (λ p c. refl))
      (marked-Exclusive (λ _. false) (λ _. none) 0 empty_rx-IsValid.exclusive (tracks_of headphones)
        refl (refl, tt) (λ t m. refl))
      (Differs-again empty_rx_sttb filled 0 headphones_entry (activated headphones_entry) (
        Differs-again empty_rx_sttb cleared 0 zero_entry headphones_entry
          (written-Differs empty_rx_sttb 0 zero_entry)))
      headphones_shown
      (record {
        codec_known = omega arith;
        tracks_given = omega arith;
        tracks_exist = headphones-AllBelow;
      })

-- A stream that wants track 3, which the first one has, and one that wants track 4.
abbrev clashing : RxStream
clashing = rx_stream_of 1 (pos 3 ∷ replicate 255 (negsuc 0))

abbrev pub fitting : RxStream
fitting = rx_stream_of 1 (pos 4 ∷ replicate 255 (negsuc 0))

clashing-AllBelow : AllBelow 16 (tracks_of clashing)
unfolding routed routed_from
clashing-AllBelow t m = ground arith

tracks_available-Available_example :
    Available busy_rx clashing true (tracks_available busy_rx clashing true)
tracks_available-Available_example =
    tracks_available-Available busy_rx clashing true (omega arith) clashing-AllBelow

validate_stream-Verdict_example : Verdict linux 16 headphones (validate_stream linux 16 headphones)
validate_stream-Verdict_example = validate_stream-Verdict linux 16 headphones refl

abbrev pub add_fitting : AddRxStreamCmd
add_fitting = record { version = 0; stream = fitting }

abbrev pub update_fitting : UpdateRxStreamCmd
update_fitting = record { version = 0; index = 0; stream = fitting }

abbrev delete_rx_first : DeleteRxStreamCmd
delete_rx_first = record { version = 0; index = 0 }

add_stream_ioctl-AddsRx_example :
    AddsRx linux busy_rx
      (requested add_fitting 9 1200)
      (add_stream_ioctl linux busy_rx 9 1200 556 (some add_fitting) true true)
add_stream_ioctl-AddsRx_example =
    add_stream_ioctl-AddsRx linux busy_rx 9 1200 556 add_fitting true true busy_rx-IsValid refl

update_stream_ioctl-UpdatesRx_example :
    UpdatesRx linux busy_rx 7 0 fitting
      (update_stream_ioctl linux busy_rx 7 560 (some update_fitting) true)
update_stream_ioctl-UpdatesRx_example =
    update_stream_ioctl-UpdatesRx linux busy_rx 7 560 update_fitting true busy_rx-IsValid refl

delete_stream_ioctl-DeletesRx_example :
    DeletesRx linux busy_rx 7 0 (delete_stream_ioctl busy_rx 7 8 (some delete_rx_first))
delete_stream_ioctl-DeletesRx_example =
    delete_stream_ioctl-DeletesRx linux busy_rx 7 8 delete_rx_first busy_rx-IsValid

delete_streams-ClosesRx_example : ClosesRx linux busy_rx 7 (delete_streams busy_rx 7)
delete_streams-ClosesRx_example = delete_streams-ClosesRx linux busy_rx 7 busy_rx-IsValid
