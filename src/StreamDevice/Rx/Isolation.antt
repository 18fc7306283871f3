-- ===== src/StreamDevice/Rx/Isolation.antt =====
-- A call of one client leaves the RX streams of the others as they are.
use ravenna_fpga_drivers.Common.{
  ℕ, ◌≡◌, ◌≢◌, refl, ap, ◌∙◌, Bool, true, false, Option, none, some, arith, length, update,
  update_ne, if◌then◌else◌,
}
use ravenna_fpga_drivers.Kernel.{Kernel, Result, ok, err, Errno, einval, efault}
use ravenna_fpga_drivers.Uapi.{AddRxStreamCmd, UpdateRxStreamCmd, DeleteRxStreamCmd, max_channels}
use ravenna_fpga_drivers.StreamDevice.Rx.{
  Rx, RxElem, Outcome, fail, add_stream_ioctl, update_stream_ioctl, delete_stream_ioctl,
  delete_streams,
}
use ravenna_fpga_drivers.StreamDevice.Rx.Invariant.{IsValid}
use ravenna_fpga_drivers.StreamDevice.Rx.View
use ravenna_fpga_drivers.StreamDevice.Rx.View.{RxView, to_view, map_view, view}
use ravenna_fpga_drivers.StreamDevice.Rx.Add
use ravenna_fpga_drivers.StreamDevice.Rx.Add.{add_stream_ioctl-AddsRx}
use ravenna_fpga_drivers.StreamDevice.Rx.Update
use ravenna_fpga_drivers.StreamDevice.Rx.Update.{update_stream_ioctl-UpdatesRx}
use ravenna_fpga_drivers.StreamDevice.Rx.Delete
use ravenna_fpga_drivers.StreamDevice.Rx.Delete.{
  delete_stream_ioctl-DeletesRx, delete_streams-ClosesRx,
}

-- Every stream of another file than `filp` is still there, with the same parameters and owner.
abbrev pub OthersKept : ℕ → Rx → Rx → Type 0
OthersKept filp rx rx' =
    (j : ℕ) (e : RxElem)
    → rx.streams j ≡ some e
    → e.filp ≢ filp
    → view rx'.streams j ≡ some (to_view e)

-- An ioctl by `filp` ends, in a valid state, with the others' streams kept.
pub record Isolated (k : Kernel) (rx : Rx) (filp : ℕ) (o : Outcome) : Type 0 where
  pub ret : Result ℕ
  pub after : Rx
  pub done : o ≡ some (ret, after)
  pub still_valid : IsValid k after
  pub others : OthersKept filp rx after

same_view : (filp : ℕ) (rx rx' : Rx) → view rx'.streams ≡ view rx.streams → OthersKept filp rx rx'
same_view filp rx rx' same j e h ne = ap (λ (s : ℕ → Option RxView). s j) same ∙ ap map_view h

same-Isolated :
    (k : Kernel) (rx rx' : Rx) (filp : ℕ) (ret : Result ℕ) (o : Outcome)
    → o ≡ some (ret, rx')
    → IsValid k rx'
    → view rx'.streams ≡ view rx.streams
    → Isolated k rx filp o
same-Isolated k rx rx' filp ret o done v same = record {
  ret = ret;
  after = rx';
  done = done;
  still_valid = v;
  others = same_view filp rx rx' same;
}

-- A command that cannot be copied.
if_fails-Isolated :
    (k : Kernel) (rx : Rx) (filp : ℕ) (b : Bool) (e e' : Errno)
    → IsValid k rx
    → Isolated k rx filp (if b then fail e rx else fail e' rx)
if_fails-Isolated k rx filp true e e' v = same-Isolated k rx rx filp (err e) _ refl v refl
if_fails-Isolated k rx filp false e e' v = same-Isolated k rx rx filp (err e') _ refl v refl

pub delete_streams-Isolated :
    (k : Kernel) (rx : Rx) (filp : ℕ)
    → IsValid k rx
    → (rx' : Rx) × (delete_streams rx filp ≡ some rx') × IsValid k rx' × OthersKept filp rx rx'
delete_streams-Isolated k rx filp v =
    let (rx', done, v', gone) = delete_streams-ClosesRx k rx filp v in
    (rx', done, v', λ j e h ne. ap map_view ((gone j e).1 (h, ne)))

-- A change at one index, whose stream was not another client's.
changed-OthersKept :
    (filp index : ℕ) (rx rx' : Rx) (o : Option RxView)
    → view rx'.streams ≡ update (view rx.streams) index o
    → ((e : RxElem) → rx.streams index ≡ some e → e.filp ≡ filp)
    → OthersKept filp rx rx'
changed-OthersKept filp index rx rx' o changed mine j e h ne =
    ap (λ (s : ℕ → Option RxView). s j) changed
    ∙ update_ne (view rx.streams) index o j (λ same. ne (mine e (ap rx.streams same ∙ h)))
    ∙ ap map_view h

-- The array of tracks of a command has its size.
abbrev pub FitsAdd : Option AddRxStreamCmd → Type 0
FitsAdd none = Unit {0}
FitsAdd (some cmd) = length cmd.stream.tracks ≡ max_channels

abbrev pub FitsUpdate : Option UpdateRxStreamCmd → Type 0
FitsUpdate none = Unit {0}
FitsUpdate (some cmd) = length cmd.stream.tracks ≡ max_channels

pub add_stream_ioctl-Isolated :
    (k : Kernel) (rx : Rx) (filp pid size : ℕ) (user : Option AddRxStreamCmd)
    (memory scratch : Bool)
    → IsValid k rx
    → FitsAdd user
    → Isolated k rx filp (add_stream_ioctl k rx filp pid size user memory scratch)
unfolding add_stream_ioctl
add_stream_ioctl-Isolated k rx filp pid size none memory scratch v fits =
    if_fails-Isolated k rx filp _ einval efault v
add_stream_ioctl-Isolated k rx filp pid size (some cmd) memory scratch v fits =
    elim (add_stream_ioctl-AddsRx k rx filp pid size cmd memory scratch v fits) [
      | Add.refused e o ↦ same-Isolated k rx rx filp (err e) _ o v refl
      | Add.added i b rx' o vacant available v' s ↦ record {
        ret = ok i;
        after = rx';
        done = o;
        still_valid = v';
        others =
            changed-OthersKept filp i rx rx' _ (ap view s ∙ View.view-update rx.streams i _)
              (λ e h. absurd (ground arith));
      }
    ]

pub update_stream_ioctl-Isolated :
    (k : Kernel) (rx : Rx) (filp size : ℕ) (user : Option UpdateRxStreamCmd) (scratch : Bool)
    → IsValid k rx
    → FitsUpdate user
    → Isolated k rx filp (update_stream_ioctl k rx filp size user scratch)
unfolding update_stream_ioctl
update_stream_ioctl-Isolated k rx filp size none scratch v fits =
    if_fails-Isolated k rx filp _ einval efault v
update_stream_ioctl-Isolated k rx filp size (some cmd) scratch v fits =
    elim (update_stream_ioctl-UpdatesRx k rx filp size cmd scratch v fits) [
      | Update.refused e rx' o v' s ↦ same-Isolated k rx rx' filp (err e) _ o v' s
      | Update.updated r e rx' o found mine v' s ↦ record {
        ret = ok r;
        after = rx';
        done = o;
        still_valid = v';
        others =
            changed-OthersKept filp cmd.index rx rx' _ s (λ x h. ground (arith, found, h, mine));
      }
    ]

pub delete_stream_ioctl-Isolated :
    (k : Kernel) (rx : Rx) (filp size : ℕ) (user : Option DeleteRxStreamCmd)
    → IsValid k rx
    → Isolated k rx filp (delete_stream_ioctl rx filp size user)
unfolding delete_stream_ioctl
delete_stream_ioctl-Isolated k rx filp size none v = if_fails-Isolated k rx filp _ einval efault v
delete_stream_ioctl-Isolated k rx filp size (some cmd) v =
    elim (delete_stream_ioctl-DeletesRx k rx filp size cmd v) [
      | Delete.refused e o ↦ same-Isolated k rx rx filp (err e) _ o v refl
      | Delete.deleted e rx' o found mine v' s ↦ record {
        ret = ok 0;
        after = rx';
        done = o;
        still_valid = v';
        others =
            changed-OthersKept filp cmd.index rx rx' none
              (ap view s ∙ View.view-update rx.streams cmd.index none)
              (λ x h. ground (arith, found, h, mine));
      }
    ]
