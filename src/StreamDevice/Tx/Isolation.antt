-- ===== src/StreamDevice/Tx/Isolation.antt =====
-- A call of one client leaves the TX streams of the others as they are.
use ravenna_fpga_drivers.Common.{
  ℕ, ◌≤◌, ◌≡◌, ◌≢◌, refl, ap, ◌∙◌, Bool, true, false, Option, none, some, arith, length, update,
  update_ne, if◌then◌else◌,
}
use ravenna_fpga_drivers.Kernel.{Kernel, Result, ok, err, Errno, einval, efault}
use ravenna_fpga_drivers.Uapi.{AddTxStreamCmd, UpdateTxStreamCmd, DeleteTxStreamCmd}
use ravenna_fpga_drivers.StreamDevice.Tx.{
  Tx, TxElem, Outcome, fail, add_stream_ioctl, update_stream_ioctl, delete_stream_ioctl,
  delete_streams,
}
use ravenna_fpga_drivers.StreamDevice.Tx.Invariant.{IsValid}
use ravenna_fpga_drivers.StreamDevice.Tx.View
use ravenna_fpga_drivers.StreamDevice.Tx.View.{TxView, to_view, map_view, view}
use ravenna_fpga_drivers.StreamDevice.Tx.Add
use ravenna_fpga_drivers.StreamDevice.Tx.Add.{add_stream_ioctl-Adds}
use ravenna_fpga_drivers.StreamDevice.Tx.Update
use ravenna_fpga_drivers.StreamDevice.Tx.Update.{update_stream_ioctl-Updates}
use ravenna_fpga_drivers.StreamDevice.Tx.Delete
use ravenna_fpga_drivers.StreamDevice.Tx.Delete.{delete_stream_ioctl-Deletes, delete_streams_lem}

-- Every stream of another file than `filp` is still there, with the same parameters and owner.
abbrev pub OthersKept : ℕ → Tx → Tx → Type 0
OthersKept filp tx tx' =
    (j : ℕ) (e : TxElem)
    → tx.streams j ≡ some e
    → e.filp ≢ filp
    → view tx'.streams j ≡ some (to_view e)

-- An ioctl by `filp` ends, in a valid state, with the others' streams kept.
pub record Isolated (k : Kernel) (tx : Tx) (filp : ℕ) (o : Outcome) : Type 0 where
  pub ret : Result ℕ
  pub after : Tx
  pub done : o ≡ some (ret, after)
  pub still_valid : IsValid k after
  pub others : OthersKept filp tx after

same_view : (filp : ℕ) (tx tx' : Tx) → view tx'.streams ≡ view tx.streams → OthersKept filp tx tx'
same_view filp tx tx' same j e h ne = ap (λ (s : ℕ → Option TxView). s j) same ∙ ap map_view h

same-Isolated :
    (k : Kernel) (tx tx' : Tx) (filp : ℕ) (ret : Result ℕ) (o : Outcome)
    → o ≡ some (ret, tx')
    → IsValid k tx'
    → view tx'.streams ≡ view tx.streams
    → Isolated k tx filp o
same-Isolated k tx tx' filp ret o done v same = record {
  ret = ret;
  after = tx';
  done = done;
  still_valid = v;
  others = same_view filp tx tx' same;
}

-- A command that cannot be copied.
if_fails-Isolated :
    (k : Kernel) (tx : Tx) (filp : ℕ) (b : Bool) (e e' : Errno)
    → IsValid k tx
    → Isolated k tx filp (if b then fail e tx else fail e' tx)
if_fails-Isolated k tx filp true e e' v = same-Isolated k tx tx filp (err e) _ refl v refl
if_fails-Isolated k tx filp false e e' v = same-Isolated k tx tx filp (err e') _ refl v refl

pub delete_streams-Isolated :
    (k : Kernel) (tx : Tx) (filp : ℕ)
    → IsValid k tx
    → (tx' : Tx) × (delete_streams tx filp ≡ some tx') × IsValid k tx' × OthersKept filp tx tx'
delete_streams-Isolated k tx filp v =
    let (tx', done, v', gone) = delete_streams_lem k tx filp v in
    (tx', done, v', λ j e h ne. ap map_view ((gone j e).1 (h, ne)))

-- A change at one index, whose stream was not another client's.
changed-OthersKept :
    (filp index : ℕ) (tx tx' : Tx) (o : Option TxView)
    → view tx'.streams ≡ update (view tx.streams) index o
    → ((e : TxElem) → tx.streams index ≡ some e → e.filp ≡ filp)
    → OthersKept filp tx tx'
changed-OthersKept filp index tx tx' o changed mine j e h ne =
    ap (λ (s : ℕ → Option TxView). s j) changed
    ∙ update_ne (view tx.streams) index o j (λ same. ne (mine e (ap tx.streams same ∙ h)))
    ∙ ap map_view h

-- The stream of a command has a track for each of its channels.
abbrev pub FitsAdd : Option AddTxStreamCmd → Type 0
FitsAdd none = Unit {0}
FitsAdd (some cmd) = cmd.stream.num_channels ≤ length cmd.stream.tracks

abbrev pub FitsUpdate : Option UpdateTxStreamCmd → Type 0
FitsUpdate none = Unit {0}
FitsUpdate (some cmd) = cmd.stream.num_channels ≤ length cmd.stream.tracks

pub add_stream_ioctl-Isolated :
    (k : Kernel) (max_tracks : ℕ) (tx : Tx) (filp pid size : ℕ) (user : Option AddTxStreamCmd)
    (memory : Bool)
    → IsValid k tx
    → FitsAdd user
    → Isolated k tx filp (add_stream_ioctl k max_tracks tx filp pid size user memory)
unfolding add_stream_ioctl
add_stream_ioctl-Isolated k m tx filp pid size none memory v fits =
    if_fails-Isolated k tx filp _ einval efault v
add_stream_ioctl-Isolated k m tx filp pid size (some cmd) memory v fits =
    elim (add_stream_ioctl-Adds k m tx filp pid size cmd memory v fits) [
      | Add.refused e o ↦ same-Isolated k tx tx filp (err e) _ o v refl
      | Add.added i b tx' o vacant v' s ↦ record {
        ret = ok i;
        after = tx';
        done = o;
        still_valid = v';
        others =
            changed-OthersKept filp i tx tx' _ (ap view s ∙ View.view-update tx.streams i _)
              (λ e h. absurd (ground arith));
      }
    ]

pub update_stream_ioctl-Isolated :
    (k : Kernel) (max_tracks : ℕ) (tx : Tx) (filp size : ℕ) (user : Option UpdateTxStreamCmd)
    → IsValid k tx
    → FitsUpdate user
    → Isolated k tx filp (update_stream_ioctl k max_tracks tx filp size user)
unfolding update_stream_ioctl
update_stream_ioctl-Isolated k m tx filp size none v fits =
    if_fails-Isolated k tx filp _ einval efault v
update_stream_ioctl-Isolated k m tx filp size (some cmd) v fits =
    elim (update_stream_ioctl-Updates k m tx filp size cmd v fits) [
      | Update.refused e tx' o v' s ↦ same-Isolated k tx tx' filp (err e) _ o v' s
      | Update.updated r e tx' o found mine v' s ↦ record {
        ret = ok r;
        after = tx';
        done = o;
        still_valid = v';
        others =
            changed-OthersKept filp cmd.index tx tx' _ s (λ x h. ground (arith, found, h, mine));
      }
    ]

pub delete_stream_ioctl-Isolated :
    (k : Kernel) (tx : Tx) (filp size : ℕ) (user : Option DeleteTxStreamCmd)
    → IsValid k tx
    → Isolated k tx filp (delete_stream_ioctl tx filp size user)
unfolding delete_stream_ioctl
delete_stream_ioctl-Isolated k tx filp size none v = if_fails-Isolated k tx filp _ einval efault v
delete_stream_ioctl-Isolated k tx filp size (some cmd) v =
    elim (delete_stream_ioctl-Deletes k tx filp size cmd v) [
      | Delete.refused e o ↦ same-Isolated k tx tx filp (err e) _ o v refl
      | Delete.deleted e tx' o found mine v' s ↦ record {
        ret = ok 0;
        after = tx';
        done = o;
        still_valid = v';
        others =
            changed-OthersKept filp cmd.index tx tx' none
              (ap view s ∙ View.view-update tx.streams cmd.index none)
              (λ x h. ground (arith, found, h, mine));
      }
    ]
