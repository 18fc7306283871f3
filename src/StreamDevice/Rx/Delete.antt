-- ===== src/StreamDevice/Rx/Delete.antt =====
-- Deleting an RX stream, by its owner or when the file is closed.
use ravenna_fpga_drivers.Common.{
  ℕ, zero, suc, ◌+◌, ◌≤◌, ◌<◌, ◌≡◌, ◌≢◌, false, refl, sym, ap, ◌∙◌, Option, none, some, arith,
  update, update-none-eq-some, update_ne, ◌↔◌, Bool-cases, Option-cases, inl, inr, ◌==◌, ==_iff,
}
use ravenna_fpga_drivers.Kernel.{Kernel, ok, Errno, einval, enoent, eacces}
use ravenna_fpga_drivers.Uapi.{DeleteRxStreamCmd, sizeof_delete_rx_stream_cmd}
use ravenna_fpga_drivers.StreamDevice.TrackTable.Ownership.{released, released-Owned}
use ravenna_fpga_drivers.StreamDevice.TrackTable.Operations.{free-released}
use ravenna_fpga_drivers.StreamDevice.Rx.{
  Rx, RxElem, Outcome, fail, free_stream, delete_found, delete_stream_ioctl, delete_if_owned,
  delete_from, delete_streams,
}
use ravenna_fpga_drivers.StreamDevice.Rx.Invariant.{
  IsValid, removed-IsValid, ranges, writes, range_of,
}
use ravenna_fpga_drivers.StreamDevice.Rx.Exclusive.{marked, unmarked-Exclusive}
use ravenna_fpga_drivers.StreamDevice.Rx.Tracks.{tracks_of, mark_lem}
use ravenna_fpga_drivers.StreamDevice.Rx.Program.{del-Differs}

-- Taking one stream out of a valid state.
record Frees (k : Kernel) (rx : Rx) (index : ℕ) (result : Option Rx) : Type 0 where
  after : Rx
  done : result ≡ some after
  still_valid : IsValid k after
  streams_after : after.streams ≡ update rx.streams index none
  size_after : after.sttb.max_entries ≡ rx.sttb.max_entries

free_stream-Frees :
    (k : Kernel) (rx : Rx) (index : ℕ) (e : RxElem)
    → IsValid k rx
    → rx.streams index ≡ some e
    → Frees k rx index (free_stream rx e index)
unfolding free_stream
free_stream-Frees k rx index e v found =
    let below = v.below index e found in
    let sane = v.sane index e found in
    let (sttb', x, deleted, d, silent) =
      del-Differs k rx.sttb e index below (v.shown index e found) in
    let trtb' = released rx.trtb (range_of e) in
    let used' = marked false rx.used_tracks (tracks_of e.stream) in
    record {
      after = record rx {
        sttb = sttb';
        trtb = trtb';
        streams = update rx.streams index none;
        used_tracks = used';
      };
      done = rw (
        free-released rx.trtb (ranges rx.streams) v.table index (range_of e) (rw found),
        mark_lem false (record rx { trtb = trtb' }) e.stream sane.tracks_given sane.tracks_exist,
        deleted,
      );
      still_valid =
          removed-IsValid k rx v index below trtb' sttb' used' x
            (released-Owned rx.trtb (ranges rx.streams) index v.table (range_of e) (rw found))
            (unmarked-Exclusive rx.used_tracks (writes rx.streams) index v.exclusive
              (tracks_of e.stream) (rw found))
            d silent;
      streams_after = refl;
      size_after = d.size;
    }

-- What `delete` of the stream at `index` by `filp` may do.
pub data DeletesRx (k : Kernel) (rx : Rx) (filp index : ℕ) (o : Outcome) : Type 0 where
  refused : (error : Errno) → o ≡ fail error rx → DeletesRx k rx filp index o
  deleted :
      (e : RxElem) (rx' : Rx)
      → o ≡ some (ok 0, rx')
      → rx.streams index ≡ some e
      → e.filp ≡ filp
      → IsValid k rx'
      → rx'.streams ≡ update rx.streams index none
      → DeletesRx k rx filp index o

found_lem :
    (k : Kernel) (rx : Rx) (filp index : ℕ)
    → IsValid k rx
    → DeletesRx k rx filp index (delete_found rx filp index (rx.streams index))
unfolding delete_found
found_lem k rx filp index v = elim (Option-cases (rx.streams index)) [
  | inl missing ↦ refused enoent (rw missing)
  | inr (e, found) ↦ elim (Bool-cases (e.filp == filp)) [
    | inr other ↦ refused eacces (rw (found, other))
    | inl mine ↦
        let f = free_stream-Frees k rx index e v found in
        deleted e f.after (rw (found, mine, f.done)) found ((==_iff e.filp filp).0 mine)
          f.still_valid f.streams_after
  ]
]

-- On a valid state, deleting an RX stream fails and changes nothing, or it removes the caller's own
-- stream at that index and no other, and leaves a valid state. It reaches no BUG() and leaves no
-- array or bitmap.
pub delete_stream_ioctl-DeletesRx :
    (k : Kernel) (rx : Rx) (filp size : ℕ) (cmd : DeleteRxStreamCmd)
    → IsValid k rx
    → DeletesRx k rx filp cmd.index (delete_stream_ioctl rx filp size (some cmd))
unfolding delete_stream_ioctl
delete_stream_ioctl-DeletesRx k rx filp size cmd v =
    elim (Bool-cases (size == sizeof_delete_rx_stream_cmd)) [
      | inr wrong ↦ refused einval (rw wrong)
      | inl right ↦ elim (Bool-cases (cmd.version == 0)) [
        | inr wrong ↦ refused einval (rw (right, wrong))
        | inl first ↦ rw (right, first) (found_lem k rx filp cmd.index v)
      ]
    ]

-- What the loop of `delete_streams` does from index `lo` up to `hi`.
record Sweeps (k : Kernel) (rx : Rx) (filp lo hi : ℕ) (result : Option Rx) : Type 0 where
  after : Rx
  done : result ≡ some after
  still_valid : IsValid k after
  size_after : after.sttb.max_entries ≡ rx.sttb.max_entries
  others :
      (j : ℕ) (e : RxElem)
      → after.streams j ≡ some e
      → (rx.streams j ≡ some e) × (lo ≤ j → j < hi → e.filp ≢ filp)
  kept : (j : ℕ) (e : RxElem) → rx.streams j ≡ some e → e.filp ≢ filp → after.streams j ≡ some e

unchanged :
    (k : Kernel) (rx : Rx) (filp lo hi : ℕ)
    → IsValid k rx
    → ((j : ℕ) (e : RxElem) → rx.streams j ≡ some e → lo ≤ j → j < hi → e.filp ≢ filp)
    → Sweeps k rx filp lo hi (some rx)
unchanged k rx filp lo hi v foreign = record {
  after = rx;
  done = refl;
  still_valid = v;
  size_after = refl;
  others = λ j e h. (h, foreign j e h);
  kept = λ j e h ne. h;
}

step_lem :
    (k : Kernel) (rx : Rx) (filp i : ℕ)
    → IsValid k rx
    → Sweeps k rx filp i (suc i) (delete_if_owned rx filp i (rx.streams i))
unfolding delete_if_owned
step_lem k rx filp i v = elim (Option-cases (rx.streams i)) [
  | inl missing ↦ rw missing (
      unchanged k rx filp i (suc i) v
        (λ j e h lo hi. absurd (ground (arith, ap rx.streams (at j lo hi)))))
  | inr (e, found) ↦ elim (Bool-cases (e.filp == filp)) [
    | inr other ↦
        rw (found, other)
          (unchanged k rx filp i (suc i) v
            (λ j x h lo hi. ground (arith, ap rx.streams (at j lo hi))))
    | inl mine ↦
        let f = free_stream-Frees k rx i e v found in
        record {
          after = f.after;
          done = rw (found, mine) f.done;
          still_valid = f.still_valid;
          size_after = f.size_after;
          others = λ j x h.
              let (ne, h') =
                update-none-eq-some rx.streams i j
                  (sym (ap (λ (s : ℕ → Option RxElem). s j) f.streams_after) ∙ h) in
              (h', λ lo hi. absurd (ne (at j lo hi)));
          kept = λ j x h ne.
              ap (λ (s : ℕ → Option RxElem). s j) f.streams_after
              ∙ update_ne rx.streams i none j (λ same. ne ground (arith, ap rx.streams same))
              ∙ h;
        }
  ]
]
  where
    at : (j : ℕ) → i ≤ j → j < suc i → i ≡ j
    at j lo hi = omega arith

sweep :
    (k : Kernel) (rx : Rx) (filp i left : ℕ)
    → IsValid k rx
    → Sweeps k rx filp i (i + left) (delete_from rx filp i left)
unfolding delete_from
sweep k rx filp i zero v = unchanged k rx filp i (i + 0) v (λ j e h lo hi. absurd (omega arith))
sweep k rx filp i (suc left) v =
    let first = step_lem k rx filp i v in
    let later = sweep k first.after filp (suc i) left first.still_valid in
    record {
      after = later.after;
      done = rw first.done later.done;
      still_valid = later.still_valid;
      size_after = later.size_after ∙ first.size_after;
      others = λ j e h.
          let (h', foreign) = later.others j e h in
          let (h'', here) = first.others j e h' in
          (
            h'',
            λ lo hi. elim (Bool-cases (i == j)) [
              | inl same ↦ here lo (ground arith)
              | inr ne ↦ foreign (ground arith) (omega arith)
            ],
          );
      kept = λ j e h ne. later.kept j e (first.kept j e h ne) ne;
    }

-- What closing the file `filp` does: exactly the streams that it owns are gone.
abbrev pub ClosesRx : Kernel → Rx → ℕ → Option Rx → Type 0
ClosesRx k rx filp o =
    (rx' : Rx) × (o ≡ some rx')
    × IsValid k rx'
    × ((j : ℕ) (e : RxElem)
        → (rx'.streams j ≡ some e) ↔ ((rx.streams j ≡ some e) × (e.filp ≢ filp)))

-- On a valid state, closing a file removes exactly the RX streams that it owns, whatever their
-- number, and leaves a valid state, without a BUG() or an access beyond a bitmap.
pub delete_streams-ClosesRx :
    (k : Kernel) (rx : Rx) (filp : ℕ) → IsValid k rx → ClosesRx k rx filp (delete_streams rx filp)
unfolding delete_streams
delete_streams-ClosesRx k rx filp v =
    let s = sweep k rx filp 0 rx.sttb.max_entries v in
    (
      s.after,
      s.done,
      s.still_valid,
      λ j e. (
        λ h.
            let (h', foreign) = s.others j e h in
            (h', foreign (omega arith) (omega (arith, v.below j e h'))),
        λ h. s.kept j e h.0 h.1,
      ),
    )
