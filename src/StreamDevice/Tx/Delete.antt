-- ===== src/StreamDevice/Tx/Delete.antt =====
-- Deleting a TX stream, by its owner or when the file is closed.
use ravenna_fpga_drivers.Common.{
  ℕ, zero, suc, ◌+◌, ◌≤◌, ◌<◌, ◌≡◌, ◌≢◌, refl, sym, ap, ◌∙◌, Option, none, some, arith, update,
  update-none-eq-some, update_ne, ◌↔◌, Bool-cases, Option-cases, inl, inr, ◌==◌, ==_iff,
}
use ravenna_fpga_drivers.Kernel.{Kernel, ok, Errno, einval, enoent, eacces}
use ravenna_fpga_drivers.Uapi.{DeleteTxStreamCmd, sizeof_delete_tx_stream_cmd}
use ravenna_fpga_drivers.StreamDevice.TrackTable.Ownership.{released, released-Owned}
use ravenna_fpga_drivers.StreamDevice.TrackTable.Operations.{free-released}
use ravenna_fpga_drivers.StreamDevice.Tx.{
  Tx, TxElem, Outcome, fail, free_stream, delete_found, delete_stream_ioctl, delete_if_owned,
  delete_from, delete_streams,
}
use ravenna_fpga_drivers.StreamDevice.Tx.Invariant.{
  IsValid, removed-IsValid, ranges, ranges-eq-some, range_of,
}
use ravenna_fpga_drivers.StreamDevice.Tx.Program.{del-Differs}

-- Taking one stream out of a valid state.
record Frees (k : Kernel) (tx : Tx) (index : ℕ) (result : Option Tx) : Type 0 where
  after : Tx
  done : result ≡ some after
  still_valid : IsValid k after
  streams_after : after.streams ≡ update tx.streams index none
  size_after : after.sttb.max_entries ≡ tx.sttb.max_entries

free_stream-Frees :
    (k : Kernel) (tx : Tx) (index : ℕ) (e : TxElem)
    → IsValid k tx
    → tx.streams index ≡ some e
    → Frees k tx index (free_stream tx e index)
unfolding free_stream
free_stream-Frees k tx index e v found =
    let below = v.below index e found in
    let listed = ranges-eq-some tx.streams index e found in
    let (sttb', deleted, d) = del-Differs tx.sttb index below in
    let trtb' = released tx.trtb (range_of e) in
    record {
      after = record { sttb = sttb'; trtb = trtb'; streams = update tx.streams index none };
      done =
          rw (free-released tx.trtb (ranges tx.streams) v.table index (range_of e) listed, deleted);
      still_valid =
          removed-IsValid k tx v index below trtb' sttb'
            (released-Owned tx.trtb (ranges tx.streams) index v.table (range_of e) listed) d;
      streams_after = refl;
      size_after = d.size;
    }

-- What `delete` of the stream at `index` by `filp` may do.
pub data Deletes (k : Kernel) (tx : Tx) (filp index : ℕ) (o : Outcome) : Type 0 where
  refused : (error : Errno) → o ≡ fail error tx → Deletes k tx filp index o
  deleted :
      (e : TxElem) (tx' : Tx)
      → o ≡ some (ok 0, tx')
      → tx.streams index ≡ some e
      → e.filp ≡ filp
      → IsValid k tx'
      → tx'.streams ≡ update tx.streams index none
      → Deletes k tx filp index o

found_lem :
    (k : Kernel) (tx : Tx) (filp index : ℕ)
    → IsValid k tx
    → Deletes k tx filp index (delete_found tx filp index (tx.streams index))
unfolding delete_found
found_lem k tx filp index v = elim (Option-cases (tx.streams index)) [
  | inl missing ↦ refused enoent (rw missing)
  | inr (e, found) ↦ elim (Bool-cases (e.filp == filp)) [
    | inr other ↦ refused eacces (rw (found, other))
    | inl mine ↦
        let f = free_stream-Frees k tx index e v found in
        deleted e f.after (rw (found, mine, f.done)) found ((==_iff e.filp filp).0 mine)
          f.still_valid f.streams_after
  ]
]

-- On a valid state, deleting a TX stream fails and changes nothing, or it removes the caller's own
-- stream at that index and no other, and leaves a valid state; it reaches no BUG().
pub delete_stream_ioctl-Deletes :
    (k : Kernel) (tx : Tx) (filp size : ℕ) (cmd : DeleteTxStreamCmd)
    → IsValid k tx
    → Deletes k tx filp cmd.index (delete_stream_ioctl tx filp size (some cmd))
unfolding delete_stream_ioctl
delete_stream_ioctl-Deletes k tx filp size cmd v =
    elim (Bool-cases (size == sizeof_delete_tx_stream_cmd)) [
      | inr wrong ↦ refused einval (rw wrong)
      | inl right ↦ elim (Bool-cases (cmd.version == 0)) [
        | inr wrong ↦ refused einval (rw (right, wrong))
        | inl first ↦ rw (right, first) (found_lem k tx filp cmd.index v)
      ]
    ]

-- What the loop of `delete_streams` does from index `lo` up to `hi`.
record Sweeps (k : Kernel) (tx : Tx) (filp lo hi : ℕ) (result : Option Tx) : Type 0 where
  after : Tx
  done : result ≡ some after
  still_valid : IsValid k after
  size_after : after.sttb.max_entries ≡ tx.sttb.max_entries
  others :
      (j : ℕ) (e : TxElem)
      → after.streams j ≡ some e
      → (tx.streams j ≡ some e) × (lo ≤ j → j < hi → e.filp ≢ filp)
  kept : (j : ℕ) (e : TxElem) → tx.streams j ≡ some e → e.filp ≢ filp → after.streams j ≡ some e

unchanged :
    (k : Kernel) (tx : Tx) (filp lo hi : ℕ)
    → IsValid k tx
    → ((j : ℕ) (e : TxElem) → tx.streams j ≡ some e → lo ≤ j → j < hi → e.filp ≢ filp)
    → Sweeps k tx filp lo hi (some tx)
unchanged k tx filp lo hi v foreign = record {
  after = tx;
  done = refl;
  still_valid = v;
  size_after = refl;
  others = λ j e h. (h, foreign j e h);
  kept = λ j e h ne. h;
}

step_lem :
    (k : Kernel) (tx : Tx) (filp i : ℕ)
    → IsValid k tx
    → Sweeps k tx filp i (suc i) (delete_if_owned tx filp i (tx.streams i))
unfolding delete_if_owned
step_lem k tx filp i v = elim (Option-cases (tx.streams i)) [
  | inl missing ↦ rw missing (
      unchanged k tx filp i (suc i) v
        (λ j e h lo hi. absurd (ground (arith, ap tx.streams (at j lo hi)))))
  | inr (e, found) ↦ elim (Bool-cases (e.filp == filp)) [
    | inr other ↦
        rw (found, other)
          (unchanged k tx filp i (suc i) v
            (λ j x h lo hi. ground (arith, ap tx.streams (at j lo hi))))
    | inl mine ↦
        let f = free_stream-Frees k tx i e v found in
        record {
          after = f.after;
          done = rw (found, mine) f.done;
          still_valid = f.still_valid;
          size_after = f.size_after;
          others = λ j x h.
              let (ne, h') =
                update-none-eq-some tx.streams i j
                  (sym (ap (λ (s : ℕ → Option TxElem). s j) f.streams_after) ∙ h) in
              (h', λ lo hi. absurd (ne (at j lo hi)));
          kept = λ j x h ne.
              ap (λ (s : ℕ → Option TxElem). s j) f.streams_after
              ∙ update_ne tx.streams i none j (λ same. ne ground (arith, ap tx.streams same))
              ∙ h;
        }
  ]
]
  where
    at : (j : ℕ) → i ≤ j → j < suc i → i ≡ j
    at j lo hi = omega arith

sweep :
    (k : Kernel) (tx : Tx) (filp i left : ℕ)
    → IsValid k tx
    → Sweeps k tx filp i (i + left) (delete_from tx filp i left)
unfolding delete_from
sweep k tx filp i zero v = unchanged k tx filp i (i + 0) v (λ j e h lo hi. absurd (omega arith))
sweep k tx filp i (suc left) v =
    let first = step_lem k tx filp i v in
    let later = sweep k first.after filp (suc i) left first.still_valid in
    record {
      after = later.after;
      done = rw first.done later.done;
      still_valid = later.still_valid;
      size_after = later.size_after ∙ first.size_after;
      others = λ j e h.
          let (h', foreign) = later.others j e h in
          let (h'', here) = first.others j e h' in
          (
            h'',
            λ lo hi. elim (Bool-cases (i == j)) [
              | inl same ↦ here lo (ground arith)
              | inr ne ↦ foreign (ground arith) (omega arith)
            ],
          );
      kept = λ j e h ne. later.kept j e (first.kept j e h ne) ne;
    }

-- On a valid state, closing a file removes exactly the TX streams that it owns, whatever their number,
-- and leaves a valid state, without a BUG().
pub delete_streams_lem :
    (k : Kernel) (tx : Tx) (filp : ℕ)
    → IsValid k tx
    → (tx' : Tx) × (delete_streams tx filp ≡ some tx')
      × IsValid k tx'
      × ((j : ℕ) (e : TxElem)
          → (tx'.streams j ≡ some e) ↔ ((tx.streams j ≡ some e) × (e.filp ≢ filp)))
unfolding delete_streams
delete_streams_lem k tx filp v =
    let s = sweep k tx filp 0 tx.sttb.max_entries v in
    (
      s.after,
      s.done,
      s.still_valid,
      λ j e. (
        λ h.
            let (h', foreign) = s.others j e h in
            (h', foreign (omega arith) (omega (arith, v.below j e h'))),
        λ h. s.kept j e h.0 h.1,
      ),
    )
