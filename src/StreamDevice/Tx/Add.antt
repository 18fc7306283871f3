-- ===== src/StreamDevice/Tx/Add.antt =====
-- `ra_sd_tx_add_stream_ioctl`: it fails and changes nothing, or adds the stream.
use ravenna_fpga_drivers.Common.{
  ℕ, ◌≤◌, ◌<◌, ◌≡◌, refl, Bool, true, false, Option, none, some, arith, length, update,
  update-update, update_same, Bool-cases, Option-cases, inl, inr, ◌==◌,
}
use ravenna_fpga_drivers.Kernel.{Kernel, Result, ok, err, Errno, einval, enomem}
use ravenna_fpga_drivers.Uapi.{AddTxStreamCmd, sizeof_add_tx_stream_cmd}
use ravenna_fpga_drivers.StreamDevice.TrackTable.{alloc}
use ravenna_fpga_drivers.StreamDevice.TrackTable.Ownership.{claimed, alloc_err}
use ravenna_fpga_drivers.StreamDevice.TrackTable.Operations.{range, set-alloc, alloc-Owned}
use ravenna_fpga_drivers.StreamDevice.Tx.{
  Tx, TxElem, Outcome, fail, taken, xa_limit, stream_ip_length, place, add_at, add_locked,
  add_checked, add_stream_ioctl,
}
use ravenna_fpga_drivers.StreamDevice.Tx.Invariant.{
  IsValid, IsSane, put-IsValid, ranges, ranges-eq-none,
}
use ravenna_fpga_drivers.StreamDevice.Tx.Admit.{admit-Verdict, rejects, accepts}
use ravenna_fpga_drivers.StreamDevice.Tx.Program.{set-Programs}

-- What `add` may do with the element `e`.
pub data Adds (k : Kernel) (tx : Tx) (e : TxElem) (o : Outcome) : Type 0 where
  refused : (error : Errno) → o ≡ fail error tx → Adds k tx e o
  added :
      (index base : ℕ) (tx' : Tx)
      → o ≡ some (ok index, tx')
      → tx.streams index ≡ none
      → IsValid k tx'
      → tx'.streams ≡ update tx.streams index (some (record e { trtb_index = base }))
      → Adds k tx e o

module _ (k : Kernel) (tx : Tx) (v : IsValid k tx) (e : TxElem) (len index : ℕ) (sane : IsSane e)
    (ip : stream_ip_length e.stream ≡ some len) (vacant : tx.streams index ≡ none)
    (below : index < tx.sttb.max_entries) where
  abbrev stored : Tx
  stored = record tx { streams = update tx.streams index (some e) }

  restored :
      (error : Errno)
      → (alloc k tx.trtb e.stream.num_channels).0 ≡ err error
      → place k stored e index len (err error) (alloc k tx.trtb e.stream.num_channels).1
        ≡ fail error tx
  unfolding place
  restored error got = rw (
    update-update tx.streams index (some e) none,
    update_same tx.streams index none vacant,
    (alloc_err k tx.trtb e.stream.num_channels error got).1,
  )

  placed :
      (got : Result ℕ)
      → (alloc k tx.trtb e.stream.num_channels).0 ≡ got
      → Adds k tx e (place k stored e index len got (alloc k tx.trtb e.stream.num_channels).1)
  unfolding place
  placed (err error) got = refused error (restored error got)
  placed (ok base) got =
      let e' : TxElem = record e { trtb_index = base } in
      let p =
        set-Programs k tx.sttb e' index len true
          (record { codec_known = sane.codec_known; tracks_given = sane.tracks_given }) below ip in
      let trtb' = claimed tx.trtb (range base e.stream.num_channels e.stream.tracks) in
      added index base
        (record { sttb = p.table; trtb = trtb'; streams = update tx.streams index (some e') })
        (rw
          (
            set-alloc k tx.trtb e.stream.num_channels base e.stream.tracks got sane.tracks_given,
            p.done,
          )
          (rw (update-update tx.streams index (some e) (some e'))))
        vacant
        (put-IsValid k tx v index below trtb' p.table e' p.entry
          (alloc-Owned k tx.trtb (ranges tx.streams) index e.stream.num_channels base
            e.stream.tracks v.table (ranges-eq-none tx.streams index vacant) got)
          p.differs p.shows
          (record { codec_known = sane.codec_known; tracks_given = sane.tracks_given }))
        refl

  add_at-Adds : Adds k tx e (add_at k tx e len (ok index))
  unfolding add_at
  add_at-Adds = placed (alloc k tx.trtb e.stream.num_channels).0 refl

taken-eq-false : (streams : ℕ → Option TxElem) (i : ℕ) → taken streams i ≡ false → streams i ≡ none
taken-eq-false streams i h = elim (Option-cases (streams i)) [
  | inl e ↦ e
  | inr (x, e) ↦ absurd (ground arith)
]

-- A free index of the stream table, as `xa_alloc` picks it.
alloc_index :
    (k : Kernel) (tx : Tx) (i : ℕ)
    → IsValid k tx
    → k.xa_alloc (taken tx.streams) (xa_limit tx.sttb.max_entries) ≡ ok i
    → (tx.streams i ≡ none) × (i < tx.sttb.max_entries)
alloc_index k tx i v got = (
  taken-eq-false tx.streams i (k.xa_alloc_free _ _ i got),
  omega (arith, k.xa_alloc_limit _ _ i got, v.populated, v.small),
)

add_locked-Adds :
    (k : Kernel) (tx : Tx) (e : TxElem) (len : ℕ)
    → IsValid k tx
    → IsSane e
    → stream_ip_length e.stream ≡ some len
    → Adds k tx e (add_locked k tx e len)
unfolding add_locked add_at
add_locked-Adds k tx e len v sane ip =
    go (k.xa_alloc (taken tx.streams) (xa_limit tx.sttb.max_entries)) refl
  where
    go :
        (r : Result ℕ)
        → k.xa_alloc (taken tx.streams) (xa_limit tx.sttb.max_entries) ≡ r
        → Adds k tx e (add_at k tx e len r)
    go (err error) got = refused error refl
    go (ok i) got =
        let (vacant, below) = alloc_index k tx i v got in
        add_at-Adds k tx v e len i sane ip vacant below

abbrev pub requested : AddTxStreamCmd → ℕ → ℕ → TxElem
requested cmd filp pid = record { stream = cmd.stream; filp = filp; pid = pid; trtb_index = 0 }

checked :
    (k : Kernel) (max_tracks : ℕ) (tx : Tx) (filp pid : ℕ) (cmd : AddTxStreamCmd) (memory : Bool)
    → IsValid k tx
    → cmd.stream.num_channels ≤ length cmd.stream.tracks
    → Adds k tx (requested cmd filp pid) (add_checked k max_tracks tx filp pid cmd memory)
unfolding add_checked
checked k max_tracks tx filp pid cmd memory v fits = elim (Bool-cases (cmd.version == 0)) [
  | inr wrong ↦ refused einval (rw wrong)
  | inl right ↦ elim (admit-Verdict k max_tracks cmd.stream) [
    | rejects e o ↦ refused e (rw (right, o))
    | accepts len o good ip small ↦ elim (Bool-cases memory) [
      | inr out ↦ refused enomem (rw (right, o, out))
      | inl has ↦
          rw (right, o, has)
            (add_locked-Adds k tx (requested cmd filp pid) len v
              (record { codec_known = good.codec; tracks_given = fits }) ip)
    ]
  ]
]

-- On a valid state, adding a TX stream fails and changes nothing, or it stores the stream under an
-- index that was free, with the caller as its owner, returns that index and leaves a valid state; it
-- reaches no BUG() and reads no track beyond the array, if the command has a track for each channel.
pub add_stream_ioctl-Adds :
    (k : Kernel) (max_tracks : ℕ) (tx : Tx) (filp pid size : ℕ) (cmd : AddTxStreamCmd)
    (memory : Bool)
    → IsValid k tx
    → cmd.stream.num_channels ≤ length cmd.stream.tracks
    → Adds k tx
        (requested cmd filp pid)
        (add_stream_ioctl k max_tracks tx filp pid size (some cmd) memory)
unfolding add_stream_ioctl
add_stream_ioctl-Adds k max_tracks tx filp pid size cmd memory v fits =
    elim (Bool-cases (size == sizeof_add_tx_stream_cmd)) [
      | inr wrong ↦ refused einval (rw wrong)
      | inl right ↦ rw right (checked k max_tracks tx filp pid cmd memory v fits)
    ]
