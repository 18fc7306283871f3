-- ===== src/StreamDevice/Rx/Add.antt =====
-- `ra_sd_rx_add_stream_ioctl`: it fails and changes nothing, or adds the stream.
use ravenna_fpga_drivers.Common.{
  ℕ, ◌<◌, ◌≡◌, refl, Bool, true, false, Option, none, some, arith, length, update, update-update,
  update_same, Bool-cases, Option-cases, inl, inr, ◌==◌,
}
use ravenna_fpga_drivers.Kernel.{Kernel, Result, ok, err, Errno, einval, enomem}
use ravenna_fpga_drivers.Uapi.{RxStream, AddRxStreamCmd, sizeof_add_rx_stream_cmd, max_channels}
use ravenna_fpga_drivers.StreamDevice.TrackTable.{alloc}
use ravenna_fpga_drivers.StreamDevice.TrackTable.Ownership.{claimed, alloc_err}
use ravenna_fpga_drivers.StreamDevice.TrackTable.Operations.{range, set-alloc, alloc-Owned}
use ravenna_fpga_drivers.StreamDevice.RxValidate.Verdict.{
  validate_stream-Verdict, rejects, accepts, Accepted,
}
use ravenna_fpga_drivers.StreamDevice.Rx.{
  Rx, RxElem, Outcome, fail, taken, xa_limit, program, place, add_at, add_locked, add_checked,
  add_stream_ioctl,
}
use ravenna_fpga_drivers.StreamDevice.Rx.Exclusive.{marked, marked-Exclusive}
use ravenna_fpga_drivers.StreamDevice.Rx.Tracks.{
  tracks_of, tracks_of-AllBelow, mark_lem, TracksFree, tracks_available-Available, all_free, in_use,
  no_memory,
}
use ravenna_fpga_drivers.StreamDevice.Rx.Invariant.{IsValid, IsSane, put-IsValid, ranges, writes}
use ravenna_fpga_drivers.StreamDevice.Rx.Program.{set-Programs}

-- What `add` may do with the element `e`.
pub data AddsRx (k : Kernel) (rx : Rx) (e : RxElem) (o : Outcome) : Type 0 where
  refused : (error : Errno) → o ≡ fail error rx → AddsRx k rx e o
  added :
      (index base : ℕ) (rx' : Rx)
      → o ≡ some (ok index, rx')
      → rx.streams index ≡ none
      → TracksFree rx e.stream
      → IsValid k rx'
      → rx'.streams ≡ update rx.streams index (some (record e { trtb_index = base }))
      → AddsRx k rx e o

pub Accepted-IsSane :
    (k : Kernel) (rx : Rx) (s : RxStream)
    → IsValid k rx
    → length s.tracks ≡ max_channels
    → Accepted k rx.max_tracks s
    → IsSane rx.max_tracks s
Accepted-IsSane k rx s v full (fields, below) = record {
  codec_known = fields.codec;
  tracks_given = ground (arith, fields.channels);
  tracks_exist = tracks_of-AllBelow rx.max_tracks s v.few_tracks below;
}

module _ (k : Kernel) (rx : Rx) (v : IsValid k rx) (e : RxElem) (index : ℕ)
    (sane : IsSane rx.max_tracks e.stream) (available : TracksFree rx e.stream)
    (vacant : rx.streams index ≡ none) (below : index < rx.sttb.max_entries) where
  abbrev stored : Rx
  stored = record rx { streams = update rx.streams index (some e) }

  restored :
      (error : Errno)
      → (alloc k rx.trtb e.stream.num_channels).0 ≡ err error
      → place k stored e index (err error) (alloc k rx.trtb e.stream.num_channels).1 ≡ fail error rx
  unfolding place
  restored error got = rw (
    update-update rx.streams index (some e) none,
    update_same rx.streams index none vacant,
    (alloc_err k rx.trtb e.stream.num_channels error got).1,
  )

  placed :
      (got : Result ℕ)
      → (alloc k rx.trtb e.stream.num_channels).0 ≡ got
      → AddsRx k rx e (place k stored e index got (alloc k rx.trtb e.stream.num_channels).1)
  unfolding place program
  placed (err error) got = refused error (restored error got)
  placed (ok base) got =
      let e' : RxElem = record e { trtb_index = base } in
      let p = set-Programs k rx.max_tracks rx.sttb e' index sane below in
      let trtb' = claimed rx.trtb (range base e.stream.num_channels e.stream.tracks) in
      let used' = marked true rx.used_tracks (tracks_of e.stream) in
      added index base
        (record rx {
          sttb = p.table;
          trtb = trtb';
          streams = update rx.streams index (some e');
          used_tracks = used';
        })
        (rw
          (
            mark_lem true (record stored { trtb = (alloc k rx.trtb e.stream.num_channels).1 })
                e.stream sane.tracks_given sane.tracks_exist,
            set-alloc k rx.trtb e.stream.num_channels base e.stream.tracks got sane.tracks_given,
            p.done,
          )
          (rw (update-update rx.streams index (some e) (some e'))))
        vacant available
        (put-IsValid k rx v index below trtb' p.table used' e' p.entry
          (alloc-Owned k rx.trtb (ranges rx.streams) index e.stream.num_channels base
            e.stream.tracks v.table (rw vacant) got)
          (marked-Exclusive rx.used_tracks (writes rx.streams) index v.exclusive
            (tracks_of e.stream) (rw vacant) available.0 available.1)
          p.differs p.shows sane)
        refl

  add_at-AddsRx : AddsRx k rx e (add_at k rx e (ok index))
  unfolding add_at
  add_at-AddsRx = placed (alloc k rx.trtb e.stream.num_channels).0 refl

taken-eq-false : (streams : ℕ → Option RxElem) (i : ℕ) → taken streams i ≡ false → streams i ≡ none
taken-eq-false streams i h = elim (Option-cases (streams i)) [
  | inl e ↦ e
  | inr (x, e) ↦ absurd (ground arith)
]

-- A free index of the stream table, as `xa_alloc` picks it.
alloc_index :
    (k : Kernel) (rx : Rx) (i : ℕ)
    → IsValid k rx
    → k.xa_alloc (taken rx.streams) (xa_limit rx.sttb.max_entries) ≡ ok i
    → (rx.streams i ≡ none) × (i < rx.sttb.max_entries)
alloc_index k rx i v got = (
  taken-eq-false rx.streams i (k.xa_alloc_free _ _ i got),
  omega (arith, k.xa_alloc_limit _ _ i got, v.populated, v.small),
)

index_lem :
    (k : Kernel) (rx : Rx) (e : RxElem) (r : Result ℕ)
    → IsValid k rx
    → IsSane rx.max_tracks e.stream
    → TracksFree rx e.stream
    → k.xa_alloc (taken rx.streams) (xa_limit rx.sttb.max_entries) ≡ r
    → AddsRx k rx e (add_at k rx e r)
unfolding add_at
index_lem k rx e (err error) v sane available got = refused error refl
index_lem k rx e (ok i) v sane available got =
    let (vacant, below) = alloc_index k rx i v got in
    add_at-AddsRx k rx v e i sane available vacant below

add_locked-AddsRx :
    (k : Kernel) (rx : Rx) (e : RxElem) (scratch : Bool)
    → IsValid k rx
    → IsSane rx.max_tracks e.stream
    → AddsRx k rx e (add_locked k rx e scratch)
unfolding add_locked
add_locked-AddsRx k rx e scratch v sane =
    elim (tracks_available-Available rx e.stream scratch sane.tracks_given sane.tracks_exist) [
      | no_memory _ o ↦ refused enomem (rw o)
      | in_use error o _ _ ↦ refused error (rw o)
      | all_free o available ↦ rw o (index_lem k rx e _ v sane available refl)
    ]

abbrev pub requested : AddRxStreamCmd → ℕ → ℕ → RxElem
requested cmd filp pid = record { stream = cmd.stream; filp = filp; pid = pid; trtb_index = 0 }

checked :
    (k : Kernel) (rx : Rx) (filp pid : ℕ) (cmd : AddRxStreamCmd) (memory scratch : Bool)
    → IsValid k rx
    → length cmd.stream.tracks ≡ max_channels
    → AddsRx k rx (requested cmd filp pid) (add_checked k rx filp pid cmd memory scratch)
unfolding add_checked
checked k rx filp pid cmd memory scratch v full = elim (Bool-cases (cmd.version == 0)) [
  | inr wrong ↦ refused einval (rw wrong)
  | inl right ↦ elim (validate_stream-Verdict k rx.max_tracks cmd.stream full) [
    | rejects e o bad ↦ refused e (rw (right, o))
    | accepts o good ↦ elim (Bool-cases memory) [
      | inr out ↦ refused enomem (rw (right, o, out))
      | inl has ↦
          rw (right, o, has)
            (add_locked-AddsRx k rx (requested cmd filp pid) scratch v
              (Accepted-IsSane k rx cmd.stream v full good))
    ]
  ]
]

-- On a valid state, adding an RX stream fails and changes nothing, or its tracks are different and
-- used by no other stream, and it is stored under an index that was free, with the caller as its
-- owner; then the state is valid again. It reaches no BUG() and leaves no array or bitmap, if the
-- array of tracks has its 256 entries.
pub add_stream_ioctl-AddsRx :
    (k : Kernel) (rx : Rx) (filp pid size : ℕ) (cmd : AddRxStreamCmd) (memory scratch : Bool)
    → IsValid k rx
    → length cmd.stream.tracks ≡ max_channels
    → AddsRx k rx
        (requested cmd filp pid)
        (add_stream_ioctl k rx filp pid size (some cmd) memory scratch)
unfolding add_stream_ioctl
add_stream_ioctl-AddsRx k rx filp pid size cmd memory scratch v full =
    elim (Bool-cases (size == sizeof_add_rx_stream_cmd)) [
      | inr wrong ↦ refused einval (rw wrong)
      | inl right ↦ rw right (checked k rx filp pid cmd memory scratch v full)
    ]
