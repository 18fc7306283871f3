-- ===== src/StreamDevice/Rx/Update.antt =====
-- `ra_sd_rx_update_stream_ioctl`: it fails and shows the old stream, or shows the new one.
use ravenna_fpga_drivers.Common.{
  ℕ, ◌≡◌, refl, sym, ap, subst, ◌∙◌, Bool, true, false, none, some, List, ℤ, arith, length, update,
  update-update, update_self, update_same, Bool-cases, Option-cases, inl, inr, ◌==◌, ==_iff,
}
use ravenna_fpga_drivers.Kernel.{Kernel, Result, ok, err, Errno, einval, enoent, eacces, enomem}
use ravenna_fpga_drivers.Uapi.{
  RxStream, UpdateRxStreamCmd, max_channels, sizeof_update_rx_stream_cmd,
}
use ravenna_fpga_drivers.StreamDevice.TrackTable
use ravenna_fpga_drivers.StreamDevice.TrackTable.{TrackTable, alloc}
use ravenna_fpga_drivers.StreamDevice.TrackTable.Ownership.{
  Owned, Range, claimed, released, rerouted, alloc_err, released-Owned, rerouted-Owned,
}
use ravenna_fpga_drivers.StreamDevice.TrackTable.Operations.{
  range, set-alloc, alloc-Owned, free-released, set-rerouted, alloc-released, released-empty,
}
use ravenna_fpga_drivers.StreamDevice.RxValidate.Verdict.{validate_stream-Verdict, rejects, accepts}
use ravenna_fpga_drivers.StreamDevice.Rx.{
  Rx, RxElem, Outcome, program, give_up, finish, roll_back, resized, resize, update_available,
  update_found, update_checked, update_stream_ioctl,
}
use ravenna_fpga_drivers.StreamDevice.Rx.Exclusive.{
  Exclusive, marked, marked-Exclusive, unmarked-Exclusive, marked-unmarked,
}
use ravenna_fpga_drivers.StreamDevice.Rx.Tracks.{
  tracks_of, mark_lem, TracksFree, tracks_available-Available, all_free, in_use, no_memory,
}
use ravenna_fpga_drivers.StreamDevice.Rx.Invariant.{
  IsValid, IsSane, put-IsValid, ranges, writes, range_of,
}
use ravenna_fpga_drivers.StreamDevice.Rx.Program.{set-Programs}
use ravenna_fpga_drivers.StreamDevice.Rx.View.{view, view-update, view_moved}
use ravenna_fpga_drivers.StreamDevice.Rx.Add.{Accepted-IsSane}

-- What `update` of the stream at `index` to `s` by `filp` may do.
pub data UpdatesRx (k : Kernel) (rx : Rx) (filp index : ℕ) (s : RxStream) (o : Outcome)
    : Type 0 where
  refused :
      (error : Errno) (rx' : Rx)
      → o ≡ some (err error, rx')
      → IsValid k rx'
      → view rx'.streams ≡ view rx.streams
      → UpdatesRx k rx filp index s o
  updated :
      (ret : ℕ) (e : RxElem) (rx' : Rx)
      → o ≡ some (ok ret, rx')
      → rx.streams index ≡ some e
      → e.filp ≡ filp
      → IsValid k rx'
      → view rx'.streams
        ≡ update (view rx.streams) index (some (record { stream = s; filp = filp; pid = e.pid }))
      → UpdatesRx k rx filp index s o

module _ (k : Kernel) (rx : Rx) (v : IsValid k rx) (filp index : ℕ) (s : RxStream) (e : RxElem)
    (found : rx.streams index ≡ some e) (mine : e.filp ≡ filp) where
  -- The state without the marks of the old stream.
  abbrev unmarked : Rx
  unmarked = record rx { used_tracks = marked false rx.used_tracks (tracks_of e.stream) }

  IsSane-old : IsSane rx.max_tracks e.stream
  IsSane-old = v.sane index e found

  remarked : marked true unmarked.used_tracks (tracks_of e.stream) ≡ rx.used_tracks
  remarked =
      marked-unmarked rx.used_tracks (writes rx.streams) index v.exclusive (tracks_of e.stream)
        (rw found)

  Exclusive-new :
      TracksFree unmarked s
      → Exclusive
          (marked true unmarked.used_tracks (tracks_of s))
          (update (writes rx.streams) index (some (tracks_of s)))
  Exclusive-new available =
      subst (Exclusive _) (update-update (writes rx.streams) index none (some (tracks_of s))) (
        marked-Exclusive unmarked.used_tracks (update (writes rx.streams) index none) index
          (unmarked-Exclusive rx.used_tracks (writes rx.streams) index v.exclusive
            (tracks_of e.stream) (rw found))
          (tracks_of s) (update_self (writes rx.streams) index none) available.0 available.1)

  given_up : (error : Errno) → UpdatesRx k rx filp index s (give_up unmarked e error)
  unfolding give_up
  given_up error =
      refused error rx
        (rw (
          mark_lem true unmarked e.stream IsSane-old.tracks_given IsSane-old.tracks_exist,
          remarked,
        ))
        v refl

  finished :
      (trtb trtb' : TrackTable) (base ret : ℕ)
      → TrackTable.set trtb base s.num_channels s.tracks ≡ some trtb'
      → Owned trtb' (update (ranges rx.streams) index (some (range base s.num_channels s.tracks)))
      → IsSane rx.max_tracks s
      → TracksFree unmarked s
      → UpdatesRx k rx filp index s
          (finish k (record unmarked { trtb = trtb }) (record e { trtb_index = base }) index s ret)
  unfolding finish program
  finished trtb trtb' base ret programmed owned sane available =
      let e' : RxElem = record e { stream = s; trtb_index = base } in
      let p = set-Programs k rx.max_tracks rx.sttb e' index sane (v.below index e found) in
      let used' = marked true unmarked.used_tracks (tracks_of s) in
      updated ret e
        (record rx {
          sttb = p.table;
          trtb = trtb';
          streams = update rx.streams index (some e');
          used_tracks = used';
        })
        (rw (
          mark_lem true (record unmarked { trtb = trtb }) s sane.tracks_given sane.tracks_exist,
          programmed,
          p.done,
        ))
        found mine
        (put-IsValid k rx v index (v.below index e found) trtb' p.table used' e' p.entry owned
          (Exclusive-new available) p.differs p.shows sane)
        (view-update rx.streams index (some e')
          ∙ ap
              (λ (f : ℕ).
                update (view rx.streams) index
                  (some (record { stream = s; filp = f; pid = e.pid })))
              mine)

  abbrev old : Range
  old = range_of e

  listed : ranges rx.streams index ≡ some old
  listed = rw found

  -- The table after the old range was given back.
  vacated : Owned (released rx.trtb old) (update (ranges rx.streams) index none)
  vacated = released-Owned rx.trtb (ranges rx.streams) index v.table old listed

  reallocated :
      (n base : ℕ) (tracks : List ℤ)
      → (alloc k (released rx.trtb old) n).0 ≡ ok base
      → Owned
          (claimed (released rx.trtb old) (range base n tracks))
          (update (ranges rx.streams) index (some (range base n tracks)))
  reallocated n base tracks got =
      subst (Owned _) (update-update (ranges rx.streams) index none (some (range base n tracks))) (
        alloc-Owned k (released rx.trtb old) (update (ranges rx.streams) index none) index n base
          tracks vacated (update_self (ranges rx.streams) index none) got)

  -- Only a stream with no channels can fail to get its range back, and it had none.
  not_again :
      (again : Errno)
      → (alloc k (released rx.trtb old) e.stream.num_channels).0 ≡ err again
      → released rx.trtb old ≡ rx.trtb
  not_again again got = elim (Bool-cases (e.stream.num_channels == 0)) [
    | inl none_held ↦ released-empty rx.trtb old (ground arith)
    | inr some_held ↦
        let (base, success) =
          alloc-released rx.trtb (ranges rx.streams) v.table index old listed k (ground arith) in
        absurd (ground arith)
  ]

  rolled_back :
      (error : Errno) (got : Result ℕ)
      → (alloc k (released rx.trtb old) e.stream.num_channels).0 ≡ got
      → UpdatesRx k rx filp index s (
          roll_back k unmarked e index error got
            (alloc k (released rx.trtb old) e.stream.num_channels).1)
  unfolding roll_back program give_up
  rolled_back error (err again) got =
      rw
        (
          (alloc_err k (released rx.trtb old) e.stream.num_channels again got).1,
          not_again again got,
        )
        (given_up again)
  rolled_back error (ok base) got =
      let e' : RxElem = record e { trtb_index = base } in
      let p = set-Programs k rx.max_tracks rx.sttb e' index IsSane-old (v.below index e found) in
      let trtb' =
        claimed (released rx.trtb old) (range base e.stream.num_channels e.stream.tracks) in
      let rx' : Rx = record rx {
        sttb = p.table;
        trtb = trtb';
        streams = update rx.streams index (some e');
      } in
      refused error rx'
        (rw (
          set-alloc k (released rx.trtb old) e.stream.num_channels base e.stream.tracks got
              IsSane-old.tracks_given,
          p.done,
          mark_lem true (record rx' { used_tracks = unmarked.used_tracks }) e.stream
              IsSane-old.tracks_given IsSane-old.tracks_exist,
          remarked,
        ))
        (put-IsValid k rx v index (v.below index e found) trtb' p.table rx.used_tracks e' p.entry
          (reallocated e.stream.num_channels base e.stream.tracks got)
          (subst (Exclusive rx.used_tracks)
            (sym (update_same (writes rx.streams) index (some (tracks_of e.stream)) (rw found)))
            v.exclusive)
          p.differs p.shows IsSane-old)
        (view_moved rx.streams index base e found)

  resized_lem :
      (got : Result ℕ)
      → IsSane rx.max_tracks s
      → TracksFree unmarked s
      → (alloc k (released rx.trtb old) s.num_channels).0 ≡ got
      → UpdatesRx k rx filp index s
          (resized k unmarked e index s got (alloc k (released rx.trtb old) s.num_channels).1)
  unfolding resized
  resized_lem (ok base) sane available got =
      finished (alloc k (released rx.trtb old) s.num_channels).1
        (claimed (released rx.trtb old) (range base s.num_channels s.tracks)) base base
        (set-alloc k (released rx.trtb old) s.num_channels base s.tracks got sane.tracks_given)
        (reallocated s.num_channels base s.tracks got) sane available
  resized_lem (err error) sane available got =
      rw (alloc_err k (released rx.trtb old) s.num_channels error got).1
        (rolled_back error (alloc k (released rx.trtb old) e.stream.num_channels).0 refl)

  resize_lem :
      IsSane rx.max_tracks s
      → TracksFree unmarked s
      → UpdatesRx k rx filp index s (resize k unmarked e index s)
  unfolding resize
  resize_lem sane available =
      rw (free-released rx.trtb (ranges rx.streams) v.table index old listed)
        (resized_lem (alloc k (released rx.trtb old) s.num_channels).0 sane available refl)

  -- The same number of channels: the stream keeps its range.
  kept :
      e.stream.num_channels ≡ s.num_channels
      → IsSane rx.max_tracks s
      → TracksFree unmarked s
      → UpdatesRx k rx filp index s (finish k unmarked e index s 0)
  kept same sane available =
      finished rx.trtb (rerouted rx.trtb old s.tracks) e.trtb_index 0
        (subst
          (λ n.
            TrackTable.set rx.trtb e.trtb_index n s.tracks ≡ some (rerouted rx.trtb old s.tracks))
          same
          (set-rerouted rx.trtb (ranges rx.streams) v.table index old listed s.tracks
            (omega (arith, sane.tracks_given))))
        (subst
          (λ n.
            Owned (rerouted rx.trtb old s.tracks)
              (update (ranges rx.streams) index (some (range e.trtb_index n s.tracks))))
          same (rerouted-Owned rx.trtb (ranges rx.streams) index v.table old s.tracks listed))
        sane available

  available_lem :
      IsSane rx.max_tracks s
      → TracksFree unmarked s
      → UpdatesRx k rx filp index s (update_available k unmarked e index s (ok 0))
  unfolding update_available
  available_lem sane available = elim (Bool-cases (e.stream.num_channels == s.num_channels)) [
    | inl same ↦ rw same (kept ((==_iff _ _).0 same) sane available)
    | inr other ↦ rw other (resize_lem sane available)
  ]

  found_lem :
      (scratch : Bool)
      → IsSane rx.max_tracks s
      → UpdatesRx k rx filp index s (update_found k rx filp index s scratch (some e))
  unfolding update_found update_available
  found_lem scratch sane =
      rw
        (
          (==_iff e.filp filp).1 mine,
          mark_lem false rx e.stream IsSane-old.tracks_given IsSane-old.tracks_exist,
        )
        (elim (tracks_available-Available unmarked s scratch sane.tracks_given sane.tracks_exist) [
          | no_memory _ o ↦ rw o (given_up enomem)
          | in_use error o _ _ ↦ rw o (given_up error)
          | all_free o available ↦ rw o (available_lem sane available)
        ])

locked :
    (k : Kernel) (rx : Rx) (filp index : ℕ) (s : RxStream) (scratch : Bool)
    → IsValid k rx
    → IsSane rx.max_tracks s
    → UpdatesRx k rx filp index s (update_found k rx filp index s scratch (rx.streams index))
unfolding update_found
locked k rx filp index s scratch v sane = elim (Option-cases (rx.streams index)) [
  | inl missing ↦ refused enoent rx (rw missing) v refl
  | inr (e, found) ↦ elim (Bool-cases (e.filp == filp)) [
    | inr other ↦ refused eacces rx (rw (found, other)) v refl
    | inl mine ↦
        rw found (found_lem k rx v filp index s e found ((==_iff e.filp filp).0 mine) scratch sane)
  ]
]

checked :
    (k : Kernel) (rx : Rx) (filp : ℕ) (cmd : UpdateRxStreamCmd) (scratch : Bool)
    → IsValid k rx
    → length cmd.stream.tracks ≡ max_channels
    → UpdatesRx k rx filp cmd.index cmd.stream (update_checked k rx filp cmd scratch)
unfolding update_checked
checked k rx filp cmd scratch v full = elim (Bool-cases (cmd.version == 0)) [
  | inr wrong ↦ refused einval rx (rw wrong) v refl
  | inl right ↦ elim (validate_stream-Verdict k rx.max_tracks cmd.stream full) [
    | rejects e o bad ↦ refused e rx (rw (right, o)) v refl
    | accepts o good ↦
        rw (right, o)
          (locked k rx filp cmd.index cmd.stream scratch v
            (Accepted-IsSane k rx cmd.stream v full good))
  ]
]

-- On a valid state, updating an RX stream returns an error and leaves a valid state in which every
-- client finds its streams as they were, or it gives the caller's own stream at that index the new
-- parameters, changes no other stream, and leaves a valid state. It reaches no BUG() and leaves no
-- array or bitmap, if the array of tracks has its 256 entries.
pub update_stream_ioctl-UpdatesRx :
    (k : Kernel) (rx : Rx) (filp size : ℕ) (cmd : UpdateRxStreamCmd) (scratch : Bool)
    → IsValid k rx
    → length cmd.stream.tracks ≡ max_channels
    → UpdatesRx k rx filp cmd.index cmd.stream
        (update_stream_ioctl k rx filp size (some cmd) scratch)
unfolding update_stream_ioctl
update_stream_ioctl-UpdatesRx k rx filp size cmd scratch v full =
    elim (Bool-cases (size == sizeof_update_rx_stream_cmd)) [
      | inr wrong ↦ refused einval rx (rw wrong) v refl
      | inl right ↦ rw right (checked k rx filp cmd scratch v full)
    ]
