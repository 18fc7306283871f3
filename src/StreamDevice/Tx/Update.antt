-- ===== src/StreamDevice/Tx/Update.antt =====
-- `ra_sd_tx_update_stream_ioctl`: it fails and shows the old stream, or shows the new one.
use ravenna_fpga_drivers.Common.{
  ℕ, ◌≤◌, ◌<◌, ◌≡◌, refl, sym, ap, subst, ◌∙◌, false, none, some, arith, length, update,
  update-update, update_self, Bool-cases, Option-cases, inl, inr, ◌==◌, ==_iff,
}
use ravenna_fpga_drivers.Kernel.{Kernel, Result, ok, err, Errno, einval, enoent, eacces}
use ravenna_fpga_drivers.Uapi.{TxStream, UpdateTxStreamCmd, codec_max, sizeof_update_tx_stream_cmd}
use ravenna_fpga_drivers.StreamDevice.TrackTable
use ravenna_fpga_drivers.StreamDevice.TrackTable.{TrackTable, alloc}
use ravenna_fpga_drivers.StreamDevice.TrackTable.Ownership.{
  Owned, Range, claimed, released, rerouted, alloc_err, released-Owned, rerouted-Owned,
}
use ravenna_fpga_drivers.StreamDevice.TrackTable.Operations.{
  range, set-alloc, alloc-Owned, free-released, set-rerouted, alloc-released, released-empty,
}
use ravenna_fpga_drivers.StreamDevice.Tx.{
  Tx, TxElem, Outcome, stream_ip_length, finish, roll_back, resized, resize, update_found,
  update_locked, update_checked, update_stream_ioctl,
}
use ravenna_fpga_drivers.StreamDevice.Tx.Invariant.{
  IsValid, IsSane, put-IsValid, ranges, ranges-eq-some, range_of,
}
use ravenna_fpga_drivers.StreamDevice.Tx.Admit.{
  admit-Verdict, rejects, accepts, stream_ip_length-defined,
}
use ravenna_fpga_drivers.StreamDevice.Tx.Program.{set-Programs}
use ravenna_fpga_drivers.StreamDevice.Tx.View.{view, view-update, view_moved}

-- What `update` of the stream at `index` to `s` by `filp` may do.
pub data Updates (k : Kernel) (tx : Tx) (filp index : ℕ) (s : TxStream) (o : Outcome) : Type 0 where
  refused :
      (error : Errno) (tx' : Tx)
      → o ≡ some (err error, tx')
      → IsValid k tx'
      → view tx'.streams ≡ view tx.streams
      → Updates k tx filp index s o
  updated :
      (ret : ℕ) (e : TxElem) (tx' : Tx)
      → o ≡ some (ok ret, tx')
      → tx.streams index ≡ some e
      → e.filp ≡ filp
      → IsValid k tx'
      → view tx'.streams
        ≡ update (view tx.streams) index (some (record { stream = s; filp = filp; pid = e.pid }))
      → Updates k tx filp index s o

module _ (k : Kernel) (tx : Tx) (v : IsValid k tx) (filp index : ℕ) (s : TxStream) (len : ℕ)
    (e : TxElem) (found : tx.streams index ≡ some e) (mine : e.filp ≡ filp) where
  finished :
      (trtb trtb' : TrackTable) (base ret : ℕ)
      → TrackTable.set trtb base s.num_channels s.tracks ≡ some trtb'
      → Owned trtb' (update (ranges tx.streams) index (some (range base s.num_channels s.tracks)))
      → IsSane (record e { stream = s })
      → stream_ip_length s ≡ some len
      → Updates k tx filp index s
          (finish k (record tx { trtb = trtb }) (record e { trtb_index = base }) index s len ret)
  unfolding finish
  finished trtb trtb' base ret programmed owned sane ip =
      let e' : TxElem = record e { stream = s; trtb_index = base } in
      let good : IsSane e' = record {
        codec_known = sane.codec_known;
        tracks_given = sane.tracks_given;
      } in
      let p = set-Programs k tx.sttb e' index len false good (v.below index e found) ip in
      updated ret e
        (record { sttb = p.table; trtb = trtb'; streams = update tx.streams index (some e') })
        (rw (programmed, p.done)) found mine
        (put-IsValid k tx v index (v.below index e found) trtb' p.table e' p.entry owned p.differs
          p.shows good)
        (view-update tx.streams index (some e')
          ∙ ap
              (λ (f : ℕ).
                update (view tx.streams) index
                  (some (record { stream = s; filp = f; pid = e.pid })))
              mine)

  abbrev old : Range
  old = range_of e

  listed : ranges tx.streams index ≡ some old
  listed = ranges-eq-some tx.streams index e found

  -- The table after the old range was given back.
  vacated : Owned (released tx.trtb old) (update (ranges tx.streams) index none)
  vacated = released-Owned tx.trtb (ranges tx.streams) index v.table old listed

  reallocated :
      (n base : ℕ) (tracks : _)
      → (alloc k (released tx.trtb old) n).0 ≡ ok base
      → Owned
          (claimed (released tx.trtb old) (range base n tracks))
          (update (ranges tx.streams) index (some (range base n tracks)))
  reallocated n base tracks got =
      subst (Owned _) (update-update (ranges tx.streams) index none (some (range base n tracks))) (
        alloc-Owned k (released tx.trtb old) (update (ranges tx.streams) index none) index n base
          tracks vacated (update_self (ranges tx.streams) index none) got)

  -- The old range, or one of its size, can be had again.
  again_possible :
      0 < e.stream.num_channels
      → (base : ℕ) × ((alloc k (released tx.trtb old) e.stream.num_channels).0 ≡ ok base)
  again_possible pos = alloc-released tx.trtb (ranges tx.streams) v.table index old listed k pos

  -- Only a stream with no channels can fail to get its range back, and it had none.
  not_again :
      (again : Errno)
      → (alloc k (released tx.trtb old) e.stream.num_channels).0 ≡ err again
      → released tx.trtb old ≡ tx.trtb
  not_again again got = elim (Bool-cases (e.stream.num_channels == 0)) [
    | inl none_held ↦ released-empty tx.trtb old (ground arith)
    | inr some_held ↦ let (base, success) = again_possible (ground arith) in absurd (ground arith)
  ]

  rolled_back :
      (error : Errno) (got : Result ℕ)
      → (alloc k (released tx.trtb old) e.stream.num_channels).0 ≡ got
      → Updates k tx filp index s (
          roll_back k tx e index error got (alloc k (released tx.trtb old) e.stream.num_channels).1)
  unfolding roll_back
  rolled_back error (err again) got =
      refused again tx
        (rw (
          (alloc_err k (released tx.trtb old) e.stream.num_channels again got).1,
          not_again again got,
        ))
        v refl
  rolled_back error (ok base) got =
      let sane = v.sane index e found in
      let e' : TxElem = record e { trtb_index = base } in
      let good : IsSane e' = record {
        codec_known = sane.codec_known;
        tracks_given = sane.tracks_given;
      } in
      let (len', ip) = stream_ip_length-defined e.stream sane.codec_known in
      let p = set-Programs k tx.sttb e' index len' false good (v.below index e found) ip in
      let trtb' =
        claimed (released tx.trtb old) (range base e.stream.num_channels e.stream.tracks) in
      refused error
        (record { sttb = p.table; trtb = trtb'; streams = update tx.streams index (some e') })
        (rw (
          set-alloc k (released tx.trtb old) e.stream.num_channels base e.stream.tracks got
              sane.tracks_given,
          ip,
          p.done,
        ))
        (put-IsValid k tx v index (v.below index e found) trtb' p.table e' p.entry
          (reallocated e.stream.num_channels base e.stream.tracks got) p.differs p.shows good)
        (view_moved tx.streams index base e found)

  resized_lem :
      (got : Result ℕ)
      → IsSane (record e { stream = s })
      → stream_ip_length s ≡ some len
      → (alloc k (released tx.trtb old) s.num_channels).0 ≡ got
      → Updates k tx filp index s
          (resized k tx e index s len got (alloc k (released tx.trtb old) s.num_channels).1)
  unfolding resized
  resized_lem (ok base) sane ip got =
      finished (alloc k (released tx.trtb old) s.num_channels).1
        (claimed (released tx.trtb old) (range base s.num_channels s.tracks)) base base
        (set-alloc k (released tx.trtb old) s.num_channels base s.tracks got sane.tracks_given)
        (reallocated s.num_channels base s.tracks got) sane ip
  resized_lem (err error) sane ip got =
      rw (alloc_err k (released tx.trtb old) s.num_channels error got).1
        (rolled_back error (alloc k (released tx.trtb old) e.stream.num_channels).0 refl)

  resize_lem :
      IsSane (record e { stream = s })
      → stream_ip_length s ≡ some len
      → Updates k tx filp index s (resize k tx e index s len)
  unfolding resize
  resize_lem sane ip =
      rw (free-released tx.trtb (ranges tx.streams) v.table index old listed)
        (resized_lem (alloc k (released tx.trtb old) s.num_channels).0 sane ip refl)

  -- The same number of channels: the stream keeps its range.
  kept :
      e.stream.num_channels ≡ s.num_channels
      → IsSane (record e { stream = s })
      → stream_ip_length s ≡ some len
      → Updates k tx filp index s (finish k tx e index s len 0)
  kept same sane ip =
      finished tx.trtb (rerouted tx.trtb old s.tracks) e.trtb_index 0
        (subst
          (λ n.
            TrackTable.set tx.trtb e.trtb_index n s.tracks ≡ some (rerouted tx.trtb old s.tracks))
          same
          (set-rerouted tx.trtb (ranges tx.streams) v.table index old listed s.tracks
            (omega (arith, sane.tracks_given))))
        (subst
          (λ n.
            Owned (rerouted tx.trtb old s.tracks)
              (update (ranges tx.streams) index (some (range e.trtb_index n s.tracks))))
          same (rerouted-Owned tx.trtb (ranges tx.streams) index v.table old s.tracks listed))
        sane ip

  found_lem :
      IsSane (record e { stream = s })
      → stream_ip_length s ≡ some len
      → Updates k tx filp index s (update_found k tx filp index s len (some e))
  unfolding update_found
  found_lem sane ip = elim (Bool-cases (e.stream.num_channels == s.num_channels)) [
    | inl same ↦ rw ((==_iff e.filp filp).1 mine, same) (kept ((==_iff _ _).0 same) sane ip)
    | inr other ↦ rw ((==_iff e.filp filp).1 mine, other) (resize_lem sane ip)
  ]

locked :
    (k : Kernel) (tx : Tx) (filp index : ℕ) (s : TxStream) (len : ℕ)
    → IsValid k tx
    → s.codec < codec_max
    → s.num_channels ≤ length s.tracks
    → stream_ip_length s ≡ some len
    → Updates k tx filp index s (update_locked k tx filp index s len)
unfolding update_locked update_found
locked k tx filp index s len v known given ip = elim (Option-cases (tx.streams index)) [
  | inl missing ↦ refused enoent tx (rw missing) v refl
  | inr (e, found) ↦ elim (Bool-cases (e.filp == filp)) [
    | inr other ↦ refused eacces tx (rw (found, other)) v refl
    | inl mine ↦ rw found (
        found_lem k tx v filp index s len e found ((==_iff e.filp filp).0 mine)
          (record { codec_known = known; tracks_given = given }) ip)
  ]
]

checked :
    (k : Kernel) (max_tracks : ℕ) (tx : Tx) (filp : ℕ) (cmd : UpdateTxStreamCmd)
    → IsValid k tx
    → cmd.stream.num_channels ≤ length cmd.stream.tracks
    → Updates k tx filp cmd.index cmd.stream (update_checked k max_tracks tx filp cmd)
unfolding update_checked
checked k max_tracks tx filp cmd v fits = elim (Bool-cases (cmd.version == 0)) [
  | inr wrong ↦ refused einval tx (rw wrong) v refl
  | inl right ↦ elim (admit-Verdict k max_tracks cmd.stream) [
    | rejects e o ↦ refused e tx (rw (right, o)) v refl
    | accepts len o good ip small ↦
        rw (right, o) (locked k tx filp cmd.index cmd.stream len v good.codec fits ip)
  ]
]

-- On a valid state, updating a TX stream returns an error and leaves a valid state in which every
-- client finds its streams as they were, or it gives the caller's own stream at that index the new
-- parameters, changes no other stream, and leaves a valid state; it reaches no BUG() and reads no
-- track beyond the array, if the command has a track for each channel.
pub update_stream_ioctl-Updates :
    (k : Kernel) (max_tracks : ℕ) (tx : Tx) (filp size : ℕ) (cmd : UpdateTxStreamCmd)
    → IsValid k tx
    → cmd.stream.num_channels ≤ length cmd.stream.tracks
    → Updates k tx filp cmd.index cmd.stream
        (update_stream_ioctl k max_tracks tx filp size (some cmd))
unfolding update_stream_ioctl
update_stream_ioctl-Updates k max_tracks tx filp size cmd v fits =
    elim (Bool-cases (size == sizeof_update_tx_stream_cmd)) [
      | inr wrong ↦ refused einval tx (rw wrong) v refl
      | inl right ↦ rw right (checked k max_tracks tx filp cmd v fits)
    ]

-- On a valid state, when a TX update has freed the range of a stream with at least one channel and
-- finds no range for the new number of channels, the old number can be allocated again.
pub roll_back_finds :
    (k : Kernel) (tx : Tx) (index n : ℕ) (e : TxElem) (freed : TrackTable) (error : Errno)
    → IsValid k tx
    → tx.streams index ≡ some e
    → 0 < e.stream.num_channels
    → TrackTable.free tx.trtb e.trtb_index e.stream.num_channels ≡ some freed
    → (alloc k freed n).0 ≡ err error
    → (base : ℕ) × ((alloc k (alloc k freed n).1 e.stream.num_channels).0 ≡ ok base)
roll_back_finds k tx index n e freed error v found pos gone failed =
    subst (λ t. (base : ℕ) × ((alloc k t e.stream.num_channels).0 ≡ ok base))
      (same ∙ sym (alloc_err k freed n error failed).1)
      (again_possible k tx v e.filp index e.stream 0 e found refl pos)
  where
    same : released tx.trtb (range_of e) ≡ freed
    same = ground (
      arith,
      gone,
      free-released tx.trtb (ranges tx.streams) v.table index (range_of e)
          (ranges-eq-some tx.streams index e found),
    )
