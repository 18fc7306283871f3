-- ===== src/StreamDevice/Rx/Invariant.antt =====
-- What holds of the RX state between two calls: the tables of the FPGA and the bitmap of used tracks
-- show the streams.
use ravenna_fpga_drivers.Common.{
  ℕ, ◌^◌, ◌≤◌, ◌<◌, ◌≡◌, sym, ap, subst, ◌∙◌, true, Option, none, some, ◌>>=◌, List, arith, length,
  update, update-eq-some, update-none-eq-some, update_map, inl, inr, ◌==◌, Bool-cases, bit_or,
  bit_and, Option-cases,
}
use ravenna_fpga_drivers.Kernel.{Kernel, Bitmap}
use ravenna_fpga_drivers.Uapi.{RxStream, codec_max}
use ravenna_fpga_drivers.StreamDevice.Codec.{fpga_code}
use ravenna_fpga_drivers.StreamDevice.StreamTable.{StreamTable, Differs}
use ravenna_fpga_drivers.StreamDevice.StreamTableRx.{
  RxEntry, fill, activated, deactivated, misc_control_of,
}
use ravenna_fpga_drivers.StreamDevice.TrackTable.{TrackTable}
use ravenna_fpga_drivers.StreamDevice.TrackTable.Ownership.{Range, Owned}
use ravenna_fpga_drivers.StreamDevice.TrackTable.Operations.{range}
use ravenna_fpga_drivers.StreamDevice.Rx.{Rx, RxElem}
use ravenna_fpga_drivers.StreamDevice.Rx.Exclusive.{Exclusive}
use ravenna_fpga_drivers.StreamDevice.Rx.Tracks.{tracks_of, AllBelow}

abbrev pub range_of : RxElem → Range
range_of e = range e.trtb_index e.stream.num_channels e.stream.tracks

abbrev pub to_range : Option RxElem → Option Range
to_range none = none
to_range (some e) = some (range_of e)

-- The entries of the track table that each stream owns.
abbrev pub ranges : (ℕ → Option RxElem) → ℕ → Option Range
ranges streams i = to_range (streams i)

abbrev pub to_writes : Option RxElem → Option (List ℕ)
to_writes none = none
to_writes (some e) = some (tracks_of e.stream)

-- The tracks that each stream writes to.
abbrev pub writes : (ℕ → Option RxElem) → ℕ → Option (List ℕ)
writes streams i = to_writes (streams i)

-- The entry of the stream table that shows a stream.
unfoldable pub entry_for : Kernel → RxElem → Option RxEntry
entry_for k e = do entry ← fill k e.stream e.trtb_index; some (activated entry)

-- An entry that the FPGA does not use: neither valid (bit 7) nor active (bit 6).
abbrev pub IsSilent : RxEntry → Type 0
IsSilent x = x.misc_control < 64

-- A stream names a codec that exists, and has a track for each channel, below the number of tracks.
pub record IsSane (max_tracks : ℕ) (s : RxStream) : Type 0 where
  pub codec_known : s.codec < codec_max
  pub tracks_given : s.num_channels ≤ length s.tracks
  pub tracks_exist : AllBelow max_tracks (tracks_of s)

pub record IsValid (k : Kernel) (rx : Rx) : Type 0 where
  pub populated : 0 < rx.sttb.max_entries
  pub small : rx.sttb.max_entries < 2 ^ 31
  pub few_tracks : rx.max_tracks ≤ 256
  pub table : Owned rx.trtb (ranges rx.streams)
  pub exclusive : Exclusive rx.used_tracks (writes rx.streams)
  pub below : (i : ℕ) (e : RxElem) → rx.streams i ≡ some e → i < rx.sttb.max_entries
  pub sane : (i : ℕ) (e : RxElem) → rx.streams i ≡ some e → IsSane rx.max_tracks e.stream
  pub shown : (i : ℕ) (e : RxElem) → rx.streams i ≡ some e → entry_for k e ≡ some (rx.sttb.regs i)
  pub hidden : (i : ℕ) → i < rx.sttb.max_entries → rx.streams i ≡ none → IsSilent (rx.sttb.regs i)

pub ranges-update :
    (streams : ℕ → Option RxElem) (i : ℕ) (o : Option RxElem)
    → update (ranges streams) i (to_range o) ≡ ranges (update streams i o)
ranges-update streams i o = update_map to_range streams i o

pub writes-update :
    (streams : ℕ → Option RxElem) (i : ℕ) (o : Option RxElem)
    → update (writes streams) i (to_writes o) ≡ writes (update streams i o)
writes-update streams i o = update_map to_writes streams i o

misc_silent :
    (s : RxStream) → bit_or (bit_and (bit_and (bit_or (misc_control_of s) 0x84) 0x7f) 0xbf) 4 < 64
unfolding misc_control_of
misc_silent s = ground arith

-- Deactivating the entry that shows a stream silences it.
pub deactivated-IsSilent :
    (k : Kernel) (e : RxElem) (x : RxEntry) → entry_for k e ≡ some x → IsSilent (deactivated x)
unfolding entry_for fill
deactivated-IsSilent k e x h = elim (Option-cases (fpga_code e.stream.codec)) [
  | inl unknown ↦ absurd (ground arith)
  | inr (code, known) ↦
      subst (λ m. bit_or (bit_and (bit_and m 0x7f) 0xbf) 4 < 64)
        (ap (λ (o : Option RxEntry). elim o [ none ↦ 0 | some y ↦ y.misc_control ]) (rw known at h))
        (misc_silent e.stream)
]

module _ (k : Kernel) (rx : Rx) (v : IsValid k rx) (index : ℕ)
    (in_table : index < rx.sttb.max_entries) (trtb : TrackTable) (sttb : StreamTable RxEntry)
    (used : Bitmap) where
  -- The state in which the stream `e` stands at `index`.
  pub put-IsValid :
      (e : RxElem) (entry : RxEntry)
      → Owned trtb (update (ranges rx.streams) index (some (range_of e)))
      → Exclusive used (update (writes rx.streams) index (some (tracks_of e.stream)))
      → Differs rx.sttb sttb index entry
      → entry_for k e ≡ some entry
      → IsSane rx.max_tracks e.stream
      → IsValid k (record rx {
        sttb = sttb;
        trtb = trtb;
        streams = update rx.streams index (some e);
        used_tracks = used;
      })
  put-IsValid e entry owned exclusive d fits good = record {
    populated = ground (arith, d.size, v.populated);
    small = ground (arith, d.size, v.small);
    few_tracks = v.few_tracks;
    table = subst (Owned trtb) (ranges-update rx.streams index (some e)) owned;
    exclusive = subst (Exclusive used) (writes-update rx.streams index (some e)) exclusive;
    below = λ i x h. elim (update-eq-some rx.streams index e i h) [
      | inl (same, _) ↦ ground (arith, d.size)
      | inr (ne, h') ↦ ground (arith, d.size, v.below i x h')
    ];
    sane = λ i x h. elim (update-eq-some rx.streams index e i h) [
      | inl (_, same) ↦ subst (λ (y : RxElem). IsSane rx.max_tracks y.stream) same good
      | inr (ne, h') ↦ v.sane i x h'
    ];
    shown = λ i x h. elim (update-eq-some rx.streams index e i h) [
      | inl (at, same) ↦ ap (entry_for k) (sym same) ∙ fits ∙ ap some (sym d.here ∙ ap sttb.regs at)
      | inr (ne, h') ↦ v.shown i x h' ∙ ap some (sym (d.elsewhere i ne))
    ];
    hidden = λ i lt h. elim (Bool-cases (index == i)) [
      | inl e ↦ absurd (ground arith)
      | inr e ↦
          subst IsSilent (sym (d.elsewhere i (ground arith)))
            (v.hidden i (ground (arith, d.size)) (ground arith))
    ];
  }

  -- The state in which no stream stands at `index`.
  pub removed-IsValid :
      (entry : RxEntry)
      → Owned trtb (update (ranges rx.streams) index none)
      → Exclusive used (update (writes rx.streams) index none)
      → Differs rx.sttb sttb index entry
      → IsSilent entry
      → IsValid k (record rx {
        sttb = sttb;
        trtb = trtb;
        streams = update rx.streams index none;
        used_tracks = used;
      })
  removed-IsValid entry owned exclusive d silent = record {
    populated = ground (arith, d.size, v.populated);
    small = ground (arith, d.size, v.small);
    few_tracks = v.few_tracks;
    table = subst (Owned trtb) (ranges-update rx.streams index none) owned;
    exclusive = subst (Exclusive used) (writes-update rx.streams index none) exclusive;
    below = λ i x h.
        let (ne, h') = update-none-eq-some rx.streams index i h in
        ground (arith, d.size, v.below i x h');
    sane = λ i x h. v.sane i x (update-none-eq-some rx.streams index i h).1;
    shown = λ i x h.
        let (ne, h') = update-none-eq-some rx.streams index i h in
        v.shown i x h' ∙ ap some (sym (d.elsewhere i ne));
    hidden = λ i lt h. elim (Bool-cases (index == i)) [
      | inl e ↦ subst IsSilent (sym d.here ∙ ap sttb.regs (at i e)) silent
      | inr e ↦
          subst IsSilent (sym (d.elsewhere i (ground arith)))
            (v.hidden i (ground (arith, d.size)) (ground arith))
    ];
  }
    where
      at : (i : ℕ) → (index == i) ≡ true → index ≡ i
      at i e = ground arith
