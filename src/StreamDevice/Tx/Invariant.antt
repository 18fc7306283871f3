-- ===== src/StreamDevice/Tx/Invariant.antt =====
-- What holds of the TX state between two calls: the tables of the FPGA show the streams.
use ravenna_fpga_drivers.Common.{
  ℕ, ◌^◌, ◌≤◌, ◌<◌, ◌≡◌, sym, ap, subst, ◌∙◌, Option, none, some, ◌>>=◌, arith, length, update,
  update-eq-some, update-none-eq-some, update_map, inl, inr, ◌==◌, Bool-cases, true,
}
use ravenna_fpga_drivers.Kernel.{Kernel}
use ravenna_fpga_drivers.Uapi.{codec_max}
use ravenna_fpga_drivers.StreamDevice.StreamTable.{StreamTable, Differs}
use ravenna_fpga_drivers.StreamDevice.StreamTableTx.{TxEntry, zero_entry, fill, valid}
use ravenna_fpga_drivers.StreamDevice.TrackTable.{TrackTable}
use ravenna_fpga_drivers.StreamDevice.TrackTable.Ownership.{Range, Owned}
use ravenna_fpga_drivers.StreamDevice.TrackTable.Operations.{range}
use ravenna_fpga_drivers.StreamDevice.Tx.{Tx, TxElem, stream_ip_length}

abbrev pub range_of : TxElem → Range
range_of e = range e.trtb_index e.stream.num_channels e.stream.tracks

abbrev pub to_range : Option TxElem → Option Range
to_range none = none
to_range (some e) = some (range_of e)

-- The entries of the track table that each stream owns.
abbrev pub ranges : (ℕ → Option TxElem) → ℕ → Option Range
ranges streams i = to_range (streams i)

-- The entry of the stream table that shows a stream.
unfoldable pub entry_for : Kernel → TxElem → Option TxEntry
entry_for k e = do
  ip_total_len ← stream_ip_length e.stream
  entry ← fill k e.stream e.trtb_index ip_total_len
  some (valid entry)

-- A stream names a codec that exists, and has a track for each channel.
pub record IsSane (e : TxElem) : Type 0 where
  pub codec_known : e.stream.codec < codec_max
  pub tracks_given : e.stream.num_channels ≤ length e.stream.tracks

pub record IsValid (k : Kernel) (tx : Tx) : Type 0 where
  pub populated : 0 < tx.sttb.max_entries
  pub small : tx.sttb.max_entries < 2 ^ 31
  pub table : Owned tx.trtb (ranges tx.streams)
  pub below : (i : ℕ) (e : TxElem) → tx.streams i ≡ some e → i < tx.sttb.max_entries
  pub sane : (i : ℕ) (e : TxElem) → tx.streams i ≡ some e → IsSane e
  pub shown : (i : ℕ) (e : TxElem) → tx.streams i ≡ some e → entry_for k e ≡ some (tx.sttb.regs i)
  pub hidden : (i : ℕ) → i < tx.sttb.max_entries → tx.streams i ≡ none → tx.sttb.regs i ≡ zero_entry

pub ranges-eq-some :
    (streams : ℕ → Option TxElem) (i : ℕ) (e : TxElem)
    → streams i ≡ some e
    → ranges streams i ≡ some (range_of e)
ranges-eq-some streams i e h = rw h

pub ranges-eq-none :
    (streams : ℕ → Option TxElem) (i : ℕ) → streams i ≡ none → ranges streams i ≡ none
ranges-eq-none streams i h = rw h

pub ranges-update :
    (streams : ℕ → Option TxElem) (i : ℕ) (o : Option TxElem)
    → update (ranges streams) i (to_range o) ≡ ranges (update streams i o)
ranges-update streams i o = update_map to_range streams i o

module _ (k : Kernel) (tx : Tx) (v : IsValid k tx) (index : ℕ)
    (in_table : index < tx.sttb.max_entries) (trtb : TrackTable) (sttb : StreamTable TxEntry) where
  -- The state in which the stream `e` stands at `index`.
  pub put-IsValid :
      (e : TxElem) (entry : TxEntry)
      → Owned trtb (update (ranges tx.streams) index (some (range_of e)))
      → Differs tx.sttb sttb index entry
      → entry_for k e ≡ some entry
      → IsSane e
      → IsValid k (record { sttb = sttb; trtb = trtb; streams = update tx.streams index (some e) })
  put-IsValid e entry owned d fits good = record {
    populated = ground (arith, d.size, v.populated);
    small = ground (arith, d.size, v.small);
    table = subst (Owned trtb) (ranges-update tx.streams index (some e)) owned;
    below = λ i x h. elim (update-eq-some tx.streams index e i h) [
      | inl (same, _) ↦ ground (arith, d.size)
      | inr (ne, h') ↦ ground (arith, d.size, v.below i x h')
    ];
    sane = λ i x h. elim (update-eq-some tx.streams index e i h) [
      | inl (_, same) ↦ subst IsSane same good
      | inr (ne, h') ↦ v.sane i x h'
    ];
    shown = λ i x h. elim (update-eq-some tx.streams index e i h) [
      | inl (at, same) ↦ ap (entry_for k) (sym same) ∙ fits ∙ ap some (sym d.here ∙ ap sttb.regs at)
      | inr (ne, h') ↦ v.shown i x h' ∙ ap some (sym (d.elsewhere i ne))
    ];
    hidden = λ i lt h. elim (Bool-cases (index == i)) [
      | inl e ↦ absurd (ground arith)
      | inr e ↦ d.elsewhere i (ground arith) ∙ v.hidden i (ground (arith, d.size)) (ground arith)
    ];
  }

  -- The state in which no stream stands at `index`.
  pub removed-IsValid :
      Owned trtb (update (ranges tx.streams) index none)
      → Differs tx.sttb sttb index zero_entry
      → IsValid k (record { sttb = sttb; trtb = trtb; streams = update tx.streams index none })
  removed-IsValid owned d = record {
    populated = ground (arith, d.size, v.populated);
    small = ground (arith, d.size, v.small);
    table = subst (Owned trtb) (ranges-update tx.streams index none) owned;
    below = λ i x h.
        let (ne, h') = update-none-eq-some tx.streams index i h in
        ground (arith, d.size, v.below i x h');
    sane = λ i x h. v.sane i x (update-none-eq-some tx.streams index i h).1;
    shown = λ i x h.
        let (ne, h') = update-none-eq-some tx.streams index i h in
        v.shown i x h' ∙ ap some (sym (d.elsewhere i ne));
    hidden = λ i lt h. elim (Bool-cases (index == i)) [
      | inl e ↦ ground (arith, d.here, ap sttb.regs (at i e))
      | inr e ↦ d.elsewhere i (ground arith) ∙ v.hidden i (ground (arith, d.size)) (ground arith)
    ];
  }
    where
      at : (i : ℕ) → (index == i) ≡ true → index ≡ i
      at i e = ground arith
