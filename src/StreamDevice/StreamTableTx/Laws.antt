-- ===== src/StreamDevice/StreamTableTx/Laws.antt =====
-- What a TX entry says of its stream, and the order of the writes that program it.
use ravenna_fpga_drivers.Common.{ℕ, zero, suc, ◌/◌, ◌%◌, ◌<◌, ◌≡◌, true, false, some, arith, bit_or}
use ravenna_fpga_drivers.Kernel.{Kernel}
use ravenna_fpga_drivers.Uapi.{TxStream, codec_max}
use ravenna_fpga_drivers.StreamDevice.Codec.{fpga_code-defined}
use ravenna_fpga_drivers.StreamDevice.StreamTable.{
  StreamTable, written, stream_write_lem, write_all_lem,
}
use ravenna_fpga_drivers.StreamDevice.StreamTableTx.{
  TxEntry, zero_entry, entry_with, fill, valid, set, del, reset, misc_control_of, misc_vld,
}

-- The value of a flag as a bit.
abbrev pub bit_of : ℕ → ℕ
bit_of zero = 0
bit_of (suc _) = 1

-- The control byte shows the five flags of the stream in their bits, and has no bit but these and the
-- valid bit.
pub record ShowsFlags (s : TxStream) (misc valid_bit : ℕ) : Type 0 where
  pub active : misc / 64 % 2 ≡ bit_of s.active
  pub vlan : misc / 16 % 2 ≡ bit_of s.vlan_tagged
  pub multicast : misc / 8 % 2 ≡ bit_of s.multicast
  pub secondary : misc / 2 % 2 ≡ bit_of s.use_secondary
  pub primary : misc % 2 ≡ bit_of s.use_primary
  pub reserved : (misc / 32 % 2 ≡ 0) × (misc / 4 % 2 ≡ 0)
  pub vld : misc / 128 ≡ valid_bit

misc_control_of-ShowsFlags :
    (s : TxStream)
    → ShowsFlags s (misc_control_of s) 0 × ShowsFlags s (bit_or (misc_control_of s) misc_vld) 1
unfolding misc_control_of
misc_control_of-ShowsFlags s = ground arith

pub fill-defined :
    (k : Kernel) (s : TxStream) (b len : ℕ)
    → s.codec < codec_max
    → (e : TxEntry) × (fill k s b len ≡ some e)
      × ShowsFlags s e.misc_control 0
      × ShowsFlags s (valid e).misc_control 1
unfolding fill
fill-defined k s b len h =
    let (c, e) = fpga_code-defined s.codec h in
    (
      entry_with k s b len c,
      rw e,
      (misc_control_of-ShowsFlags s).0,
      (misc_control_of-ShowsFlags s).1,
    )

-- A TX stream with a known codec can be programmed at an index of the table: with invalidate the
-- filled entry is written first, and in any case it is written last with the valid bit added; no other
-- entry is written. The control byte of the filled entry shows the five flags of the stream and is
-- without the valid bit; the last one shows the same flags with it.
pub set-valid_last :
    (k : Kernel) (sttb : StreamTable TxEntry) (s : TxStream) (index b len : ℕ)
    → s.codec < codec_max
    → index < sttb.max_entries
    → (e : TxEntry) × (fill k s b len ≡ some e)
      × ShowsFlags s e.misc_control 0
      × ShowsFlags s (valid e).misc_control 1
      × (set k sttb s index b len true ≡ some (written (written sttb index e) index (valid e)))
      × (set k sttb s index b len false ≡ some (written sttb index (valid e)))
unfolding set
set-valid_last k sttb s index b len known below =
    let (e, filled, invalid, usable) = fill-defined k s b len known in
    (
      e,
      filled,
      invalid,
      usable,
      rw (filled, stream_write_lem sttb index e below)
          (stream_write_lem (written sttb index e) index (valid e) below),
      rw filled (stream_write_lem sttb index (valid e) below),
    )

pub del_lem :
    (sttb : StreamTable TxEntry) (index : ℕ)
    → index < sttb.max_entries
    → del sttb index ≡ some (written sttb index zero_entry)
unfolding del
del_lem sttb index below = stream_write_lem sttb index zero_entry below

pub reset-zero_entry :
    (sttb : StreamTable TxEntry)
    → (s' : StreamTable TxEntry) × (reset sttb ≡ some s')
      × (s'.max_entries ≡ sttb.max_entries)
      × ((j : ℕ) → j < sttb.max_entries → s'.regs j ≡ zero_entry)
unfolding reset
reset-zero_entry sttb =
    let (s', done, size, inside, below) =
      write_all_lem sttb zero_entry 0 sttb.max_entries (omega arith) in
    (s', done, size, λ j lt. inside j (omega arith) (omega arith))
