-- ===== src/StreamDevice/Tx/Program.antt =====
-- Programming the entry of a TX stream changes that entry alone, and makes it show the stream.
use ravenna_fpga_drivers.Common.{ℕ, ◌<◌, ◌≡◌, Bool, true, false, some, Option}
use ravenna_fpga_drivers.Kernel.{Kernel}
use ravenna_fpga_drivers.StreamDevice.StreamTable.{
  StreamTable, written, Differs, written-Differs, Differs-again,
}
use ravenna_fpga_drivers.StreamDevice.StreamTableTx
use ravenna_fpga_drivers.StreamDevice.StreamTableTx.{TxEntry, zero_entry, valid}
use ravenna_fpga_drivers.StreamDevice.StreamTableTx.Laws.{set-valid_last, del_lem}
use ravenna_fpga_drivers.StreamDevice.Tx.{TxElem, stream_ip_length}
use ravenna_fpga_drivers.StreamDevice.Tx.Invariant.{IsSane, entry_for}

-- What a call of `set` for the stream of `e` does.
pub record Programs (k : Kernel) (s : StreamTable TxEntry) (e : TxElem) (index : ℕ)
    (result : Option (StreamTable TxEntry)) : Type 0 where
  pub table : StreamTable TxEntry
  pub entry : TxEntry
  pub done : result ≡ some table
  pub differs : Differs s table index entry
  pub shows : entry_for k e ≡ some entry

pub set-Programs :
    (k : Kernel) (s : StreamTable TxEntry) (e : TxElem) (index len : ℕ) (invalidate : Bool)
    → IsSane e
    → index < s.max_entries
    → stream_ip_length e.stream ≡ some len
    → Programs k s e index (StreamTableTx.set k s e.stream index e.trtb_index len invalidate)
unfolding entry_for
set-Programs k s e index len true sane below length =
    let (x, filled, _, _, twice, once) =
      set-valid_last k s e.stream index e.trtb_index len sane.codec_known below in
    record {
      table = written (written s index x) index (valid x);
      entry = valid x;
      done = twice;
      differs = Differs-again s (written s index x) index x (valid x) (written-Differs s index x);
      shows = rw (length, filled);
    }
set-Programs k s e index len false sane below length =
    let (x, filled, _, _, twice, once) =
      set-valid_last k s e.stream index e.trtb_index len sane.codec_known below in
    record {
      table = written s index (valid x);
      entry = valid x;
      done = once;
      differs = written-Differs s index (valid x);
      shows = rw (length, filled);
    }

pub del-Differs :
    (s : StreamTable TxEntry) (index : ℕ)
    → index < s.max_entries
    → (s' : StreamTable TxEntry) × (StreamTableTx.del s index ≡ some s')
      × Differs s s' index zero_entry
del-Differs s index below =
    (written s index zero_entry, del_lem s index below, written-Differs s index zero_entry)
