-- ===== src/StreamDevice/Rx/Program.antt =====
-- Programming the entry of an RX stream changes that entry alone, and makes it show the stream.
use ravenna_fpga_drivers.Common.{ℕ, ◌<◌, ◌≡◌, Option, some}
use ravenna_fpga_drivers.Kernel.{Kernel}
use ravenna_fpga_drivers.StreamDevice.StreamTable.{
  StreamTable, written, Differs, written-Differs, Differs-again,
}
use ravenna_fpga_drivers.StreamDevice.StreamTableRx
use ravenna_fpga_drivers.StreamDevice.StreamTableRx.{RxEntry, zero_entry, activated, deactivated}
use ravenna_fpga_drivers.StreamDevice.StreamTableRx.Laws.{set_invalid_first, del_lem}
use ravenna_fpga_drivers.StreamDevice.Rx.{RxElem}
use ravenna_fpga_drivers.StreamDevice.Rx.Invariant.{
  IsSane, IsSilent, entry_for, deactivated-IsSilent,
}

-- What a call of `set` for the stream of `e` does.
pub record Programs (k : Kernel) (s : StreamTable RxEntry) (e : RxElem) (index : ℕ)
    (result : Option (StreamTable RxEntry)) : Type 0 where
  pub table : StreamTable RxEntry
  pub entry : RxEntry
  pub done : result ≡ some table
  pub differs : Differs s table index entry
  pub shows : entry_for k e ≡ some entry

pub set-Programs :
    (k : Kernel) (max_tracks : ℕ) (s : StreamTable RxEntry) (e : RxElem) (index : ℕ)
    → IsSane max_tracks e.stream
    → index < s.max_entries
    → Programs k s e index (StreamTableRx.set k s e.stream index e.trtb_index)
unfolding entry_for
set-Programs k max_tracks s e index sane below =
    let (x, filled, _, _, _, done) =
      set_invalid_first k s e.stream index e.trtb_index sane.codec_known below in
    let once = written s index zero_entry in
    record {
      table = written (written once index x) index (activated x);
      entry = activated x;
      done = done;
      differs =
          Differs-again s (written once index x) index x (activated x)
            (Differs-again s once index zero_entry x (written-Differs s index zero_entry));
      shows = rw filled;
    }

pub del-Differs :
    (k : Kernel) (s : StreamTable RxEntry) (e : RxElem) (index : ℕ)
    → index < s.max_entries
    → entry_for k e ≡ some (s.regs index)
    → (s' : StreamTable RxEntry) × (x : RxEntry) × (StreamTableRx.del s index ≡ some s')
      × Differs s s' index x
      × IsSilent x
del-Differs k s e index below shown = (
  written s index (deactivated (s.regs index)),
  deactivated (s.regs index),
  del_lem s index below,
  written-Differs s index (deactivated (s.regs index)),
  deactivated-IsSilent k e (s.regs index) shown,
)
