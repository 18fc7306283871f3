-- ===== src/Ptp/Events.antt =====
-- modules/ptp/main.c and regs.h: the time stamps of external events and of the PPS signal. `words` are
-- the values that the reads of the FIFO return, in order.
pub mod Fifo
use ravenna_fpga_drivers.Common.{
  ℕ, zero, suc, ◌+◌, ◌*◌, ◌/◌, ◌%◌, ◌^◌, ◌<◌, ◌≡◌, ◌≢◌, refl, sym, ap, ◌∙◌, subst, Bool, true,
  false, Option, none, some, List, [], ◌∷◌, ◌++◌, map, length, arith, ◌==◌, ==_refl, ==_ne,
  if◌then◌else◌, leb, ltb, ◌&&◌,
}
use ravenna_fpga_drivers.Kernel.{Errno, Result, ok, err, einval, etimedout}
use ravenna_fpga_drivers.Ptp.{nsec_per_sec, Timespec, Reading, Write, iow, cmd, gettime}

abbrev pub max_ts_cnt : ℕ
max_ts_cnt = 15

abbrev pub start_of_ts : ℕ
start_of_ts = 0x1588

-- RA_PTP_EXTTS_TIMESTAMP_WORDLEN is the number of bytes of a time stamp.
abbrev pub timestamp_wordlen : ℕ
timestamp_wordlen = 16

-- The time of an event in nanoseconds, and the RTP time stamp with it.
pub record Event : Type 0 where
  pub timestamp : ℕ
  pub rtp_ts : ℕ

-- The do-while loop with `ctr` rounds left, at least one, from the k-th word on: the word with the mark,
-- and the index after it; or the index after the last word that was read.
pub find_mark : (ℕ → ℕ) → ℕ → ℕ → ℕ × Option ℕ
find_mark words k zero = (k, none)
find_mark words k (suc ctr) =
    let later = find_mark words (suc k) ctr in
    if words k / 65536 == start_of_ts then (suc k, some (words k)) else later

-- `u64` arithmetic
unfoldable pub event_of : ℕ → (ℕ → ℕ) → ℕ → Event
event_of sot words k = record {
  timestamp =
      (((sot % 65536 * 2 ^ 32 + words k) % 2 ^ 64) * nsec_per_sec % 2 ^ 64 + words (k + 1))
      % 2 ^ 64;
  rtp_ts = words (k + 2);
}

-- `last_ptp_timestamp` and `last_rtp_timestamp`, and the events that are passed on, in order.
pub record Extts : Type 0 where
  pub last : Event
  pub events : List Event

-- One round of the loop over the time stamps, after the search.
unfoldable pub report : Extts → (ℕ → ℕ) → ℕ × Option ℕ → ℕ × Extts
report e words (k, none) = (k, e)
report e words (k, some sot) =
    let event = event_of sot words k in
    (k + 3, record { last = event; events = e.events ++ event ∷ [] })

-- ra_ptp_extts_irq, the loop
pub extts_loop : (ℕ → ℕ) → ℕ → ℕ → Extts → Extts
extts_loop words k zero e = e
extts_loop words k (suc ts_cnt) e =
    let (k', e') = report e words (find_mark words k timestamp_wordlen) in
    extts_loop words k' ts_cnt e'

-- RA_PTP_CMD_RESET_EXTTS_FIFO_OVFLW is bit 8, and `overflow` the bit EXTTS_FIFO_OVFLW of the status.
unfoldable pub reset_overflow : ℕ → Bool → List Write
reset_overflow ts_cnt overflow = if leb max_ts_cnt ts_cnt && overflow then iow cmd 256 ∷ [] else []

-- ra_ptp_extts_irq, for what RA_PTP_EXTTS_TS_CNT holds
pub extts_irq : (ℕ → ℕ) → ℕ → Bool → Event → List Write × Extts
unfolding reset_overflow
extts_irq words ts_cnt overflow last = (
  reset_overflow ts_cnt overflow,
  extts_loop words 0 ts_cnt (record { last = last; events = [] }),
)

-- ra_ptp_pps_irq: the seconds of the event that is passed on. The acknowledgement is bit 4.
pub pps_irq : Option Reading → List Write × Option ℕ
unfolding gettime
pps_irq clock = (iow cmd 16 ∷ (gettime clock).0, second (gettime clock).1)
  where
    second : Result Timespec → Option ℕ
    second (ok ts) = some ts.tv_sec
    second (err e) = none
