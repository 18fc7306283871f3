-- ===== src/Ptp.antt =====
-- modules/ptp/main.c: the operations of the PTP clock. A function returns the register writes that it
-- makes, in order; what it reads from the FPGA is an argument. 64-bit signed values are the patterns of
-- their bits. The spin lock makes the writes of an operation one step.

pub mod Clock
pub mod Events
mod Tests
use ravenna_fpga_drivers.Common.{
  ℕ, zero, suc, ◌+◌, ◌-◌, ◌*◌, ◌/◌, ◌%◌, ◌^◌, ℤ, pos, negsuc, Bool, true, false, not, ◌&&◌, Option,
  none, some, List, [], ◌∷◌, ◌++◌, ltb, leb, ◌==◌, if◌then◌else◌, bit_and, update,
}
use ravenna_fpga_drivers.Kernel.{Errno, Result, ok, err, einval, etimedout, eopnotsupp, Bitmap}

pub data Reg : Type 0 where
  cmd set_time_seconds_h set_time_seconds set_time_nanoseconds drift_correction offset_correction
        event_out_mode event_out_ns_interval :
      Reg

-- `ra_ptp_iow`
pub data Write : Type 0 where
  iow : Reg → ℕ → Write

abbrev pub nsec_per_sec : ℕ
nsec_per_sec = 1_000_000_000

abbrev pub cmd_write_clock : ℕ
cmd_write_clock = 1

abbrev pub cmd_read_clock : ℕ
cmd_read_clock = 2

abbrev pub cmd_apply_drift_correction : ℕ
cmd_apply_drift_correction = 4

abbrev pub cmd_apply_clock_offset : ℕ
cmd_apply_clock_offset = 8

-- bit 31 of the two correction registers
abbrev pub negative : ℕ
negative = 2 ^ 31

abbrev pub event_out_max_period : ℕ
event_out_max_period = nsec_per_sec

abbrev pub adj_time_max_offset : ℕ
adj_time_max_offset = nsec_per_sec

abbrev pub drift_correction_max_ppb : ℕ
drift_correction_max_ppb = 100_000

-- RA_PTP_EVENT_OUT_MODE_PERIODIC | RA_PTP_EVENT_OUT_MODE_ENABLE
abbrev pub mode_periodic_enable : ℕ
mode_periodic_enable = 3

-- `struct timespec64`
pub record Timespec : Type 0 where
  pub tv_sec : ℕ
  pub tv_nsec : ℕ

-- `ns` is an `int`: a pattern from 2^31 on is negative.
pub set_per_out : ℕ → List Write × Result ℕ
set_per_out ns = if ltb event_out_max_period ns && ltb ns (2 ^ 31) then ([], err einval) else (
  iow event_out_mode 0
      ∷ iow event_out_ns_interval ns
      ∷ (if ltb 0 ns && ltb ns (2 ^ 31) then iow event_out_mode mode_periodic_enable ∷ [] else []),
  ok 0,
)

-- The writes of ra_ptp_adjfine for a magnitude and the sign bit; the mask 0x7ffff of the value is
-- `% 2 ^ 19`.
unfoldable pub correct_drift : ℕ → ℕ → List Write
correct_drift ppb sign =
    let limited = if ltb drift_correction_max_ppb ppb then drift_correction_max_ppb else ppb in
    iow drift_correction (sign + limited % 2 ^ 19) ∷ iow cmd cmd_apply_drift_correction ∷ []

-- ra_ptp_adjfine. `to_ppb` is the kernel's scaled_ppm_to_ppb.
pub adjfine : (ℤ → ℤ) → ℤ → List Write × Result ℕ
unfolding correct_drift
adjfine to_ppb scaled_ppm = (writes (to_ppb scaled_ppm), ok 0)
  where
    writes : ℤ → List Write
    writes (pos zero) = []
    writes (pos (suc n)) = correct_drift (suc n) 0
    writes (negsuc n) = correct_drift (suc n) negative

-- What the registers hold once the clock is valid, `none` if the wait times out: the upper and the
-- lower 32 bits of the seconds, and the nanoseconds.
pub record Reading : Type 0 where
  pub seconds_h : ℕ
  pub seconds : ℕ
  pub nanoseconds : ℕ

abbrev pub time_of : Reading → Timespec
time_of r = record { tv_sec = r.seconds_h * 2 ^ 32 + r.seconds; tv_nsec = r.nanoseconds }

pub gettime : Option Reading → List Write × Result Timespec
gettime none = (iow cmd cmd_read_clock ∷ [], err etimedout)
gettime (some r) = (iow cmd cmd_read_clock ∷ [], ok (time_of r))

-- The arguments of iowrite32 are cut to 32 bits.
pub settime : Timespec → List Write
settime ts =
    iow set_time_seconds_h (ts.tv_sec / 2 ^ 32)
    ∷ iow set_time_seconds (ts.tv_sec % 2 ^ 32)
    ∷ iow set_time_nanoseconds (ts.tv_nsec % 2 ^ 32)
    ∷ iow cmd cmd_write_clock
    ∷ []

-- `s64` arithmetic
abbrev pub add64 : ℕ → ℕ → ℕ
add64 a b = (a + b) % 2 ^ 64

abbrev pub sub64 : ℕ → ℕ → ℕ
sub64 a b = (a + 2 ^ 64 - b) % 2 ^ 64

-- The conversion of div_u64's result to the `int` res, and back to 64 bits.
abbrev pub to_int : ℕ → ℕ
to_int n = let m = n % 2 ^ 32 in if ltb m (2 ^ 31) then m else m + 2 ^ 64 - 2 ^ 32

-- `if (ts.tv_nsec < 0)`
unfoldable pub borrow : Timespec → Timespec
borrow ts =
    if leb (2 ^ 63) ts.tv_nsec
    then record { tv_sec = sub64 ts.tv_sec 1; tv_nsec = add64 ts.tv_nsec nsec_per_sec }
    else ts

-- ra_ptp_adjtime, the time that is set for a change by more than a second.
unfoldable pub shift : Bool → ℕ → Timespec → Timespec
unfolding borrow
shift minus delta ts =
    let res = to_int (delta / nsec_per_sec) in
    let rest = sub64 delta (res * nsec_per_sec % 2 ^ 64) in
    if minus
    then borrow (record { tv_sec = sub64 ts.tv_sec res; tv_nsec = sub64 ts.tv_nsec rest })
    else borrow (record { tv_sec = add64 ts.tv_sec res; tv_nsec = add64 ts.tv_nsec rest })

unfoldable pub adjust_by_settime : Bool → ℕ → List Write × Result Timespec → List Write × Result ℕ
unfolding settime shift
adjust_by_settime minus delta (reads, err e) = (reads, err e)
adjust_by_settime minus delta (reads, ok ts) = (reads ++ settime (shift minus delta ts), ok 0)

unfoldable pub adjust : Bool → ℕ → Option Reading → List Write × Result ℕ
unfolding gettime adjust_by_settime
adjust minus delta clock =
    if leb delta adj_time_max_offset
    then (
      iow offset_correction ((if minus then negative else 0) + delta)
          ∷ iow cmd cmd_apply_clock_offset
          ∷ [],
      ok 0,
    )
    else adjust_by_settime minus delta (gettime clock)

pub adjtime : ℤ → Option Reading → List Write × Result ℕ
unfolding adjust
adjtime (pos zero) clock = ([], ok 0)
adjtime (pos (suc n)) clock = adjust false (suc n) clock
adjtime (negsuc n) clock = adjust true (suc n) clock

-- `struct ptp_clock_request`. `sec` is the pattern of a 64-bit number.
pub data Request : Type 0 where
  extts : ℕ → Request
  perout : ℕ → ℕ → ℕ → Request
  pps : Request
  other : Request

-- The registers that are changed bit by bit: IRQ_DISABLE and EXTTS_MODE.
pub record Masks : Type 0 where
  pub irq_disable : Bitmap
  pub extts_mode : Bitmap

abbrev pub irq_extts : ℕ
irq_extts = 0

abbrev pub irq_pps : ℕ
irq_pps = 1

abbrev pub mode_enable_extts : ℕ
mode_enable_extts = 31

-- `unsigned int ns = sec * NSEC_PER_SEC + nsec`, if on
abbrev pub period_ns : Bool → ℕ → ℕ → ℕ
period_ns on sec nsec = if on then (sec * nsec_per_sec + nsec) % 2 ^ 32 else 0

pub enable : Masks → Request → Bool → Masks × List Write × Result ℕ
unfolding set_per_out
enable masks (extts index) on = if not (index == 0) then (masks, [], err einval) else (
  record {
    irq_disable = update masks.irq_disable irq_extts (not on);
    extts_mode = update masks.extts_mode mode_enable_extts on;
  },
  [],
  ok 0,
)
enable masks (perout index sec nsec) on =
    if not (index == 0)
    then (masks, [], err einval)
    else let (writes, r) = set_per_out (period_ns on sec nsec) in (masks, writes, r)
enable masks pps on =
    (record masks { irq_disable = update masks.irq_disable irq_pps (not on) }, [], ok 0)
enable masks other on = (masks, [], err eopnotsupp)
