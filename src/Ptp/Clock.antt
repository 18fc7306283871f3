-- ===== src/Ptp/Clock.antt =====
-- The clock after an adjustment.
use ravenna_fpga_drivers.Common.{
  ℕ, zero, suc, ◌+◌, ◌-◌, ◌*◌, ◌/◌, ◌%◌, ◌^◌, ◌≤◌, ◌<◌, ◌≡◌, refl, ℤ, pos, negsuc, Bool, true,
  false, Option, none, some, List, [], ◌∷◌, arith, ltb, leb, ltb→lt, if◌then◌else◌, Bool-cases, inl,
  inr, ap, subst, ◌&&◌, ◌∙◌,
}
use ravenna_fpga_drivers.Kernel.{Result, ok, err, etimedout}
use ravenna_fpga_drivers.Ptp.{
  cmd, offset_correction, event_out_mode, event_out_ns_interval, Write, iow, nsec_per_sec,
  cmd_read_clock, cmd_apply_clock_offset, negative, Timespec, add64, sub64, to_int, Reading,
  time_of, borrow, shift, adjust, adjust_by_settime, adjtime, gettime, settime, set_per_out,
  mode_periodic_enable, enable, perout, Masks,
}

-- The time in nanoseconds.
abbrev pub total : Timespec → ℕ
total ts = ts.tv_sec * nsec_per_sec + ts.tv_nsec

-- The time that is set for a change by `delta` nanoseconds forward.
abbrev pub forward : ℕ → Timespec → Timespec
forward delta ts = record {
  tv_sec = ts.tv_sec + delta / nsec_per_sec;
  tv_nsec = ts.tv_nsec + delta % nsec_per_sec;
}

-- The same backward.
abbrev pub backward : ℕ → Timespec → Timespec
backward delta ts =
    if ltb ts.tv_nsec (delta % nsec_per_sec)
    then record {
      tv_sec = ts.tv_sec - delta / nsec_per_sec - 1;
      tv_nsec = ts.tv_nsec + nsec_per_sec - delta % nsec_per_sec;
    }
    else record {
      tv_sec = ts.tv_sec - delta / nsec_per_sec;
      tv_nsec = ts.tv_nsec - delta % nsec_per_sec;
    }

-- The times for which the 64-bit arithmetic does not overflow: the clock shows at most 2^48 seconds, and
-- the change is less than 2^31 seconds.
pub record InRange (ts : Timespec) (delta : ℕ) : Type 0 where
  pub seconds : ts.tv_sec < 2 ^ 48
  pub nanoseconds : ts.tv_nsec < nsec_per_sec
  pub change : delta < 2 ^ 31 * nsec_per_sec

module _ (delta : ℕ) (small : delta < 2 ^ 31 * nsec_per_sec) where
  to_int_small : to_int (delta / nsec_per_sec) ≡ delta / nsec_per_sec
  to_int_small = ground arith

  rest_small : sub64 delta (delta / nsec_per_sec * nsec_per_sec % 2 ^ 64) ≡ delta % nsec_per_sec
  rest_small = omega arith

timespec_eq :
    {s s' n n' : ℕ}
    → s ≡ s'
    → n ≡ n'
    → ◌≡◌ {A = Timespec} (record { tv_sec = s; tv_nsec = n }) (record { tv_sec = s'; tv_nsec = n' })
timespec_eq {s} {s'} {n} {n'} e f =
    ap (λ x. record { tv_sec = x; tv_nsec = n }) e ∙ ap (λ x. record { tv_sec = s'; tv_nsec = x }) f

shift-forward :
    (ts : Timespec) (delta : ℕ) → InRange ts delta → shift false delta ts ≡ forward delta ts
unfolding shift borrow
shift-forward ts delta r =
    let kept : leb (2 ^ 63) (add64 ts.tv_nsec (delta % nsec_per_sec)) ≡ false = ground arith in
    rw (to_int_small delta r.change, rest_small delta r.change, kept)
      (timespec_eq (omega arith) (omega arith))

shift-backward :
    (ts : Timespec) (delta : ℕ)
    → InRange ts delta
    → delta ≤ total ts
    → shift true delta ts ≡ backward delta ts
unfolding shift borrow
shift-backward ts delta r le = elim (Bool-cases (ltb ts.tv_nsec (delta % nsec_per_sec))) [
  | inl e ↦
      let borrowed : leb (2 ^ 63) (sub64 ts.tv_nsec (delta % nsec_per_sec)) ≡ true = ground arith in
      let less : ts.tv_nsec < delta % nsec_per_sec = ltb→lt _ _ e in
      rw (to_int_small delta r.change, rest_small delta r.change, borrowed, e)
        (timespec_eq (omega arith) (omega arith))
  | inr e ↦
      let kept : leb (2 ^ 63) (sub64 ts.tv_nsec (delta % nsec_per_sec)) ≡ false = ground arith in
      let le' : delta % nsec_per_sec ≤ ts.tv_nsec = ground arith in
      rw (to_int_small delta r.change, rest_small delta r.change, kept, e)
        (timespec_eq (omega arith) (omega arith))
]

-- The times and changes for which the 64-bit arithmetic does not overflow.
abbrev pub Fits : ℤ → Option Reading → Type 0
Fits d none = Unit {0}
Fits (pos n) (some r) = InRange (time_of r) n
Fits (negsuc n) (some r) = InRange (time_of r) (suc n) × (suc n ≤ total (time_of r))

abbrev pub magnitude : ℤ → ℕ
magnitude (pos n) = n
magnitude (negsuc n) = suc n

abbrev pub sign_bit : ℤ → ℕ
sign_bit (pos n) = 0
sign_bit (negsuc n) = negative

-- `t'` is `t` changed by `d`: forward without a carry from the nanoseconds, backward with a borrow.
abbrev pub IsMoved : ℤ → Timespec → Timespec → Type 0
IsMoved (pos n) t t' =
    (t'.tv_sec ≡ t.tv_sec + n / nsec_per_sec) × (t'.tv_nsec ≡ t.tv_nsec + n % nsec_per_sec)
IsMoved (negsuc n) t t' = (total t' + suc n ≡ total t) × (t'.tv_nsec < nsec_per_sec)

pub data Adjusts (d : ℤ) (clock : Option Reading) (result : List Write × Result ℕ) : Type 0 where
  unchanged : magnitude d ≡ 0 → result ≡ ([], ok 0) → Adjusts d clock result
  corrected :
      0 < magnitude d
      → magnitude d ≤ nsec_per_sec
      → result ≡ (
        iow offset_correction (sign_bit d + magnitude d) ∷ iow cmd cmd_apply_clock_offset ∷ [],
        ok 0,
      )
      → Adjusts d clock result
  timed_out :
      nsec_per_sec < magnitude d
      → clock ≡ none
      → result ≡ (iow cmd cmd_read_clock ∷ [], err etimedout)
      → Adjusts d clock result
  clock_set :
      (r : Reading) (t : Timespec)
      → nsec_per_sec < magnitude d
      → clock ≡ some r
      → IsMoved d (time_of r) t
      → result ≡ (iow cmd cmd_read_clock ∷ settime t, ok 0)
      → Adjusts d clock result

total-backward :
    (ts : Timespec) (delta : ℕ)
    → ts.tv_nsec < nsec_per_sec
    → delta ≤ total ts
    → total (backward delta ts) + delta ≡ total ts
total-backward ts delta h le = elim (Bool-cases (ltb ts.tv_nsec (delta % nsec_per_sec))) [
  | inl e ↦ let less : ts.tv_nsec < delta % nsec_per_sec = ltb→lt _ _ e in rw e (omega arith)
  | inr e ↦ let le' : delta % nsec_per_sec ≤ ts.tv_nsec = ground arith in rw e (omega arith)
]

backward-nanoseconds :
    (ts : Timespec) (delta : ℕ)
    → ts.tv_nsec < nsec_per_sec
    → (backward delta ts).tv_nsec < nsec_per_sec
backward-nanoseconds ts delta h = elim (Bool-cases (ltb ts.tv_nsec (delta % nsec_per_sec))) [
  | inl e ↦ let less : ts.tv_nsec < delta % nsec_per_sec = ltb→lt _ _ e in rw e (omega arith)
  | inr e ↦ rw e (omega arith)
]

by_settime :
    (d : ℤ) (minus : Bool) (clock : Option Reading)
    → nsec_per_sec < magnitude d
    → ((r : Reading)
        → clock ≡ some r
        → IsMoved d (time_of r) (shift minus (magnitude d) (time_of r)))
    → Adjusts d clock (adjust_by_settime minus (magnitude d) (gettime clock))
unfolding adjust_by_settime gettime
by_settime d minus none more moved = timed_out more refl refl
by_settime d minus (some r) more moved =
    clock_set r (shift minus (magnitude d) (time_of r)) more refl (moved r refl) refl

adjust-Adjusts :
    (d : ℤ) (minus : Bool) (clock : Option Reading)
    → 0 < magnitude d
    → sign_bit d ≡ (if minus then negative else 0)
    → ((r : Reading)
        → clock ≡ some r
        → IsMoved d (time_of r) (shift minus (magnitude d) (time_of r)))
    → Adjusts d clock (adjust minus (magnitude d) clock)
unfolding adjust adjust_by_settime gettime
adjust-Adjusts d minus clock nonzero sign moved =
    elim (Bool-cases (leb (magnitude d) nsec_per_sec)) [
      | inl e ↦
          let le : magnitude d ≤ nsec_per_sec = ground arith in
          rw (e, ← sign) (corrected nonzero le refl)
      | inr e ↦
          let more : nsec_per_sec < magnitude d = ground arith in
          rw e (by_settime d minus clock more moved)
    ]

-- A change of the PTP clock by 0 does nothing; one by at most a second is written to the correction
-- register, in sign and magnitude. For a larger one the clock is read, which may time out; then
-- nothing is set. Otherwise, if nothing overflows, a time is set: forward, the seconds that were read
-- and the whole seconds of the change, and the nanoseconds that were read and the rest of the change,
-- without a carry, so that these may reach a second and more; backward, the time that was read less
-- the change, with less than a second of nanoseconds.
pub adjtime-Adjusts :
    (d : ℤ) (clock : Option Reading) → Fits d clock → Adjusts d clock (adjtime d clock)
unfolding adjtime
adjtime-Adjusts (pos zero) clock fits = unchanged refl refl
adjtime-Adjusts (pos (suc n)) clock fits =
    adjust-Adjusts (pos (suc n)) false clock (omega arith) refl λ r e.
      let range : InRange (time_of r) (suc n) = subst (Fits (pos (suc n))) e fits in
      rw (shift-forward (time_of r) (suc n) range) (refl, refl)
adjtime-Adjusts (negsuc n) clock fits =
    adjust-Adjusts (negsuc n) true clock (omega arith) refl λ r e.
      let range : InRange (time_of r) (suc n) × (suc n ≤ total (time_of r)) =
        subst (Fits (negsuc n)) e fits in
      rw (shift-backward (time_of r) (suc n) range.0 range.1) (
        total-backward (time_of r) (suc n) range.0.nanoseconds range.1,
        backward-nanoseconds (time_of r) (suc n) range.0.nanoseconds,
      )

-- A change forward whose nanoseconds carry over sets more nanoseconds than a second has.
pub adjtime_not_carried :
    (n : ℕ) (r : Reading)
    → nsec_per_sec < n
    → InRange (time_of r) n
    → nsec_per_sec ≤ r.nanoseconds + n % nsec_per_sec
    → (t : Timespec) × (adjtime (pos n) (some r) ≡ (iow cmd cmd_read_clock ∷ settime t, ok 0))
      × (nsec_per_sec ≤ t.tv_nsec)
unfolding adjtime adjust adjust_by_settime gettime
adjtime_not_carried zero r large range carry = absurd (omega arith)
adjtime_not_carried (suc n) r large range carry =
    let e : leb (suc n) nsec_per_sec ≡ false = ground arith in
    (forward (suc n) (time_of r), rw (e, shift-forward (time_of r) (suc n) range) refl, carry)

-- A period of more than 2^32 ns is cut to 32 bits before it is compared with the limit of a second:
-- where what is left is accepted, the periodic output runs with that interval.
pub enable_perout-wraps :
    (masks : Masks) (sec nsec wraps n : ℕ)
    → sec * nsec_per_sec + nsec ≡ wraps * 2 ^ 32 + n
    → 0 < n
    → n ≤ nsec_per_sec
    → enable masks (perout 0 sec nsec) true ≡ (
      masks,
      iow event_out_mode 0
          ∷ iow event_out_ns_interval n
          ∷ iow event_out_mode mode_periodic_enable
          ∷ [],
      ok 0,
    )
unfolding enable set_per_out
enable_perout-wraps masks sec nsec wraps n e more le =
    let cut : (sec * nsec_per_sec + nsec) % 2 ^ 32 ≡ n = omega arith in
    let accepted : (ltb nsec_per_sec n && ltb n (2 ^ 31)) ≡ false = ground arith in
    let runs : (ltb 0 n && ltb n (2 ^ 31)) ≡ true = ground arith in rw (cut, accepted, runs) refl
