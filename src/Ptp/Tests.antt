-- ===== src/Ptp/Tests.antt =====
-- The PTP clock on concrete values, and the theorems applied to them.
use ravenna_fpga_drivers.Common.{
  ℕ, ◌+◌, ◌^◌, ◌≡◌, refl, pos, negsuc, true, false, some, List, [], ◌∷◌, arith, ◌==◌, if◌then◌else◌,
}
use ravenna_fpga_drivers.Kernel.{ok}
use ravenna_fpga_drivers.Ptp.{
  iow, cmd, event_out_mode, event_out_ns_interval, mode_periodic_enable, Reading, Masks, adjtime,
  enable, perout, adjfine, drift_correction, set_time_seconds_h, set_time_seconds,
  set_time_nanoseconds,
}
use ravenna_fpga_drivers.Ptp.Clock.{Adjusts, adjtime-Adjusts, enable_perout-wraps}
use ravenna_fpga_drivers.Ptp.Events.{Event, extts_irq}
use ravenna_fpga_drivers.Ptp.Events.Fifo.{Entry, extts_irq-Reports}

abbrev noon : Reading
noon = record { seconds_h = 0; seconds = 43_200; nanoseconds = 600_000_000 }

adjtime-Adjusts_example :
    Adjusts (negsuc 1_700_000_000) (some noon) (adjtime (negsuc 1_700_000_000) (some noon))
adjtime-Adjusts_example = adjtime-Adjusts (negsuc 1_700_000_000) (some noon) (omega arith)

-- 1.5 s after 43200.6 s: the seconds do not take what the nanoseconds carry over.
after_noon :
    (adjtime (pos 1_500_000_000) (some noon)).0
    ≡ iow cmd 2
      ∷ iow set_time_seconds_h 0
      ∷ iow set_time_seconds 43_201
      ∷ iow set_time_nanoseconds 1_100_000_000
      ∷ iow cmd 1
      ∷ []
unfolding adjtime
after_noon = refl

-- A correction of 0 writes nothing.
no_correction : (adjfine (λ x. x) (pos 0)).0 ≡ []
unfolding adjfine
no_correction = refl

limited :
    (adjfine (λ x. x) (negsuc 200_000)).0 ≡ iow drift_correction (2 ^ 31 + 100_000) ∷ iow cmd 4 ∷ []
unfolding adjfine
limited = refl

abbrev masks : Masks
masks = record { irq_disable = λ _. true; extts_mode = λ _. false }

-- A period of 5 s.
five_seconds : enable masks (perout 0 5 0) true ≡ (
  masks,
  iow event_out_mode 0
      ∷ iow event_out_ns_interval 705_032_704
      ∷ iow event_out_mode mode_periodic_enable
      ∷ [],
  ok 0,
)
five_seconds = enable_perout-wraps masks 5 0 1 705_032_704 (omega arith) (omega arith) (omega arith)

abbrev entries : List Entry
entries = record { seconds_hi = 1; seconds = 2; nanoseconds = 3; rtp_ts = 4 } ∷ []

-- A stray word, and a time stamp.
abbrev fifo : ℕ → ℕ
fifo k = if k == 0 then 5 else if k == 1 then 0x15880001 else k

abbrev no_event : Event
no_event = record { timestamp = 0; rtp_ts = 0 }

extts_irq-Reports_example : (extts_irq fifo 1 true no_event).1 ≡ record {
  last = record { timestamp = 4_294_967_298_000_000_003; rtp_ts = 4 };
  events = record { timestamp = 4_294_967_298_000_000_003; rtp_ts = 4 } ∷ [];
}
extts_irq-Reports_example = extts_irq-Reports fifo entries true no_event (
  1,
  omega arith,
  (λ i h p. let e : 0 + i ≡ 0 = omega arith in absurd (let p' = rw e at p in omega arith)),
  record { mark = refl; in_width = omega arith; seconds = refl; nanoseconds = refl; rtp_ts = refl },
  tt,
)
