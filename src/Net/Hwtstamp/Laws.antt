-- ===== src/Net/Hwtstamp/Laws.antt =====
-- What the configuration of time stamps guarantees.
use ravenna_fpga_drivers.Common.{
  ℕ, ◌+◌, ◌*◌, ◌%◌, ◌^◌, ◌≡◌, refl, sym, ap, subst, ◌∙◌, Bool, true, false, not, ◌&&◌, ◌||◌, Option,
  none, some, ◌==◌, if◌then◌else◌, Bool-cases, inl, inr, arith,
}
use ravenna_fpga_drivers.Kernel.{Result, ok, err, einval, efault}
use ravenna_fpga_drivers.Net.TxTs.{FpgaTimestamp, start_of_timestamp, hwtstamp_of}
use ravenna_fpga_drivers.Net.Hwtstamp.{
  Stamping, Config, tx_off, tx_on, filter_none, filter_ptp_v2_l4_event, is_tx_type, is_l4_filter,
  tx_ts_config, config_of, hwtstamp_get, set_tx, set_rx, hwtstamp_ioctl, rx_apply_timestamp,
}

-- The FPGA takes time stamps, and the interrupt is enabled, exactly if one direction wants them.
pub record IsConsistent (priv : Stamping) : Type 0 where
  pub enabled : priv.timestamps_enabled ≡ (priv.tx_ts.enable || priv.rx_ts_enable)
  pub disabled : priv.irq_disabled ≡ not (priv.tx_ts.enable || priv.rx_ts_enable)

abbrev pub IsSupported : Config → Type 0
IsSupported c =
    (c.flags ≡ 0)
    × (is_tx_type c.tx_type ≡ true)
    × ((c.rx_filter == filter_none || is_l4_filter c.rx_filter) ≡ true)

-- What a call for a configuration does: it is refused and nothing changes, or it is applied, and user
-- space reads back what `hwtstamp_get` reports from then on.
pub data Configures (can_write : Bool) (priv : Stamping) (input : Option Config) (priv' : Stamping)
    (r : Result Config) : Type 0 where
  unreadable :
      input ≡ none → priv' ≡ priv → r ≡ err efault → Configures can_write priv input priv' r
  unsupported :
      (c : Config)
      → input ≡ some c
      → ¬ IsSupported c
      → priv' ≡ priv
      → r ≡ err einval
      → Configures can_write priv input priv' r
  applied :
      (c : Config)
      → input ≡ some c
      → IsSupported c
      → IsConsistent priv'
      → priv'.tx_ts ≡ record priv.tx_ts { enable = c.tx_type == tx_on }
      → priv'.rx_ts_enable ≡ not (c.rx_filter == filter_none)
      → priv'.queue_stopped ≡ false
      → r ≡ hwtstamp_get can_write priv'
      → Configures can_write priv input priv' r

set_tx_lem :
    (priv : Stamping) (t : ℕ)
    → is_tx_type t ≡ true
    → set_tx priv t
      ≡ tx_ts_config (record priv { tx_ts = record priv.tx_ts { enable = t == tx_on } })
unfolding set_tx
set_tx_lem priv t known = elim (Bool-cases (t == tx_off)) [
  | inl e ↦ let off : (t == tx_on) ≡ false = ground arith in rw (e, off) refl
  | inr e ↦ let on : (t == tx_on) ≡ true = ground arith in rw (e, on) refl
]

set_rx_lem :
    (priv : Stamping) (c : Config)
    → (c.rx_filter == filter_none || is_l4_filter c.rx_filter) ≡ true
    → set_rx priv c ≡ (
      tx_ts_config (record priv { rx_ts_enable = not (c.rx_filter == filter_none) }),
      record c {
        rx_filter =
            if not (c.rx_filter == filter_none) then filter_ptp_v2_l4_event else filter_none;
      },
    )
unfolding set_rx
set_rx_lem priv c known = elim (Bool-cases (c.rx_filter == filter_none)) [
  | inl e ↦
      let zero : c.rx_filter ≡ filter_none = ground arith in
      rw e (
        ap (λ f. (tx_ts_config (record priv { rx_ts_enable = false }), record c { rx_filter = f }))
          zero)
  | inr e ↦ let l4 : is_l4_filter c.rx_filter ≡ true = ground arith in rw (e, l4) refl
]

tx_type_of :
    (c : Config)
    → is_tx_type c.tx_type ≡ true
    → c.tx_type ≡ (if c.tx_type == tx_on then tx_on else tx_off)
tx_type_of c known = ground arith

with_tx : Stamping → Config → Stamping
unfolding tx_ts_config
with_tx priv c =
    tx_ts_config (record priv { tx_ts = record priv.tx_ts { enable = c.tx_type == tx_on } })

applies :
    (can_write : Bool) (priv : Stamping) (c : Config)
    → IsSupported c
    → Configures can_write priv
        (some c)
        (tx_ts_config (record (with_tx priv c) { rx_ts_enable = not (c.rx_filter == filter_none) }))
        (if can_write
          then ok record c {
            rx_filter =
                if not (c.rx_filter == filter_none) then filter_ptp_v2_l4_event else filter_none;
          }
          else err efault)
unfolding tx_ts_config with_tx hwtstamp_get config_of
applies can_write priv c s =
    let filter = if not (c.rx_filter == filter_none) then filter_ptp_v2_l4_event else filter_none in
    applied c refl s (record { enabled = refl; disabled = refl }) refl refl refl
      (ap (λ c'. if can_write then ok c' else err efault)
        (ap (λ n. record { flags = n; tx_type = c.tx_type; rx_filter = filter }) s.0
          ∙ ap (λ n. record { flags = 0; tx_type = n; rx_filter = filter }) (tx_type_of c s.1)))

-- A call for a configuration fails with EFAULT where the input cannot be read, and with EINVAL where
-- it is not supported, and then changes nothing. Otherwise both directions are set as asked, the FPGA
-- and its interrupt are enabled exactly if one direction wants time stamps, the queue of the net
-- device runs, and the answer is what a call for the current configuration answers then.
pub hwtstamp_ioctl-Configures :
    (can_write : Bool) (priv : Stamping) (input : Option Config)
    → let (priv', r) = hwtstamp_ioctl can_write priv input in
      Configures can_write priv input priv' r
unfolding hwtstamp_ioctl with_tx
hwtstamp_ioctl-Configures can_write priv none = unreadable refl refl refl
hwtstamp_ioctl-Configures can_write priv (some c) = elim (Bool-cases (c.flags == 0)) [
  | inr e ↦ rw e (unsupported c refl (λ s. ground (arith, s.0)) refl refl)
  | inl flags ↦ rw flags (
      let flags_zero : c.flags ≡ 0 = ground arith in
      elim (Bool-cases (is_tx_type c.tx_type)) [
        | inr e ↦ rw e (unsupported c refl (λ s. ground (arith, s.1)) refl refl)
        | inl tx ↦
            rw tx (elim (Bool-cases (c.rx_filter == filter_none || is_l4_filter c.rx_filter)) [
              | inr e ↦ rw e (unsupported c refl (λ s. ground (arith, s.2)) refl refl)
              | inl rx ↦ rw rx (
                  subst
                    (λ x.
                      Configures can_write priv (some c) x.0
                        (if can_write then ok x.1 else err efault))
                    (sym (
                      ap (λ p. set_rx p c) (set_tx_lem priv c.tx_type tx)
                      ∙ set_rx_lem (with_tx priv c) c rx))
                    (applies can_write priv c (flags_zero, tx, rx)))
            ])
      ])
]

-- A received packet gets its time, computed like that of a sent one, exactly if time stamps are wanted
-- and it starts with the mark; otherwise its time stays as it was.
pub rx_apply_timestamp-eq-hwtstamp_of :
    (priv : Stamping) (ts : FpgaTimestamp) (old : ℕ)
    → rx_apply_timestamp priv ts old
      ≡ (if priv.rx_ts_enable && ts.start_of_ts == start_of_timestamp then hwtstamp_of ts else old)
unfolding rx_apply_timestamp hwtstamp_of
rx_apply_timestamp-eq-hwtstamp_of priv ts old =
    let e : ((ts.seconds_hi * 2 ^ 32 + ts.seconds) * 1_000_000_000 + ts.nanoseconds) % 2 ^ 64
        ≡ hwtstamp_of ts =
      omega arith in
    gated priv.rx_ts_enable (ts.start_of_ts == start_of_timestamp) e
  where
    gated :
        (on start : Bool) {n m : ℕ}
        → n ≡ m
        → (if not on then old else if not start then old else n) ≡ (if on && start then m else old)
    gated false start e = refl
    gated true false e = refl
    gated true true e = e
