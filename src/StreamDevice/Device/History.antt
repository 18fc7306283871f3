-- ===== src/StreamDevice/Device/History.antt =====
-- What any sequence of calls does.
use ravenna_fpga_drivers.Common.{
  ℕ, Option-cases, sym, ◌≡◌, ◌≢◌, refl, ap, ◌∙◌, Option, none, some, List, [], ◌∷◌, arith, inl, inr,
}
use ravenna_fpga_drivers.Kernel.{Kernel}
use ravenna_fpga_drivers.StreamDevice.Rx
use ravenna_fpga_drivers.StreamDevice.Rx.{Rx}
use ravenna_fpga_drivers.StreamDevice.Tx
use ravenna_fpga_drivers.StreamDevice.Tx.{Tx}
use ravenna_fpga_drivers.StreamDevice.Device.{Device}
use ravenna_fpga_drivers.StreamDevice.Device.Calls.{Call, run, IsSound, AllFit, by, NoneBy}
use ravenna_fpga_drivers.StreamDevice.Device.Steps.{step-Steps}

-- From a sound state, any calls of any clients and any interrupts, in any order, leave a sound state,
-- if no TX command has more channels than its array of tracks has entries, and the arrays of tracks of
-- RX commands have their size: no call reaches a BUG() or leaves an array or a bitmap, and the tables
-- of the FPGA and the bitmaps show exactly the streams.
pub run-IsSound :
    (k : Kernel) (d : Device) (cs : List Call)
    → IsSound k d
    → AllFit cs
    → (d' : Device) × (run k d cs ≡ some d') × IsSound k d'
unfolding run
run-IsSound k d [] sound fits = (d, refl, sound)
run-IsSound k d (c ∷ cs) sound fits =
    let s = step-Steps k d c sound fits.0 in
    let (d', done, sound') = run-IsSound k s.after cs s.sound fits.1 in (d', rw s.done done, sound')

rx_kept :
    (filp j : ℕ) (w : Rx.View.RxView) (rx rx' : Rx)
    → Rx.Isolation.OthersKept filp rx rx'
    → w.filp ≢ filp
    → Rx.View.view rx.streams j ≡ some w
    → Rx.View.view rx'.streams j ≡ some w
rx_kept filp j w rx rx' others ne h = elim (Option-cases (rx.streams j)) [
  | inl missing ↦ absurd (ground arith)
  | inr (e, found) ↦
      let same : some (Rx.View.to_view e) ≡ some w = sym (ap Rx.View.map_view found) ∙ h in
      others j e found (λ owner. ne (sym (ap owner_or same) ∙ owner)) ∙ same
]
  where
    owner_or : Option Rx.View.RxView → ℕ
    owner_or none = 0
    owner_or (some v) = v.filp

tx_kept :
    (filp j : ℕ) (w : Tx.View.TxView) (tx tx' : Tx)
    → Tx.Isolation.OthersKept filp tx tx'
    → w.filp ≢ filp
    → Tx.View.view tx.streams j ≡ some w
    → Tx.View.view tx'.streams j ≡ some w
tx_kept filp j w tx tx' others ne h = elim (Option-cases (tx.streams j)) [
  | inl missing ↦ absurd (ground arith)
  | inr (e, found) ↦
      let same : some (Tx.View.to_view e) ≡ some w = sym (ap Tx.View.map_view found) ∙ h in
      others j e found (λ owner. ne (sym (ap owner_or same) ∙ owner)) ∙ same
]
  where
    owner_or : Option Tx.View.TxView → ℕ
    owner_or none = 0
    owner_or (some v) = v.filp

-- From a sound state, an RX stream keeps its index, its parameters and its owner as long as its
-- owner's file, which is not the null pointer where there are interrupts, makes no call, whatever the
-- other clients do, if no TX command has more channels than its array of tracks has entries, and the
-- arrays of tracks of RX commands have their size.
pub run_rx_kept :
    (k : Kernel) (d : Device) (cs : List Call) (j : ℕ) (w : Rx.View.RxView)
    → IsSound k d
    → AllFit cs
    → NoneBy w.filp cs
    → Rx.View.view d.rx.streams j ≡ some w
    → (d' : Device) × (run k d cs ≡ some d') × (Rx.View.view d'.rx.streams j ≡ some w)
unfolding run
run_rx_kept k d [] j w sound fits quiet h = (d, refl, h)
run_rx_kept k d (c ∷ cs) j w sound fits quiet h =
    let s = step-Steps k d c sound fits.0 in
    let (d', done, h') =
      run_rx_kept k s.after cs j w s.sound fits.1 quiet.1
        (rx_kept (by c) j w d.rx s.after.rx s.rx_others quiet.0 h) in
    (d', rw s.done done, h')

-- From a sound state, a TX stream keeps its index, its parameters and its owner as long as its owner's
-- file, which is not the null pointer where there are interrupts, makes no call, whatever the other
-- clients do, if no TX command has more channels than its array of tracks has entries, and the arrays
-- of tracks of RX commands have their size.
pub run_tx_kept :
    (k : Kernel) (d : Device) (cs : List Call) (j : ℕ) (w : Tx.View.TxView)
    → IsSound k d
    → AllFit cs
    → NoneBy w.filp cs
    → Tx.View.view d.tx.streams j ≡ some w
    → (d' : Device) × (run k d cs ≡ some d') × (Tx.View.view d'.tx.streams j ≡ some w)
unfolding run
run_tx_kept k d [] j w sound fits quiet h = (d, refl, h)
run_tx_kept k d (c ∷ cs) j w sound fits quiet h =
    let s = step-Steps k d c sound fits.0 in
    let (d', done, h') =
      run_tx_kept k s.after cs j w s.sound fits.1 quiet.1
        (tx_kept (by c) j w d.tx s.after.tx s.tx_others quiet.0 h) in
    (d', rw s.done done, h')
