-- ===== src/StreamDevice/Probe/Sound.antt =====
-- The probe leaves a sound state.
use ravenna_fpga_drivers.Common.{
  ℕ, ◌/◌, ◌%◌, ◌^◌, ◌≤◌, ◌<◌, ◌≡◌, refl, sym, subst, Bool, false, Option, none, some, [], arith,
  ltb, ◌==◌, Bool-cases, inl, inr,
}
use ravenna_fpga_drivers.Kernel.{Kernel, Result, ok, err, Errno, einval, enomem}
use ravenna_fpga_drivers.StreamDevice.StreamTable.{StreamTable}
use ravenna_fpga_drivers.StreamDevice.StreamTableRx
use ravenna_fpga_drivers.StreamDevice.StreamTableRx.{RxEntry}
use ravenna_fpga_drivers.StreamDevice.StreamTableTx
use ravenna_fpga_drivers.StreamDevice.StreamTableTx.{TxEntry}
use ravenna_fpga_drivers.StreamDevice.TrackTable.{TrackTable}
use ravenna_fpga_drivers.StreamDevice.TrackTable.Ownership.{Owned}
use ravenna_fpga_drivers.StreamDevice.TrackTable.Operations.{reset-Owned}
use ravenna_fpga_drivers.StreamDevice.RtcpData.{RtcpRxDataFpga, RtcpTxDataFpga}
use ravenna_fpga_drivers.StreamDevice.Rtcp.{Rtcp}
use ravenna_fpga_drivers.StreamDevice.Rx
use ravenna_fpga_drivers.StreamDevice.Rx.{Rx}
use ravenna_fpga_drivers.StreamDevice.Tx
use ravenna_fpga_drivers.StreamDevice.Tx.{Tx}
use ravenna_fpga_drivers.StreamDevice.Device.Calls.{IsSound}
use ravenna_fpga_drivers.StreamDevice.Probe.{
  Resources, and_then, stream_table_tx_probe, stream_table_rx_probe, track_table_probe, tx_probe,
  rx_probe, probe,
}

-- A probe function fails with an error, or gives a value that is as it should be; it reaches no BUG().
pub data Probes {A : Type 0} (P : A → Type 0) (o : Option (Result A)) : Type 0 where
  failed : (e : Errno) → o ≡ some (err e) → Probes P o
  probed : (a : A) → o ≡ some (ok a) → P a → Probes P o

and_then-Probes :
    {A B : Type 0} {P : A → Type 0} {Q : B → Type 0} (o : Option (Result A))
    (f : A → Option (Result B))
    → Probes P o
    → ((a : A) → P a → Probes Q (f a))
    → Probes Q (and_then o f)
and_then-Probes o f (failed e done) next = rw done (failed e refl)
and_then-Probes o f (probed a done p) next = rw done (next a p)

stream_table_tx_probe-Probes :
    (regs : ℕ → TxEntry) (size : ℕ)
    → Probes
        (λ (s : StreamTable TxEntry).
          (s.max_entries ≡ size / 0x40)
          × (size % 0x40 ≡ 0)
          × ((j : ℕ) → j < s.max_entries → s.regs j ≡ StreamTableTx.zero_entry))
        (stream_table_tx_probe regs size)
unfolding stream_table_tx_probe
stream_table_tx_probe-Probes regs size = elim (Bool-cases (size % 0x40 == 0)) [
  | inr odd ↦ failed einval (rw odd)
  | inl whole ↦
      let (s', done, same, zeros) =
        StreamTableTx.Laws.reset-zero_entry
          (record { regs = regs; max_entries = size / 0x40; writes = [] }) in
      probed s' (rw (whole, done)) (same, ground arith, λ j lt. zeros j (omega (arith, same)))
]

stream_table_rx_probe-Probes :
    (regs : ℕ → RxEntry) (size : ℕ)
    → Probes
        (λ (s : StreamTable RxEntry).
          (s.max_entries ≡ size / 0x20)
          × (size % 0x20 ≡ 0)
          × ((j : ℕ) → j < s.max_entries → s.regs j ≡ StreamTableRx.zero_entry))
        (stream_table_rx_probe regs size)
unfolding stream_table_rx_probe
stream_table_rx_probe-Probes regs size = elim (Bool-cases (size % 0x20 == 0)) [
  | inr odd ↦ failed einval (rw odd)
  | inl whole ↦
      let (s', done, same, zeros) =
        StreamTableRx.Laws.reset-zero_entry
          (record { regs = regs; max_entries = size / 0x20; writes = [] }) in
      probed s' (rw (whole, done)) (same, ground arith, λ j lt. zeros j (omega (arith, same)))
]

track_table_probe-Probes :
    (regs : ℕ → ℕ) (size : ℕ) (memory : Bool)
    → Probes (λ (t : TrackTable). Owned t (λ _. none)) (track_table_probe regs size memory)
unfolding track_table_probe
track_table_probe-Probes regs size memory = elim (Bool-cases (size % 4 == 0)) [
  | inr odd ↦ failed einval (rw odd)
  | inl whole ↦ elim (Bool-cases memory) [
    | inr out ↦ failed enomem (rw (whole, out))
    | inl has ↦
        let (t', done, same, owned) =
          reset-Owned (record { regs = regs; used_entries = λ _. false; max_entries = size / 4 }) in
        probed t' (rw (whole, has, done)) owned
  ]
]

tx_probe-Probes :
    (k : Kernel) (r : Resources TxEntry) (memory : Bool)
    → 0 < r.stream_size
    → r.stream_size < 2 ^ 31
    → Probes (Tx.Invariant.IsValid k) (tx_probe r memory)
unfolding tx_probe
tx_probe-Probes k r memory some_room small =
    and_then-Probes (stream_table_tx_probe r.stream_regs r.stream_size) _
      (stream_table_tx_probe-Probes r.stream_regs r.stream_size)
      (λ sttb (size, whole, zeros).
        and_then-Probes (track_table_probe r.track_regs r.track_size memory) _
          (track_table_probe-Probes r.track_regs r.track_size memory)
          (λ trtb owned.
            probed (record { sttb = sttb; trtb = trtb; streams = λ _. none }) refl
              (record {
                populated = omega (arith, size, whole);
                small = omega (arith, size, whole);
                table = owned;
                below = λ i e h. cc;
                sane = λ i e h. cc;
                shown = λ i e h. cc;
                hidden = λ i lt h. zeros i lt;
              })))

rx_probe-Probes :
    (k : Kernel) (max_tracks : ℕ) (r : Resources RxEntry) (memory bitmap : Bool)
    → max_tracks ≤ 256
    → 0 < r.stream_size
    → r.stream_size < 2 ^ 31
    → Probes (Rx.Invariant.IsValid k) (rx_probe max_tracks r memory bitmap)
unfolding rx_probe
rx_probe-Probes k max_tracks r memory bitmap few some_room small =
    and_then-Probes (stream_table_rx_probe r.stream_regs r.stream_size) _
      (stream_table_rx_probe-Probes r.stream_regs r.stream_size)
      (λ sttb (size, whole, zeros).
        and_then-Probes (track_table_probe r.track_regs r.track_size memory) _
          (track_table_probe-Probes r.track_regs r.track_size memory)
          (λ trtb owned. elim (Bool-cases bitmap) [
            | inr out ↦ failed enomem (rw out)
            | inl has ↦
                probed
                  (record {
                    sttb = sttb;
                    trtb = trtb;
                    streams = λ _. none;
                    used_tracks = λ _. false;
                    max_tracks = max_tracks;
                  })
                  (rw has)
                  (record {
                    populated = omega (arith, size, whole);
                    small = omega (arith, size, whole);
                    few_tracks = few;
                    table = owned;
                    exclusive = record {
                      held = λ i t ts h. cc;
                      traced = λ t u. cc;
                      apart = λ i j t ts us h. cc;
                      once = λ i ts h. cc;
                    };
                    below = λ i e h. cc;
                    sane = λ i e h. cc;
                    shown = λ i e h. cc;
                    hidden = λ i lt h. subst Rx.Invariant.IsSilent (sym (zeros i lt)) (omega arith);
                  })
          ]))

-- With stream tables that are not empty and smaller than 2 GiB, the probe of the stream device fails
-- with an error, or it leaves a sound state; it reaches no BUG().
pub probe-Probes :
    (k : Kernel) (rtcp_rx : Rtcp RtcpRxDataFpga) (rtcp_tx : Rtcp RtcpTxDataFpga) (max_tracks : ℕ)
    (rx_res : Resources RxEntry) (tx_res : Resources TxEntry) (rx_memory bitmap tx_memory : Bool)
    → 0 < rx_res.stream_size
    → rx_res.stream_size < 2 ^ 31
    → 0 < tx_res.stream_size
    → tx_res.stream_size < 2 ^ 31
    → Probes (IsSound k) (probe rtcp_rx rtcp_tx max_tracks rx_res tx_res rx_memory bitmap tx_memory)
unfolding probe
probe-Probes k rtcp_rx rtcp_tx max_tracks rx_res tx_res rx_memory bitmap tx_memory rx_some rx_small
      tx_some tx_small =
    elim (Bool-cases (ltb 256 max_tracks)) [
      | inl many ↦ failed einval (rw many)
      | inr few ↦ rw few (
          and_then-Probes (rx_probe max_tracks rx_res rx_memory bitmap) _
            (rx_probe-Probes k max_tracks rx_res rx_memory bitmap (ground arith) rx_some rx_small)
            (λ rx rx_valid.
              and_then-Probes (tx_probe tx_res tx_memory) _
                (tx_probe-Probes k tx_res tx_memory tx_some tx_small)
                (λ tx tx_valid.
                  probed (record { rtcp_rx = rtcp_rx; rtcp_tx = rtcp_tx; rx = rx; tx = tx }) refl
                    (record { rx = rx_valid; tx = tx_valid }))))
    ]
