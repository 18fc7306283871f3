-- ===== src/StreamDevice/Device/Steps.antt =====
-- What one call does: it leaves a sound state, and the streams of other clients as they are.
use ravenna_fpga_drivers.Common.{
  ℕ, bit_and, ◌≡◌, refl, ap, ◌∙◌, false, Option, some, Bool-cases, inl, inr, ◌==◌,
}
use ravenna_fpga_drivers.Kernel.{Kernel}
use ravenna_fpga_drivers.StreamDevice.RtcpData.{RtcpRxDataFpga, RtcpTxDataFpga}
use ravenna_fpga_drivers.StreamDevice.Rx
use ravenna_fpga_drivers.StreamDevice.Rx.{Rx}
use ravenna_fpga_drivers.StreamDevice.Tx
use ravenna_fpga_drivers.StreamDevice.Tx.{Tx}
use ravenna_fpga_drivers.StreamDevice.Device.{
  Device, User, World, Reply, tx_reply, rx_reply, ioctl, ioc_size, release, irqhandler, irq_rtcp_rx,
  irq_rtcp_tx, read_info_ioctl, sizeof_read_info_cmd, read_info_cmd, read_rtcp_rx_stat_cmd,
  read_rtcp_tx_stat_cmd, add_tx_stream_cmd, update_tx_stream_cmd, delete_tx_stream_cmd,
  add_rx_stream_cmd, update_rx_stream_cmd, delete_rx_stream_cmd,
}
use ravenna_fpga_drivers.StreamDevice.Device.Calls.{
  Call, ioctls, releases, interrupts, state_of, step, IsSound, Fits, CallFits, by,
}

-- A step by the file `filp`: it ends in a sound state, and the streams of all other files are kept.
pub record Steps (k : Kernel) (d : Device) (filp : ℕ) (o : Option Device) : Type 0 where
  pub after : Device
  pub done : o ≡ some after
  pub sound : IsSound k after
  pub rx_others : Rx.Isolation.OthersKept filp d.rx after.rx
  pub tx_others : Tx.Isolation.OthersKept filp d.tx after.tx

kept-Steps :
    (k : Kernel) (d d' : Device) (filp : ℕ)
    → IsSound k d
    → d'.rx ≡ d.rx
    → d'.tx ≡ d.tx
    → Steps k d filp (some d')
kept-Steps k d d' filp sound rx_same tx_same = record {
  after = d';
  done = refl;
  sound = record { rx = rw rx_same sound.rx; tx = rw tx_same sound.tx };
  rx_others = λ j e h ne. ap (λ (x : Rx). Rx.View.view x.streams j) rx_same ∙ ap Rx.View.map_view h;
  tx_others = λ j e h ne. ap (λ (x : Tx). Tx.View.view x.streams j) tx_same ∙ ap Tx.View.map_view h;
}

tx-Steps :
    (k : Kernel) (d : Device) (filp : ℕ) (o : Tx.Outcome)
    → IsSound k d
    → Tx.Isolation.Isolated k d.tx filp o
    → Steps k d filp (state_of (tx_reply d o))
tx-Steps k d filp o sound i = record {
  after = record d { tx = i.after };
  done = rw i.done;
  sound = record { rx = sound.rx; tx = i.still_valid };
  rx_others = λ j e h ne. ap Rx.View.map_view h;
  tx_others = i.others;
}

rx-Steps :
    (k : Kernel) (d : Device) (filp : ℕ) (o : Rx.Outcome)
    → IsSound k d
    → Rx.Isolation.Isolated k d.rx filp o
    → Steps k d filp (state_of (rx_reply d o))
rx-Steps k d filp o sound i = record {
  after = record d { rx = i.after };
  done = rw i.done;
  sound = record { rx = i.still_valid; tx = sound.tx };
  rx_others = i.others;
  tx_others = λ j e h ne. ap Tx.View.map_view h;
}

-- The commands for streams, and those that follow in the switch.
streams-Steps :
    (k : Kernel) (d : Device) (filp cmd : ℕ) (user : User) (world : World)
    → IsSound k d
    → Fits user
    → (cmd == read_info_cmd) ≡ false
    → (cmd == read_rtcp_rx_stat_cmd) ≡ false
    → (cmd == read_rtcp_tx_stat_cmd) ≡ false
    → Steps k d filp (state_of (ioctl k d filp cmd user world))
unfolding ioctl
streams-Steps k d filp cmd user world sound fits n1 n2 n3 =
    rw (n1, n2, n3)
      (elim (Bool-cases (cmd == add_tx_stream_cmd)) [
        | inl e ↦ rw e (
            tx-Steps k d filp _ sound (
              Tx.Isolation.add_stream_ioctl-Isolated k _ d.tx filp _ _ user.add_tx _ sound.tx
                fits.add_tx))
        | inr n4 ↦ rw n4 (elim (Bool-cases (cmd == update_tx_stream_cmd)) [
          | inl e ↦ rw e (
              tx-Steps k d filp _ sound (
                Tx.Isolation.update_stream_ioctl-Isolated k _ d.tx filp _ user.update_tx sound.tx
                  fits.update_tx))
          | inr n5 ↦ rw n5 (elim (Bool-cases (cmd == delete_tx_stream_cmd)) [
            | inl e ↦ rw e (
                tx-Steps k d filp _ sound
                  (Tx.Isolation.delete_stream_ioctl-Isolated k d.tx filp _ user.delete_tx sound.tx))
            | inr n6 ↦ rw n6 (elim (Bool-cases (cmd == add_rx_stream_cmd)) [
              | inl e ↦ rw e (
                  rx-Steps k d filp _ sound (
                    Rx.Isolation.add_stream_ioctl-Isolated k d.rx filp _ _ user.add_rx _ _ sound.rx
                      fits.add_rx))
              | inr n7 ↦ rw n7 (elim (Bool-cases (cmd == update_rx_stream_cmd)) [
                | inl e ↦ rw e (
                    rx-Steps k d filp _ sound (
                      Rx.Isolation.update_stream_ioctl-Isolated k d.rx filp _ user.update_rx _
                        sound.rx fits.update_rx))
                | inr n8 ↦ rw n8 (elim (Bool-cases (cmd == delete_rx_stream_cmd)) [
                  | inl e ↦ rw e (
                      rx-Steps k d filp _ sound (
                        Rx.Isolation.delete_stream_ioctl-Isolated k d.rx filp _ user.delete_rx
                          sound.rx))
                  | inr n9 ↦ rw n9 (kept-Steps k d d filp sound refl refl)
                ])
              ])
            ])
          ])
        ])
      ])

read_info-same : (d : Device) (size : ℕ) (user : User) → (read_info_ioctl d size user).1 ≡ d
unfolding read_info_ioctl
read_info-same d size user = elim (Bool-cases (size == sizeof_read_info_cmd)) [
  | inr wrong ↦ rw wrong
  | inl right ↦ elim (Bool-cases user.readable) [
    | inr fault ↦ rw (right, fault)
    | inl readable ↦ elim (Bool-cases user.writable) [
      | inr fault ↦ rw (right, readable, fault)
      | inl writable ↦ rw (right, readable, writable)
    ]
  ]
]

pub ioctl-Steps :
    (k : Kernel) (d : Device) (filp cmd : ℕ) (user : User) (world : World)
    → IsSound k d
    → Fits user
    → Steps k d filp (state_of (ioctl k d filp cmd user world))
unfolding ioctl
ioctl-Steps k d filp cmd user world sound fits = elim (Bool-cases (cmd == read_info_cmd)) [
  | inl e ↦
      rw e
        (info_kept (read_info_ioctl d (ioc_size cmd) user) (read_info-same d (ioc_size cmd) user))
  | inr n1 ↦ elim (Bool-cases (cmd == read_rtcp_rx_stat_cmd)) [
    | inl e ↦ rw (n1, e) (kept-Steps k d _ filp sound refl refl)
    | inr n2 ↦ elim (Bool-cases (cmd == read_rtcp_tx_stat_cmd)) [
      | inl e ↦ rw (n1, n2, e) (kept-Steps k d _ filp sound refl refl)
      | inr n3 ↦ streams-Steps k d filp cmd user world sound fits n1 n2 n3
    ]
  ]
]
  where
    info_kept : (r : Reply) → r.1 ≡ d → Steps k d filp (state_of (some r))
    info_kept r same =
        kept-Steps k d r.1 filp sound (ap (λ (x : Device). x.rx) same)
          (ap (λ (x : Device). x.tx) same)

pub release-Steps :
    (k : Kernel) (d : Device) (filp : ℕ) → IsSound k d → Steps k d filp (release d filp)
unfolding release
release-Steps k d filp sound =
    let (rx', rx_done, rx_valid, rx_others) =
      Rx.Isolation.delete_streams-Isolated k d.rx filp sound.rx in
    let (tx', tx_done, tx_valid, tx_others) =
      Tx.Isolation.delete_streams-Isolated k d.tx filp sound.tx in
    record {
      after = record d { rx = rx'; tx = tx' };
      done = rw (rx_done, tx_done);
      sound = record { rx = rx_valid; tx = tx_valid };
      rx_others = rx_others;
      tx_others = tx_others;
    }

irqhandler-same :
    (d : Device) (irqs : ℕ) (rx_data : RtcpRxDataFpga) (tx_data : RtcpTxDataFpga)
    → ((irqhandler d irqs rx_data tx_data).1.rx ≡ d.rx)
      × ((irqhandler d irqs rx_data tx_data).1.tx ≡ d.tx)
unfolding irqhandler
irqhandler-same d irqs rx_data tx_data = elim (Bool-cases (bit_and irqs irq_rtcp_rx == 0)) [
  | inl no_rx ↦ elim (Bool-cases (bit_and irqs irq_rtcp_tx == 0)) [
    | inl no_tx ↦ rw (no_rx, no_tx) (refl, refl)
    | inr tx ↦ rw (no_rx, tx) (refl, refl)
  ]
  | inr rx ↦ elim (Bool-cases (bit_and irqs irq_rtcp_tx == 0)) [
    | inl no_tx ↦ rw (rx, no_tx) (refl, refl)
    | inr tx ↦ rw (rx, tx) (refl, refl)
  ]
]

pub step-Steps :
    (k : Kernel) (d : Device) (c : Call) → IsSound k d → CallFits c → Steps k d (by c) (step k d c)
unfolding step
step-Steps k d (ioctls filp cmd user world) sound fits =
    ioctl-Steps k d filp cmd user world sound fits
step-Steps k d (releases filp) sound fits = release-Steps k d filp sound
step-Steps k d (interrupts irqs rx_data tx_data) sound fits =
    let (rx_same, tx_same) = irqhandler-same d irqs rx_data tx_data in
    kept-Steps k d (irqhandler d irqs rx_data tx_data).1 0 sound rx_same tx_same
