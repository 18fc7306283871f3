-- ===== src/StreamDevice/StreamTableRx/Laws.antt =====
-- What an RX entry says of its stream, and the order of the writes that program it.
use ravenna_fpga_drivers.Common.{
  ℕ, ◌/◌, ◌%◌, ◌<◌, ◌≡◌, ◌≢◌, ◌==◌, inl, inr, Bool-cases, some, arith, bit_or,
}
use ravenna_fpga_drivers.Kernel.{Kernel}
use ravenna_fpga_drivers.Uapi.{RxStream, codec_max}
use ravenna_fpga_drivers.StreamDevice.Codec.{fpga_code-defined}
use ravenna_fpga_drivers.StreamDevice.StreamTable.{
  StreamTable, written, stream_write_lem, write_all_lem, stream_read_lem,
}
use ravenna_fpga_drivers.StreamDevice.StreamTableTx.Laws.{bit_of}
use ravenna_fpga_drivers.StreamDevice.StreamTableRx.{
  RxEntry, zero_entry, entry_with, fill, activated, deactivated, misc_vld, misc_exec_hash, set, del,
  reset, misc_control_of, destinations, Destinations,
}

-- The control byte shows the five flags of the stream in their bits, and in the two others whether the
-- FPGA uses the entry and hashes it.
pub record ShowsFlags (s : RxStream) (misc in_use : ℕ) : Type 0 where
  pub active : misc / 64 % 2 ≡ bit_of s.active
  pub sync_source : misc / 32 % 2 ≡ bit_of s.sync_source
  pub vlan : misc / 16 % 2 ≡ bit_of s.vlan_tagged
  pub hitless : misc / 2 % 2 ≡ bit_of s.hitless_protection
  pub synchronous : misc % 2 ≡ bit_of s.synchronous
  pub reserved : misc / 8 % 2 ≡ 0
  pub vld : misc / 128 ≡ in_use
  pub exec_hash : misc / 4 % 2 ≡ in_use

misc_control_of-ShowsFlags :
    (s : RxStream)
    → ShowsFlags s (misc_control_of s) 0
      × ShowsFlags s (bit_or (misc_control_of s) (bit_or misc_vld misc_exec_hash)) 1
unfolding misc_control_of
misc_control_of-ShowsFlags s = ground arith

-- The destinations in the entry: those of both networks, or twice the one that there is.
pub data Redundant (k : Kernel) (s : RxStream) (d : Destinations) : Type 0 where
  only_primary :
      s.primary.destination_ip ≢ 0
      → s.secondary.destination_ip ≡ 0
      → (d.ip_primary ≡ k.be32_to_cpu s.primary.destination_ip)
        × (d.port_primary ≡ k.be16_to_cpu s.primary.destination_port)
      → (d.ip_secondary ≡ d.ip_primary) × (d.port_secondary ≡ d.port_primary)
      → Redundant k s d
  only_secondary :
      s.primary.destination_ip ≡ 0
      → (d.ip_secondary ≡ k.be32_to_cpu s.secondary.destination_ip)
        × (d.port_secondary ≡ k.be16_to_cpu s.secondary.destination_port)
      → (d.ip_secondary ≡ d.ip_primary) × (d.port_secondary ≡ d.port_primary)
      → Redundant k s d
  both :
      s.primary.destination_ip ≢ 0
      → s.secondary.destination_ip ≢ 0
      → (d.ip_primary ≡ k.be32_to_cpu s.primary.destination_ip)
        × (d.port_primary ≡ k.be16_to_cpu s.primary.destination_port)
      → (d.ip_secondary ≡ k.be32_to_cpu s.secondary.destination_ip)
        × (d.port_secondary ≡ k.be16_to_cpu s.secondary.destination_port)
      → Redundant k s d

-- Where one network has no address, both get the address and the port of the other; where both have
-- one, each keeps its own.
pub destinations-Redundant : (k : Kernel) (s : RxStream) → Redundant k s (destinations k s)
unfolding destinations
destinations-Redundant k s = elim (Bool-cases (s.primary.destination_ip == 0)) [
  | inl none_1 ↦
      only_secondary (ground arith)
        (ground (arith, (k.be32_zero s.primary.destination_ip).1 (ground arith)))
        (ground (arith, (k.be32_zero s.primary.destination_ip).1 (ground arith)))
  | inr one_1 ↦ elim (Bool-cases (s.secondary.destination_ip == 0)) [
    | inl none_2 ↦
        only_primary (ground arith) (ground arith)
          (ground (arith, (k.be32_zero s.primary.destination_ip).0))
          (ground (arith, (k.be32_zero s.secondary.destination_ip).1 (ground arith)))
    | inr one_2 ↦
        both (ground arith) (ground arith)
          (ground (
            arith,
            (k.be32_zero s.primary.destination_ip).0,
            (k.be32_zero s.secondary.destination_ip).0,
          ))
          (ground (
            arith,
            (k.be32_zero s.primary.destination_ip).0,
            (k.be32_zero s.secondary.destination_ip).0,
          ))
  ]
]

abbrev pub destinations_in : RxEntry → Destinations
destinations_in e = record {
  ip_primary = e.destination_ip_primary;
  ip_secondary = e.destination_ip_secondary;
  port_primary = e.destination_port_primary;
  port_secondary = e.destination_port_secondary;
}

pub fill-defined :
    (k : Kernel) (s : RxStream) (b : ℕ)
    → s.codec < codec_max
    → (e : RxEntry) × (fill k s b ≡ some e)
      × Redundant k s (destinations_in e)
      × ShowsFlags s e.misc_control 0
      × ShowsFlags s (activated e).misc_control 1
unfolding fill
fill-defined k s b h =
    let (c, e) = fpga_code-defined s.codec h in
    (
      entry_with k s b c,
      rw e,
      destinations-Redundant k s,
      (misc_control_of-ShowsFlags s).0,
      (misc_control_of-ShowsFlags s).1,
    )

-- An RX stream with a known codec is programmed at an index of the table by three writes to its entry
-- and no other: zeros, the filled entry, and the filled entry with the bits added that make the FPGA
-- use and hash it. The filled entry has the destinations of both networks, or twice that of the one
-- that has an address. Its control byte shows the five flags of the stream and is without these two
-- bits; the last one shows the same flags with them.
pub set_invalid_first :
    (k : Kernel) (sttb : StreamTable RxEntry) (s : RxStream) (index b : ℕ)
    → s.codec < codec_max
    → index < sttb.max_entries
    → (e : RxEntry) × (fill k s b ≡ some e)
      × Redundant k s (destinations_in e)
      × ShowsFlags s e.misc_control 0
      × ShowsFlags s (activated e).misc_control 1
      × (set k sttb s index b
          ≡ some (written (written (written sttb index zero_entry) index e) index (activated e)))
unfolding set
set_invalid_first k sttb s index b known below =
    let (e, filled, destined, invalid, usable) = fill-defined k s b known in
    let once = written sttb index zero_entry in
    (
      e,
      filled,
      destined,
      invalid,
      usable,
      rw (stream_write_lem sttb index zero_entry below, filled, stream_write_lem once index e below)
          (stream_write_lem (written once index e) index (activated e) below),
    )

pub del_lem :
    (sttb : StreamTable RxEntry) (index : ℕ)
    → index < sttb.max_entries
    → del sttb index ≡ some (written sttb index (deactivated (sttb.regs index)))
unfolding del
del_lem sttb index below =
    rw (stream_read_lem sttb index below)
      (stream_write_lem sttb index (deactivated (sttb.regs index)) below)

pub reset-zero_entry :
    (sttb : StreamTable RxEntry)
    → (s' : StreamTable RxEntry) × (reset sttb ≡ some s')
      × (s'.max_entries ≡ sttb.max_entries)
      × ((j : ℕ) → j < sttb.max_entries → s'.regs j ≡ zero_entry)
unfolding reset
reset-zero_entry sttb =
    let (s', done, size, inside, below) =
      write_all_lem sttb zero_entry 0 sttb.max_entries (omega arith) in
    (s', done, size, λ j lt. inside j (omega arith) (omega arith))
