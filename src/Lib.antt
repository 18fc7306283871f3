-- ===== src/Lib.antt =====
-- Verification of the RAVENNA FPGA drivers: models of the Linux drivers for the RAVENNA cores of an
-- FPGA, and what the code guarantees.
--
-- The stream device (modules/stream-device) gives user space a file whose ioctls add, update and
-- delete the RTP streams that the FPGA sends (TX) and receives (RX). It keeps, per direction, an
-- array of streams with their owners, the stream table of the FPGA, which holds the parameters of
-- each stream, and the track table of the FPGA, in which each stream owns a range of entries that
-- route its channels to tracks. An ioctl checks the command, and then changes the three together
-- under a mutex; closing the file deletes the streams that it owns.
--
-- The Ethernet driver (modules/net) hands packets to the FIFO of the FPGA, and stops the queue while the
-- FIFO is short of space, until an interrupt wakes it. A packet that asks for a time stamp goes into a
-- ring; the interrupt handler puts the time stamps that the FPGA took into another; a work item pairs
-- them by their sequence ids. Packets are received by DMA where there is a channel for it, and else by
-- NAPI. The driver also holds the VLAN filter. The PTP driver (modules/ptp) sets and adjusts the clock of the FPGA, and
-- passes on the time stamps of external events.
--
-- Files:
--   Common, Kernel          shared helpers; what the drivers use of the kernel
--   Uapi                    include/uapi/ravenna/types.h and stream-device.h
--   StreamDevice.Codec      modules/stream-device/codec.h and rtp.h
--   StreamDevice.TrackTable track-table.c; Loops, Ownership and Operations are its theory
--   StreamDevice.StreamTable, StreamTableTx, StreamTableRx
--                           stream-table-tx.c and stream-table-rx.c, with the order of bus writes
--   StreamDevice.TxValidate, StreamDevice.Tx
--                           tx.c: the checks, and the ioctls; the children of Tx hold the invariant
--                           (Invariant), the view of the clients (View), what each ioctl does (Add,
--                           Update, Delete), that other clients notice nothing (Isolation), and what
--                           a stream with too many channels does (Overrun)
--   StreamDevice.ActiveTracks
--                           track-table.h: the loop over the channels that have a track
--   StreamDevice.RxFields, StreamDevice.RxValidate, StreamDevice.Rx
--                           rx.c: the checks, and the ioctls; the children of Rx hold the exclusive
--                           use of tracks (Exclusive, Tracks), the invariant, and what each does
--   StreamDevice.RtcpData, StreamDevice.Rtcp
--                           rtcp.h and rtcp.c: the statistics that the FPGA collects per stream
--   StreamDevice.Device     main.c: interrupts, the dispatch of ioctls, and the release of a file;
--                           Calls, Steps and History are about any sequence of these
--   StreamDevice.Probe      the probe functions of all these files, and the state that they leave
--   StreamDevice.Tests      concrete devices, and the theorems applied to them
--   Net.TxTs                modules/net/timestamp.c: the two rings. Rings, Packets, Spec and Refine show
--                           that they are queues, Arrivals what the interrupt handler finds in a FIFO; Flush, Heads, Drain, Correlate and WorkItem are about
--                           the loops of the work item; Ledger and Delivery about which packet gets
--                           which time stamp; History and its child about any sequence of calls
--   Net.Hwtstamp            timestamp.c and main.c: the ioctls that configure time stamps; Laws
--   Net.Xmit                net/main.c: sending, interrupts and the reset; Ownership is about what
--                           becomes of a packet, Armed about the queue that is woken again
--   Net.Dma                 net/dma.c: the start of a reception, with its error branches
--   Net.Filter              net/main.c: VLAN filter, address and receive mode; Vlan is about the filter
--   Net.Poll                net/main.c: the reception of packets by NAPI; Fifo is about a round, Delivers
--                           about the whole poll
--   Net.Control             net/main.c: open, stop, timeout and ioctls; Timeout is about what follows it
--   Net.Tests, Net.DeviceTests
--                           the theorems of Net, applied
--   Ptp                     modules/ptp/main.c: the operations of the clock; Clock has their theorems
--   Ptp.Events              its interrupt handlers for external events and PPS; Fifo has the theorem
--   Ptp.Tests               these theorems, applied
--   Irq                     modules/irq/main.c: the interrupt controller; Pending is about what it
--                           delivers, and Tests applies the theorems
--
-- A function of the source has its name without the prefix `ra_sd_`, `ra_stream_table_`,
-- `ra_track_table_`, `ra_irq_`, `ra_net_` or `ra_ptp_`; the parts of a long one are helpers
-- that its comments name. An ioctl is one function on the state, since it holds the mutex wherever it touches it. The halves of
-- the interrupt handler that come in during an ioctl for statistics are part of the call. Its outcome is an error or
-- a number beside the new state; `none` stands for a BUG() and for an access beyond an array, so
-- that a theorem that an outcome is `some` shows that neither happens.
--
-- Parameters: `Kernel` holds the kernel's calls whose outcome the kernel chooses: where
-- `bitmap_find_next_zero_area` finds room, which index `xa_alloc` picks, and the byte order
-- conversions, with what the drivers rely on as laws. Whether `copy_from_user` and `kzalloc` succeed
-- is an argument of the ioctls, as is what happens while an ioctl waits for an interrupt. The tests
-- fill `Kernel` with first fit, the lowest free index and a little-endian CPU. In Net and Ptp, the values
-- that reads of registers and FIFOs return are arguments, and so is what the kernel says of a packet
-- (`Headers`) and does to one (`EthTypeTrans`), of an address (is_valid_ether_addr) and of an adjustment (scaled_ppm_to_ppb).
--
-- Numbers are natural numbers below the width of their field; where C stores a wider number, the
-- remainder is written out. The loops are over the numbers that bound them; the loop over
-- active tracks has one round more than channels as its fuel, and the index grows in each round. In the
-- work item of Net.TxTs, each round takes an entry from one of two rings of fewer than 64: 64 rounds for
-- the first loop and 128 for the second are enough, and the theorems show that they do not run out. The FPGA
-- decides when the loop ends that empties the FIFO of time stamps: its fuel is an argument, and that it is
-- enough is a hypothesis.
--
-- Not modelled: what the probe functions do with the device tree, register mappings and the misc
-- device, and those of modules/net and modules/ptp; debugfs, sysfs, ethtool and logging, which print; the
-- reference counts of `struct pid`; phylink and MDIO, which are glue; the flush of received packets, whose
-- end the FPGA decides; the callback of DMA; the loop of the PTP interrupt
-- handler, which waits for registers to change; and the driver modules/sync.
pub mod Common
pub mod Kernel
pub mod Uapi
pub mod StreamDevice
pub mod Net
pub mod Ptp
pub mod Irq
