-- ===== src/Net/DeviceTests.antt =====
-- The Ethernet device on concrete packets and calls, and the theorems applied to them.
use ravenna_fpga_drivers.Common.{
  ℕ, ◌+◌, ◌-◌, ◌≡◌, refl, true, false, none, List, [], ◌∷◌, arith, inl, ◌==◌, if◌then◌else◌,
}
use ravenna_fpga_drivers.Kernel.{err, enomem}
use ravenna_fpga_drivers.Net.Tests.{packet, waiting_queues, waiting-Represents, idle, words}
use ravenna_fpga_drivers.Net.Xmit.{Dev, Buffer, netdev_tx_busy, hw_xmit_skb, start_xmit, irqhandler}
use ravenna_fpga_drivers.Net.Xmit.Ownership.{Sends, start_xmit-Sends}
use ravenna_fpga_drivers.Net.Xmit.Armed.{IsArmed, IsAwake, hw_xmit_skb-wakes}
use ravenna_fpga_drivers.Net.Poll.{EthTypeTrans, Reception}
use ravenna_fpga_drivers.Net.Poll.Fifo.{Packet}
use ravenna_fpga_drivers.Net.Control.{tx_timeout}
use ravenna_fpga_drivers.Net.Control.Timeout.{
  IsDeaf, Event, send, interrupt, after_all, tx_timeout-deafens,
}
use ravenna_fpga_drivers.Net.Dma.{Calls, GoesOn, dma_rx, dma_rx-GoesOn}
use ravenna_fpga_drivers.Net.Filter.{Mac}
use ravenna_fpga_drivers.Net.Filter.Vlan.{
  IsExact, off, VlanCall, add, kill, vlan_calls, accepts, with_calls, vlan_calls-Filters,
}

abbrev device : Dev
device = record {
  stamping = idle;
  tx_throttle = false;
  irq_disable = λ i. i == 1;
  space_av_bytecnt = 0;
  rx_scheduled = false;
  rx_dropped_packets_at_probe = 0;
  tx_packets = 0;
  tx_bytes = 0;
  rx_over_errors = 0;
}

abbrev buffer : Buffer
buffer = record { skb = packet 5; headroom = 64; tailroom = 0; front = λ _. 0 }

start_xmit-Sends_example :
    let (code, sent) = start_xmit device buffer true 4096 in
    Sends (waiting_queues 0 3 3) buffer 4096 code sent
start_xmit-Sends_example =
    start_xmit-Sends device buffer true 4096 (omega arith) (waiting-Represents 0 3 3)

-- With 40 bytes of room the packet comes back.
comes_back : (start_xmit device buffer true 40).0 ≡ netdev_tx_busy
unfolding start_xmit
comes_back = refl

throttled : (hw_xmit_skb device buffer true 40).dev.tx_throttle ≡ true
unfolding hw_xmit_skb
throttled = refl

hw_xmit_skb-wakes_example :
    let dev' = (hw_xmit_skb device buffer true 40).dev in
    IsArmed dev' × IsAwake (irqhandler dev' (λ i. i == 1) false 0 words)
hw_xmit_skb-wakes_example =
    hw_xmit_skb-wakes device buffer true 40 (λ i. i == 1) false 0 words (inl refl) throttled refl

-- The last call fails.
abbrev calls : Calls
calls = record { alloc_skb = true; map = true; alloc_ctx = true; prep = true; submit = err enomem }

dma_rx-GoesOn_example :
    let (dev', attempt) = dma_rx device 100 calls in GoesOn device 100 dev' attempt
dma_rx-GoesOn_example = dma_rx-GoesOn device 100 calls

abbrev mac : Mac
mac = record {
  vlan = λ _ _. false;
  vlan_en = false;
  promiscuous_en = false;
  multicast_en = false;
  mac_addr_h = 0;
  mac_addr_l = 0;
}

abbrev vlan_ids : List VlanCall
vlan_ids = add 5 ∷ add 100 ∷ kill 5 ∷ []

vlan_calls-Filters_example :
    (accepts (vlan_calls mac vlan_ids) ≡ with_calls (λ _. false) vlan_ids)
    × IsExact (vlan_calls mac vlan_ids)
vlan_calls-Filters_example = vlan_calls-Filters mac vlan_ids (omega arith) (off (λ v h. refl) refl)

-- A packet of 18 bytes, of which the last are 5 and 6, fills five words.
abbrev fifo : ℕ → ℕ
fifo k = if k == 4 then 0x06050101 else 0x01010101

abbrev padded : ℕ → ℕ
padded i = if i == 18 then 5 else if i == 19 then 6 else 1

abbrev received : Packet
received = record { len = 18; bytes = λ i. padded (i + 2); stamp = none }

-- The header is pulled, whatever the length.
abbrev linux_eth : EthTypeTrans
linux_eth = record {
  trans = λ skb. record skb { len = skb.len - 14; bytes = λ i. skb.bytes (i + 14) };
  len = λ skb h. omega arith;
  bytes = λ skb i h. refl;
  hwtstamp = λ skb. refl;
}

abbrev rx_state : ℕ → ℕ
rx_state i = if i == 0 then 18 else 0

abbrev no_reception : Reception
no_reception = record {
  count = 0;
  next = 0;
  packets = [];
  rx_packets = 0;
  rx_bytes = 0;
  rx_fifo_errors = 0;
}

abbrev traffic : List Event
traffic = send buffer true 4096 ∷ interrupt (λ _. true) true 0 words ∷ []

tx_timeout-deafens_example : IsDeaf (after_all (tx_timeout device).0 traffic)
tx_timeout-deafens_example = tx_timeout-deafens device traffic refl
