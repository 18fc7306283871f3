-- ===== src/Net/Filter.antt =====
-- modules/net/main.c: which packets the MAC lets in. A register is the map of its bits.
pub mod Vlan
use ravenna_fpga_drivers.Common.{
  ℕ, zero, suc, ◌+◌, ◌*◌, ◌/◌, ◌%◌, Bool, true, false, not, ◌&&◌, ◌||◌, List, [], ◌∷◌,
  if◌then◌else◌, update,
}
use ravenna_fpga_drivers.Kernel
use ravenna_fpga_drivers.Kernel.{Result, ok, err, Bitmap}

-- VLAN_CTRL_ARRAY by word and bit, the bit VLAN_EN of VLAN_CTRL, the bits PROMISCUOUS_EN and MULTICAST_EN
-- of MAC_RX_CTRL, and the registers of the address.
pub record Mac : Type 0 where
  pub vlan : ℕ → Bitmap
  pub vlan_en : Bool
  pub promiscuous_en : Bool
  pub multicast_en : Bool
  pub mac_addr_h : ℕ
  pub mac_addr_l : ℕ

-- `ra_net_iow_mask(priv, RA_NET_VLAN_CTRL_ARRAY + (vid / 32) * sizeof(u32), BIT(vid % 32), …)`
unfoldable pub write_vid : Mac → ℕ → Bool → Mac
write_vid mac vid on = record mac {
  vlan = update mac.vlan (vid / 32) (update (mac.vlan (vid / 32)) (vid % 32) on);
}

pub vlan_rx_add_vid : Mac → ℕ → Mac
unfolding write_vid
vlan_rx_add_vid mac vid = record (write_vid mac vid true) { vlan_en = true }

-- The first `n` bits from `i` on: is one of them set?
unfoldable pub any_from : Bitmap → ℕ → ℕ → Bool
any_from p i zero = false
any_from p i (suc n) = p i || any_from p (suc i) n

-- a register is not zero
abbrev pub is_set : Bitmap → Bool
is_set word = any_from word 0 32

-- `4096/32`
abbrev pub vlan_words : ℕ
vlan_words = 128

pub vlan_rx_kill_vid : Mac → ℕ → Mac
unfolding write_vid any_from
vlan_rx_kill_vid mac vid =
    let mac' = write_vid mac vid false in
    if any_from (λ i. is_set (mac'.vlan i)) 0 vlan_words
    then mac'
    else record mac' { vlan_en = false }

-- `ndev->flags & IFF_PROMISC`, `& IFF_ALLMULTI`, and `!netdev_mc_empty(ndev)`
pub set_rx_mode : Mac → Bool → Bool → Bool → Mac
set_rx_mode mac promisc allmulti mc = record mac {
  promiscuous_en = promisc;
  multicast_en = allmulti || mc;
}

-- The six bytes of `dev_addr`.
pub record Address : Type 0 where
  pub a0 : ℕ
  pub a1 : ℕ
  pub a2 : ℕ
  pub a3 : ℕ
  pub a4 : ℕ
  pub a5 : ℕ

unfoldable pub write_mac_addr : Mac → Address → Mac
write_mac_addr mac a = record mac {
  mac_addr_h = a.a0 * 256 + a.a1;
  mac_addr_l = a.a2 * 16777216 + a.a3 * 65536 + a.a4 * 256 + a.a5;
}

-- `is_valid` is what is_valid_ether_addr says of the address.
pub set_mac_address : Mac → Address → Bool → Mac × Result ℕ
unfolding write_mac_addr
set_mac_address mac a is_valid =
    if not is_valid then (mac, err Kernel.eaddrnotavail) else (write_mac_addr mac a, ok 0)
