-- ===== src/Netdev.antt =====
-- src/anp_netdev.c, src/ethernet.h: the network device and the transmission of a frame.
-- The tap device is not under the repository's control: `tap_write` says what write(2) returns for
-- a frame, and `wire` lists the frames written, the last one at the end.
use anp_netskeleton.Base.{
  ℕ, ◌+◌, Option, none, some, List, [], ◌∷◌, ◌++◌, ◌==◌, if◌then◌else◌, htons, ℤ,
}
use anp_netskeleton.Memory.{Mem, store16, memcpy, bytes}
use anp_netskeleton.Subuff.{Subuff, sub_push, eth_hdr_len}

pub record NetDev : Type 0 where
  pub addr : ℕ  -- in host byte order
  pub addr_len : ℕ
  pub hwaddr : Mem
  pub mtu : ℕ

pub record RtEntry : Type 0 where
  pub dst : ℕ
  pub gateway : ℕ
  pub netmask : ℕ
  pub flags : ℕ
  pub dev : NetDev

-- `struct arp_cache_entry`: `arp_ipv4` holds the 20 bytes of `struct arp_ipv4`.
pub record ArpEntry : Type 0 where
  pub state : ℕ
  pub arp_ipv4 : Mem

-- What the lower layers share: the devices, the route and ARP tables, and the tap device.
pub record Net : Type 0 where
  pub cdev_ext : NetDev
  pub cdev_lo : NetDev
  pub routes : List RtEntry
  pub arp_cache : List ArpEntry
  pub tap_write : List ℕ → ℤ
  pub wire : List (List ℕ)

abbrev pub eth_p_ip : ℕ
eth_p_ip = 0x0800

abbrev pub eth_p_arp : ℕ
eth_p_arp = 0x0806

abbrev pub eth_p_ipv6 : ℕ
eth_p_ipv6 = 0x86dd

unfoldable pub netdev_get : Net → ℕ → Option NetDev
netdev_get net sip = if net.cdev_ext.addr == sip then some net.cdev_ext else none

-- `tdev_write`
unfoldable pub tdev_write : Net → List ℕ → Net × ℤ
tdev_write net frame = (record net { wire = net.wire ++ (frame ∷ []) }, net.tap_write frame)

-- The Ethernet header in front of `data`.
unfoldable pub put_eth_hdr : Mem → ℕ → NetDev → Mem → ℕ → Mem
put_eth_hdr block at dev dst_hw ethertype =
    store16 (memcpy (memcpy block at dst_hw 0 dev.addr_len) (at + 6) dev.hwaddr 0 dev.addr_len)
      (at + 12) (htons ethertype)

-- `sub->dev` is the argument `dev`.
unfoldable pub netdev_transmit : Net → Subuff → NetDev → Mem → ℕ → Net × ℤ × Subuff
unfolding tdev_write put_eth_hdr sub_push
netdev_transmit net sub dev dst_hw ethertype =
    let pushed : Subuff = sub_push sub eth_hdr_len in
    elim sub.other [
      | none ↦
          let block : Mem = put_eth_hdr pushed.mem pushed.at dev dst_hw ethertype in
          let (net', rc) = tdev_write net (bytes block pushed.at pushed.len) in
          (net', rc, record pushed { mem = block })
      | some stale ↦
          let block : Mem = put_eth_hdr stale pushed.at dev dst_hw ethertype in
          let (net', rc) = tdev_write net (bytes block pushed.at pushed.len) in
          (net', rc, record pushed { other = some block })
    ]
