-- ===== src/Ip.antt =====
-- src/ip.h, src/ip_tx.c: the IP header (offset 14 of the frame) and the transmission path.
pub mod Output
use anp_netskeleton.Base.{
  ℕ, ◌+◌, ◌*◌, ◌/◌, ◌%◌, Bool, Option, none, some, ◌==◌, if◌then◌else◌, bit_and, not, htons, htonl,
  ℤ, pos, negsuc, sub_ℕ,
}
use anp_netskeleton.Memory.{Mem, load8, load16, load32, store8, store16, store32}
use anp_netskeleton.Checksum.{do_csum}
use anp_netskeleton.Subuff.{Subuff, sub_push, ip_hdr_len}
use anp_netskeleton.Netdev.{NetDev, RtEntry, Net, netdev_transmit, eth_p_ip}
use anp_netskeleton.Arp.{arp_get_hwaddr, arp_request}
use anp_netskeleton.Route.{route_lookup, rt_gateway}

abbrev pub ipp_icmp : ℕ
ipp_icmp = 1

abbrev pub ipp_ip_in_ip : ℕ
ipp_ip_in_ip = 4

abbrev pub ipp_tcp : ℕ
ipp_tcp = 6

-- The bit fields `ihl` and `version` share the first byte.
abbrev pub ip_ihl : Mem → ℕ
ip_ihl m = load8 m 14 % 16

abbrev pub ip_version : Mem → ℕ
ip_version m = load8 m 14 / 16

-- `IP_PAYLOAD_LEN`, an `int`: the length is taken as it stands, in host order after `ip_rx`.
unfoldable pub ip_payload_len : Mem → ℤ
ip_payload_len m = sub_ℕ (load16 m 16) (ip_ihl m * 4)

-- -EAGAIN
abbrev pub eagain : ℤ
eagain = negsuc 10

unfoldable pub is_eagain : ℤ → Bool
is_eagain (pos n) = Bool.false
is_eagain (negsuc n) = n == 10

unfoldable pub ip_send_check : Mem → Mem
ip_send_check m = store16 m 24 (do_csum m 14 (pos (ip_ihl m * 4)) 0)

-- The target of the frame: the gateway, if the route has one.
unfoldable pub next_hop : RtEntry → ℕ → ℕ
next_hop rt dst_addr = if bit_and rt.flags rt_gateway == 0 then dst_addr else rt.gateway

-- `sub->dev` is `rt->dev`, as `ip_output` leaves it.
unfoldable pub dst_neigh_output : Net → Subuff → RtEntry → Net × ℤ × Subuff
dst_neigh_output net sub rt =
    let src_addr : ℕ = htonl (load32 sub.mem 26) in
    let dst_addr : ℕ = next_hop rt (htonl (load32 sub.mem 30)) in
    elim (arp_get_hwaddr net.arp_cache dst_addr) [
      | some target_dst_mac ↦ netdev_transmit net sub rt.dev target_dst_mac eth_p_ip
      | none ↦ let (net', rc) = arp_request net src_addr dst_addr rt.dev in (net', eagain, sub)
    ]

-- The header that `ip_output` writes, all but the checksum.
unfoldable pub put_ip_hdr : Mem → ℕ → ℕ → ℕ → ℕ → Mem
put_ip_hdr m len protocol saddr daddr =
    let m1 : Mem = store8 (store8 m 14 0x45) 15 0 in
    let m2 : Mem = store16 m1 16 len in
    let m3 : Mem = store16 m2 20 0x4000 in
    let m4 : Mem = store8 (store8 m3 22 64) 23 protocol in
    let m5 : Mem = store32 (store32 m4 26 saddr) 30 daddr in
    let m6 : Mem = store16 m5 24 0 in
    let m7 : Mem = store16 m6 16 (htons (load16 m6 16)) in
    let m8 : Mem = store16 m7 18 (htons (load16 m7 18)) in
    let m9 : Mem = store32 m8 30 (htonl (load32 m8 30)) in
    let m10 : Mem = store32 m9 26 (htonl (load32 m9 26)) in
    let m11 : Mem = store16 m10 24 (htons (load16 m10 24)) in store16 m11 20 (htons (load16 m11 20))

unfoldable pub ip_output : Net → ℕ → Subuff → Net × ℤ × Subuff
ip_output net dst_ip_addr sub = elim (route_lookup net.routes dst_ip_addr) [
  | none ↦ (net, negsuc 0, sub)
  | some rt ↦
      let pushed : Subuff = sub_push sub ip_hdr_len in
      let m : Mem = put_ip_hdr pushed.mem pushed.len pushed.protocol rt.dev.addr dst_ip_addr in
      dst_neigh_output net (record pushed { mem = ip_send_check m }) rt
]
