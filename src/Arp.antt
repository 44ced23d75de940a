-- ===== src/Arp.antt =====
-- src/arp.c, src/arp.h: the ARP cache, requests and replies. The header stands at offset 14 of the
-- frame, its payload at 22.
pub mod Cache
pub mod Answer
use anp_netskeleton.Base.{
  ℕ, ◌+◌, Bool, ◌&&◌, Option, none, some, List, [], ◌∷◌, ◌++◌, ◌==◌, if◌then◌else◌, not, u8, htons,
  htonl, ℤ,
}
use anp_netskeleton.Memory.{Mem, zeroed, load8, load16, load32, store8, store16, store32, memcpy}
use anp_netskeleton.Subuff.{Subuff, alloc_sub, sub_reserve, sub_push}
use anp_netskeleton.Netdev.{NetDev, ArpEntry, Net, netdev_get, netdev_transmit, eth_p_arp, eth_p_ip}

abbrev pub arp_free : ℕ
arp_free = 0

abbrev pub arp_waiting : ℕ
arp_waiting = 1

abbrev pub arp_resolved : ℕ
arp_resolved = 2

abbrev pub arp_ethernet : ℕ
arp_ethernet = 0x0001

abbrev pub arp_ipv4_type : ℕ
arp_ipv4_type = 0x0800

abbrev pub arp_request_op : ℕ
arp_request_op = 1

abbrev pub arp_reply_op : ℕ
arp_reply_op = 2

-- `entry->arpIpv4.src_ip`; the address is the first field.
abbrev pub entry_ip : ArpEntry → ℕ
entry_ip entry = load32 entry.arp_ipv4 6

unfoldable pub alloc_arp_sub : Subuff
alloc_arp_sub = record (sub_reserve (alloc_sub 42) 42) { protocol = htons eth_p_arp }

-- `data` is the ARP payload at offset 22 of `m`, its addresses in host byte order.
unfoldable pub process_arp_entry : Mem → List ArpEntry → List ArpEntry
process_arp_entry m [] = record { state = arp_resolved; arp_ipv4 = memcpy zeroed 0 m 22 20 } ∷ []
process_arp_entry m (entry ∷ cache) =
    if entry_ip entry == load32 m 28
    then record entry { arp_ipv4 = memcpy entry.arp_ipv4 0 m 22 6 } ∷ cache
    else entry ∷ process_arp_entry m cache

-- The address that is found, as the block whose first six bytes it is.
unfoldable pub arp_get_hwaddr : List ArpEntry → ℕ → Option Mem
arp_get_hwaddr [] lookup_ip = none
arp_get_hwaddr (entry ∷ cache) lookup_ip =
    if (entry.state == arp_resolved) && (entry_ip entry == lookup_ip)
    then some entry.arp_ipv4
    else arp_get_hwaddr cache lookup_ip

unfoldable pub free_arp_cache : List ArpEntry → List ArpEntry
free_arp_cache cache = []

abbrev pub broadcast_hw : Mem
broadcast_hw _ = 0xff

-- The packet of `arp_request`: payload, then header.
unfoldable pub arp_request_mem : ℕ → ℕ → NetDev → Mem
arp_request_mem src_ip dst_ip dev =
    let m1 : Mem = memcpy zeroed 32 broadcast_hw 0 dev.addr_len in
    let m2 : Mem = store32 m1 38 dst_ip in
    let m3 : Mem = memcpy m2 22 dev.hwaddr 0 dev.addr_len in
    let m4 : Mem = store32 m3 28 src_ip in
    let m5 : Mem = store16 m4 20 (htons arp_request_op) in
    let m6 : Mem = store16 m5 14 (htons arp_ethernet) in
    let m7 : Mem = store16 m6 16 (htons eth_p_ip) in
    let m8 : Mem = store8 (store8 m7 18 dev.addr_len) 19 4 in
    let m9 : Mem = store32 m8 28 (htonl (load32 m8 28)) in store32 m9 38 (htonl (load32 m9 38))

unfoldable pub arp_request : Net → ℕ → ℕ → NetDev → Net × ℤ
arp_request net src_ip dst_ip dev =
    let pushed : Subuff = sub_push (sub_push alloc_arp_sub 20) 8 in
    let filled : Subuff = record pushed { mem = arp_request_mem src_ip dst_ip dev } in
    let (net', rc, sent) = netdev_transmit net filled dev broadcast_hw eth_p_arp in (net', rc)

-- The packet of `arp_reply`, written over the request.
unfoldable pub arp_reply_mem : Mem → NetDev → Mem
arp_reply_mem m dev =
    let m1 : Mem = memcpy m 32 m 22 6 in
    let m2 : Mem = store32 m1 38 (load32 m1 28) in
    let m3 : Mem = memcpy m2 22 dev.hwaddr 0 6 in
    let m4 : Mem = store32 m3 28 dev.addr in
    let m5 : Mem = store16 m4 20 arp_reply_op in
    let m6 : Mem = store16 m5 20 (htons (load16 m5 20)) in
    let m7 : Mem = store16 m6 14 (htons (load16 m6 14)) in
    let m8 : Mem = store16 m7 16 (htons (load16 m7 16)) in
    let m9 : Mem = store32 m8 28 (htonl (load32 m8 28)) in store32 m9 38 (htonl (load32 m9 38))

unfoldable pub arp_reply : Net → Subuff → NetDev → Net
arp_reply net sub dev =
    let placed : Subuff = sub_push (sub_reserve sub 42) 28 in
    let filled : Subuff = record placed { mem = arp_reply_mem sub.mem dev } in
    let dst_mac : Mem = λ i. filled.mem (32 + i) in
    let (net', rc, sent) = netdev_transmit net filled dev dst_mac eth_p_arp in net'

-- `hwtype`, `protype` and `opcode` to host byte order.
unfoldable pub arp_header_to_host : Mem → Mem
arp_header_to_host m =
    let m1 : Mem = store16 m 14 (htons (load16 m 14)) in
    let m2 : Mem = store16 m1 16 (htons (load16 m1 16)) in store16 m2 20 (htons (load16 m2 20))

unfoldable pub arp_addresses_to_host : Mem → Mem
arp_addresses_to_host m =
    let m1 : Mem = store32 m 28 (htonl (load32 m 28)) in store32 m1 38 (htonl (load32 m1 38))

-- The `switch` on the opcode; the packet is freed on every branch.
unfoldable pub arp_dispatch : Net → Subuff → Net
arp_dispatch net sub =
    if load16 sub.mem 20 == arp_request_op
    then elim (netdev_get net (load32 sub.mem 38)) [ none ↦ net | some dev ↦ arp_reply net sub dev ]
    else net

unfoldable pub arp_rx : Net → Subuff → Net
arp_rx net sub =
    let m1 : Mem = arp_header_to_host sub.mem in
    if not (load16 m1 14 == arp_ethernet)
    then net
    else if not (load16 m1 16 == arp_ipv4_type)
    then net
    else let m2 : Mem = arp_addresses_to_host m1 in
      arp_dispatch (record net { arp_cache = process_arp_entry m2 net.arp_cache })
        (record sub { mem = m2 })
