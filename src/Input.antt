-- ===== src/Input.antt =====
-- The receiving thread: src/anp_netdev.c (`netdev_rx_loop`, `process_packet`), src/ip_rx.c, and the
-- first part of `tcp_rx` in src/tcp.c, up to the lookup of the control block.
pub mod Accepts
pub mod Frame
pub mod Transfer
pub mod Arrival
pub mod Roundtrip
pub mod Stream
pub mod Parcels
pub mod Pushed
use anp_netskeleton.Base.{
  ℕ, zero, suc, ◌*◌, Bool, Option, none, some, List, [], ◌∷◌, ◌==◌, ltb, if◌then◌else◌, not, htons,
  htonl, pos, int_to_size, u8,
}
use anp_netskeleton.Memory.{Mem, load8, load16, load32, store16, store32}
use anp_netskeleton.Checksum.{do_csum, do_tcp_csum}
use anp_netskeleton.Subuff.{Subuff, alloc_sub, tcp_hdr_len}
use anp_netskeleton.Netdev.{eth_p_arp, eth_p_ip}
use anp_netskeleton.Arp.{arp_rx}
use anp_netskeleton.Ip.{ip_ihl, ip_version, ip_payload_len, ipp_icmp, ipp_ip_in_ip, ipp_tcp}
use anp_netskeleton.Icmp.{icmp_rx}
use anp_netskeleton.Tcp.Receive.{segment_of, segment_arrives}
use anp_netskeleton.World.{
  World, conn_at, put_conn, Run, ok, fault, null_dereference, uninitialised, get_tcb,
}

-- `sizeof` gives a size_t, so a negative length is compared as a large one.
abbrev pub too_short_for_tcp : Mem → Bool
too_short_for_tcp m = ltb (int_to_size (ip_payload_len m)) tcp_hdr_len

-- The receiver's checksum: `proto << 8` and `ntohs` give the protocol number back.
unfoldable pub tcp_rx_csum : Mem → ℕ
tcp_rx_csum m =
    do_tcp_csum m 34 (ip_payload_len m) (htons (load8 m 23 * 256)) (htonl (load32 m 26))
      (htonl (load32 m 30))

-- A packet that is dropped before the lookup jumps past the declarations of `tcb` and of the two
-- flags, and the code at the label reads them. Without a control block it unlocks a mutex at NULL.
unfoldable pub tcp_rx : World → Subuff → Run
tcp_rx w sub =
    if too_short_for_tcp sub.mem
    then fault uninitialised
    else if not (tcp_rx_csum sub.mem == 0)
    then fault uninitialised
    else elim (get_tcb w (htons (load16 sub.mem 36)) (htonl (load32 sub.mem 30))
        (htons (load16 sub.mem 34)) (load32 sub.mem 26)) [
          | none ↦ fault null_dereference
          | some p ↦ ok (put_conn w (segment_arrives (conn_at w p) (segment_of sub.mem)))
        ]

-- The four fields that `ip_rx` puts in host byte order.
unfoldable pub ip_header_to_host : Mem → Mem
ip_header_to_host m =
    let m1 : Mem = store32 m 26 (htonl (load32 m 26)) in
    let m2 : Mem = store32 m1 30 (htonl (load32 m1 30)) in
    let m3 : Mem = store16 m2 16 (htons (load16 m2 16)) in store16 m3 18 (htons (load16 m3 18))

unfoldable pub ip_dispatch : World → Subuff → Run
ip_dispatch w sub =
    if load8 sub.mem 23 == ipp_icmp
    then ok (icmp_rx w sub)
    else if load8 sub.mem 23 == ipp_tcp
    then tcp_rx w sub
    else ok w

unfoldable pub ip_rx : World → Subuff → Run
ip_rx w sub =
    if not (ip_version sub.mem == ipp_ip_in_ip)
    then ok w
    else if ltb (ip_ihl sub.mem) 5
    then ok w
    else if load8 sub.mem 22 == 0
    then ok w
    else if not (do_csum sub.mem 14 (pos (ip_ihl sub.mem * 4)) 0 == 0)
    then ok w
    else ip_dispatch w (record sub { mem = ip_header_to_host sub.mem })

-- The ethertype is swapped in place.
abbrev pub eth_hdr : Mem → Mem
eth_hdr m = store16 m 12 (htons (load16 m 12))

unfoldable pub process_packet : World → Subuff → Run
process_packet w sub =
    let m : Mem = eth_hdr sub.mem in
    let sub' : Subuff = record sub { mem = m } in
    if load16 m 12 == eth_p_arp
    then ok (record w { net = arp_rx w.net sub' })
    else if load16 m 12 == eth_p_ip
    then ip_rx w sub'
    else ok w

-- A frame that read(2) has put in a fresh buffer.
unfoldable pub frame_mem : List ℕ → Mem
frame_mem [] i = 0
frame_mem (b ∷ frame) zero = u8 b
frame_mem (b ∷ frame) (suc i) = frame_mem frame i

-- What the reads return, until the thread is stopped: a frame, or an error, which ends the loop.
unfoldable pub netdev_rx_loop : World → List (Option (List ℕ)) → Run
netdev_rx_loop w [] = ok w
netdev_rx_loop w (none ∷ reads) = ok w
netdev_rx_loop w (some frame ∷ reads) =
    elim (process_packet w (record (alloc_sub 1522) { mem = frame_mem frame })) [
      | ok w' ↦ netdev_rx_loop w' reads
      | fault f ↦ fault f
    ]
