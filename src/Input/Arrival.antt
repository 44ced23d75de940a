-- ===== src/Input/Arrival.antt =====
-- src/anp_netdev.c, `process_packet`, src/ip_rx.c and src/tcp.c: a segment that another host has sent
-- with src/ip_tx.c.
use anp_netskeleton.Base.{
  ℕ, ◌+◌, ◌≤◌, ◌≡◌, ◌∙◌, ap, refl, false, some, List, htons, htonl, pos, ltb, int_to_size, arith,
}
use anp_netskeleton.Memory.{Mem, load8, load16, load32}
use anp_netskeleton.Memory.Agree.{Agree-within, load16-Agree}
use anp_netskeleton.Checksum.{do_tcp_csum}
use anp_netskeleton.Checksum.Agree.{do_tcp_csum-Agree}
use anp_netskeleton.Subuff.{Subuff, alloc_sub}
use anp_netskeleton.Netdev.{RtEntry, Net}
use anp_netskeleton.Ip.{ip_payload_len, ipp_tcp}
use anp_netskeleton.World.{World, ok, conn_at, put_conn, get_tcb}
use anp_netskeleton.Tcp.Receive.{segment_of, segment_arrives}
use anp_netskeleton.Input.{process_packet, ip_dispatch, tcp_rx, tcp_rx_csum, frame_mem}
use anp_netskeleton.Input.Accepts.{ip_rx-checked}
use anp_netskeleton.Input.Transfer.{
  Routed, frame, typed, received, typed-Agree, typed-type, received-Agree, received-protocol,
  received-saddr, received-daddr, received-payload_len,
}

-- The buffer that `netdev_rx_loop` reads a frame into.
abbrev pub rx_buffer : List ℕ → Subuff
rx_buffer bytes_read = record (alloc_sub 1522) { mem = frame_mem bytes_read }

-- `tcp_rx` on a segment that is long enough, passes the check and belongs to a connection.
tcp_rx-found :
    (w : World) (s : Subuff) (p n : ℕ)
    → n ≤ 1460
    → ip_payload_len s.mem ≡ pos (20 + n)
    → tcp_rx_csum s.mem ≡ 0
    → get_tcb w
        (htons (load16 s.mem 36))
        (htonl (load32 s.mem 30))
        (htons (load16 s.mem 34))
        (load32 s.mem 26)
      ≡ some p
    → tcp_rx w s ≡ ok (put_conn w (segment_arrives (conn_at w p) (segment_of s.mem)))
unfolding tcp_rx
tcp_rx-found w s p n short len csum found =
    let enough : ltb (int_to_size (pos (20 + n))) 20 ≡ false = ground arith in
    rw (len, enough, csum, found) refl

module _ (net : Net) (daddr : ℕ) (rt : RtEntry) (hw : Mem) (sub : Subuff) (n : ℕ)
    (routed : Routed net daddr rt hw) (short : n ≤ 1460) where
  abbrev pub rx_mem : Mem
  rx_mem = received net daddr rt hw sub n

  process_packet-dispatch :
      (w : World)
      → process_packet w (rx_buffer (frame net daddr rt hw sub n))
        ≡ ip_dispatch w (record (rx_buffer (frame net daddr rt hw sub n)) { mem = rx_mem })
  unfolding process_packet
  process_packet-dispatch w = rw (typed-type net daddr rt hw sub n) (
      ip_rx-checked sub.mem (40 + n) ipp_tcp rt.dev.addr daddr w
        (record (rx_buffer (frame net daddr rt hw sub n)) { mem = typed net daddr rt hw sub n })
        (Agree-within 14 34 (omega arith) (omega arith) (typed-Agree net daddr rt hw sub n routed)))

  ip_dispatch-tcp : (w : World) (s : Subuff) → s.mem ≡ rx_mem → ip_dispatch w s ≡ tcp_rx w s
  unfolding ip_dispatch
  ip_dispatch-tcp w s e =
      let tcp : load8 s.mem 23 ≡ ipp_tcp =
        ap (λ m. load8 m 23) e ∙ received-protocol net daddr rt hw sub n routed in
      rw tcp refl

  rx_csum :
      tcp_rx_csum rx_mem
      ≡ do_tcp_csum sub.mem 34 (pos (20 + n)) ipp_tcp (htonl rt.dev.addr) (htonl daddr)
  unfolding tcp_rx_csum htons
  rx_csum =
      let len = received-payload_len net daddr rt hw sub n routed short in
      let protocol = received-protocol net daddr rt hw sub n routed in
      let saddr = received-saddr net daddr rt hw sub n routed in
      let daddr' = received-daddr net daddr rt hw sub n routed in
      rw (len, protocol, saddr, daddr')
        (do_tcp_csum-Agree (received-Agree net daddr rt hw sub n routed) 34 (20 + n) ipp_tcp
          (htonl rt.dev.addr) (htonl daddr) (omega arith) (omega arith))

  rx_ports :
      (w : World) (p : ℕ)
      → get_tcb w (htons (load16 sub.mem 36)) (htonl daddr) (htons (load16 sub.mem 34)) rt.dev.addr
        ≡ some p
      → get_tcb w
          (htons (load16 rx_mem 36))
          (htonl (load32 rx_mem 30))
          (htons (load16 rx_mem 34))
          (load32 rx_mem 26)
        ≡ some p
  rx_ports w p found =
      let same = received-Agree net daddr rt hw sub n routed in
      let target_ = load16-Agree same 36 (omega arith) (omega arith) in
      let source = load16-Agree same 34 (omega arith) (omega arith) in
      let saddr = received-saddr net daddr rt hw sub n routed in
      let daddr' = received-daddr net daddr rt hw sub n routed in
      rw (target_, source, saddr, daddr') found

  pub process_packet-segment :
      (w : World) (p : ℕ)
      → do_tcp_csum sub.mem 34 (pos (20 + n)) ipp_tcp (htonl rt.dev.addr) (htonl daddr) ≡ 0
      → get_tcb w (htons (load16 sub.mem 36)) (htonl daddr) (htons (load16 sub.mem 34)) rt.dev.addr
        ≡ some p
      → process_packet w (rx_buffer (frame net daddr rt hw sub n))
        ≡ ok (put_conn w (segment_arrives (conn_at w p) (segment_of rx_mem)))
  process_packet-segment w p good found =
      let s : Subuff = record (rx_buffer (frame net daddr rt hw sub n)) { mem = rx_mem } in
      process_packet-dispatch w
      ∙ ip_dispatch-tcp w s refl
      ∙ tcp_rx-found w s p n short (received-payload_len net daddr rt hw sub n routed short)
          (rx_csum ∙ good) (rx_ports w p found)
