-- ===== src/Tcp/Packet/Verified.antt =====
-- src/tcp.c, `create_tcp_packet` against `tcp_rx`: the checksum of a segment.
use anp_netskeleton.Base.{ℕ, ◌+◌, ◌*◌, ◌%◌, ◌<◌, ◌≤◌, ◌≡◌, refl, htons, htonl, arith, pos, u32}
use anp_netskeleton.Memory.{Mem, store16}
use anp_netskeleton.Memory.Laws.{load16-store16}
use anp_netskeleton.Checksum.{do_tcp_csum, pseudo_sum}
use anp_netskeleton.Checksum.Verify.{Congruent, do_csum-store16-do_csum}
use anp_netskeleton.Ip.{ipp_tcp}
use anp_netskeleton.Tcp.{Tcb}
use anp_netskeleton.Tcp.Packet.{put_tcp_csum, create_tcp_packet}

-- 10.0.0.4 in network byte order, the `local_ip` that `connect` stores for the client device.
abbrev pub client_ip : ℕ
client_ip = 0x0400000a

module _ (len remote_ip : ℕ) (short : len ≤ 1480) (octet : remote_ip % 256 < 242) where
  -- What the sender and the receiver add for the pseudo-header.
  sender_sum :
      pseudo_sum (pos len) (htons ipp_tcp) (htonl client_ip) (htonl remote_ip)
      ≡ 0x0a00000a + htonl remote_ip + htons len
  unfolding pseudo_sum htonl
  sender_sum = omega arith

  receiver_sum :
      pseudo_sum (pos len) ipp_tcp client_ip (htonl remote_ip)
      ≡ 0x0400060a + htonl remote_ip + htons len
  unfolding pseudo_sum htonl
  receiver_sum = omega arith

  -- The sender's sum has two terms in the wrong byte order, which make up for each other.
  sums-Congruent :
      Congruent
        (pseudo_sum (pos len) (htons ipp_tcp) (htonl client_ip) (htonl remote_ip))
        (pseudo_sum (pos len) ipp_tcp client_ip (htonl remote_ip))
  sums-Congruent = (0, 1536, omega (arith, sender_sum, receiver_sum))

  htonl_small : htonl remote_ip < 242 * 16777216
  unfolding htonl
  htonl_small = omega arith

  htons_small : htons len < 65536
  unfolding htons
  htons_small = omega arith

  put_tcp_csum-verified :
      (m : Mem) (t : Tcb)
      → t.local_ip ≡ client_ip
      → t.remote_ip ≡ remote_ip
      → 20 ≤ len
      → do_tcp_csum (put_tcp_csum m t len) 34 (pos len) ipp_tcp client_ip (htonl remote_ip) ≡ 0
  unfolding put_tcp_csum do_tcp_csum
  put_tcp_csum-verified m t local remote long =
      rw (local, remote)
        (do_csum-store16-do_csum (store16 m 50 0) 8 34 len
          (pseudo_sum (pos len) (htons ipp_tcp) (htonl client_ip) (htonl remote_ip))
          (pseudo_sum (pos len) ipp_tcp client_ip (htonl remote_ip)) sums-Congruent (omega arith)
          (load16-store16 m 50 0) (omega (arith, sender_sum, htonl_small, htons_small))
          (omega (arith, receiver_sum, htonl_small, htons_small))
          (λ e. absurd (omega (arith, e, receiver_sum))))

-- A segment with at most 1460 bytes of data that `create_tcp_packet` builds for the client device
-- (10.0.0.4), to an address whose last octet is below 242, passes the check that `tcp_rx` makes of a
-- segment: its checksum over the TCP part, with the addresses as they stand in the IP header and
-- protocol 6, comes out as 0.
pub create_tcp_packet-verified :
    (t : Tcb) (source : Mem) (at n flags : ℕ)
    → t.local_ip ≡ client_ip
    → t.remote_ip % 256 < 242
    → n ≤ 1460
    → do_tcp_csum
        (create_tcp_packet t source at n flags).0.mem
        34
        (pos (20 + n))
        ipp_tcp
        client_ip
        (htonl t.remote_ip)
      ≡ 0
unfolding create_tcp_packet
create_tcp_packet-verified t source at n flags local octet short =
    let len : u32 (20 + n) ≡ 20 + n = omega arith in
    rw len
      (put_tcp_csum-verified (20 + n) t.remote_ip (omega arith) octet _ t local refl (omega arith))
