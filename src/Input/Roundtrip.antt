-- ===== src/Input/Roundtrip.antt =====
-- src/tcp.c, `create_tcp_packet`, with src/ip_tx.c, src/anp_netdev.c and src/ip_rx.c, and `tcp_rx`: a
-- segment on its way from one host to another.
use anp_netskeleton.Base.{
  ℕ, ◌+◌, ◌%◌, ◌<◌, ◌≡◌, ◌∙◌, ap, some, List, [], ◌∷◌, ◌++◌, u8, htons, htonl, pos, arith,
}
use anp_netskeleton.Memory.{Mem, load16, bytes}
use anp_netskeleton.Memory.Agree.{
  Agree, Agree-trans, load8-Agree, load16-Agree, load32-Agree, bytes-Agree,
}
use anp_netskeleton.Checksum.{do_tcp_csum}
use anp_netskeleton.Checksum.Agree.{do_tcp_csum-Agree}
use anp_netskeleton.Subuff.{Subuff}
use anp_netskeleton.Netdev.{RtEntry, Net}
use anp_netskeleton.Ip.{ip_output, ipp_tcp}
use anp_netskeleton.World.{World, ok, conn_at, put_conn, get_tcb}
use anp_netskeleton.Tcp.{Tcb}
use anp_netskeleton.Tcp.Packet.Fields.{
  packet_mem, packet-seq, packet-ack, packet-data_offset, packet-flags, packet-window,
  packet-local_port, packet-remote_port, packet-payload,
}
use anp_netskeleton.Tcp.Packet.Verified.{client_ip, create_tcp_packet-verified}
use anp_netskeleton.Tcp.Receive.{Segment, segment_of, segment_arrives}
use anp_netskeleton.Input.{process_packet}
use anp_netskeleton.Input.Transfer.{
  Routed, TcpPacket, frame, received-Agree, received-payload_len, ip_output-frame,
}
use anp_netskeleton.Input.Arrival.{rx_buffer, rx_mem, process_packet-segment}

-- What a segment says, and the data it carries, are those of the control block that sent it.
pub record Carries (t : Tcb) (source : Mem) (at n flags : ℕ) (s : Segment) : Type 0 where
  pub flags_ : s.flags ≡ u8 flags
  pub seq_num : s.seq_num ≡ t.snd_nxt
  pub ack_num : s.ack_num ≡ t.rcv_nxt
  pub window_size : s.window_size ≡ 65535
  pub segment_len : s.segment_len ≡ n
  pub payload : bytes s.mem 54 n ≡ bytes source at n

-- The control block that sends, on the client device.
pub record ClientTcb (t : Tcb) : Type 0 where
  pub local_ip : t.local_ip ≡ client_ip
  pub remote_ip : t.remote_ip % 256 < 242
  pub local_port : t.local_port < 65536
  pub remote_port : t.remote_port < 65536
  pub snd_nxt : t.snd_nxt < 4294967296
  pub rcv_nxt : t.rcv_nxt < 4294967296

-- A buffer that holds the packet of `create_tcp_packet`, for the first transmission or a later one,
-- when the other headers are in front of it.
pub record Holds (t : Tcb) (source : Mem) (at n flags : ℕ) (sub : Subuff) : Type 0 where
  pub packet : TcpPacket sub n
  pub block : Agree sub.mem (packet_mem t source at n flags) 34 (54 + n)

module _ (t : Tcb) (source : Mem) (at n flags : ℕ) (net : Net) (rt : RtEntry) (hw : Mem)
    (sub : Subuff) (client : ClientTcb t) (routed : Routed net t.remote_ip rt hw)
    (holds : Holds t source at n flags sub) where
  abbrev pub arriving : Mem
  arriving = rx_mem net t.remote_ip rt hw sub n routed holds.packet.short

  arriving-Agree : Agree arriving (packet_mem t source at n flags) 34 (54 + n)
  arriving-Agree = Agree-trans (received-Agree net t.remote_ip rt hw sub n routed) holds.block

  pub arriving-Carries : Carries t source at n flags (segment_of arriving)
  unfolding segment_of
  arriving-Carries =
      let same = arriving-Agree in
      let seq = load32-Agree same 38 (omega arith) (omega arith) in
      let ack = load32-Agree same 42 (omega arith) (omega arith) in
      let offset = load8-Agree same 46 (omega arith) (omega arith) in
      let len = received-payload_len net t.remote_ip rt hw sub n routed holds.packet.short in
      let header_words = offset ∙ packet-data_offset t source at n flags in
      record {
        flags_ = load8-Agree same 47 (omega arith) (omega arith) ∙ packet-flags t source at n flags;
        seq_num = ap htonl seq ∙ packet-seq t source at n flags client.snd_nxt;
        ack_num = ap htonl ack ∙ packet-ack t source at n flags client.rcv_nxt;
        window_size =
            ap htons (load16-Agree same 48 (omega arith) (omega arith))
            ∙ packet-window t source at n flags;
        segment_len = rw (len, header_words) (omega (arith, holds.packet.short));
        payload =
            bytes-Agree same 54 n (omega arith) (omega arith) ∙ packet-payload t source at n flags;
      }

  pub arriving-delivered :
      (w : World) (p : ℕ)
      → rt.dev.addr ≡ 0x0a000004
      → get_tcb w t.remote_port (htonl t.remote_ip) t.local_port rt.dev.addr ≡ some p
      → process_packet w (rx_buffer (frame net t.remote_ip rt hw sub n))
        ≡ ok (put_conn w (segment_arrives (conn_at w p) (segment_of arriving)))
  unfolding htonl
  arriving-delivered w p device found =
      process_packet-segment net t.remote_ip rt hw sub n routed holds.packet.short w p
        (verified device) (known w p found)
    where
      verified :
          rt.dev.addr ≡ 0x0a000004
          → do_tcp_csum sub.mem 34 (pos (20 + n)) ipp_tcp (htonl rt.dev.addr) (htonl t.remote_ip)
            ≡ 0
      verified device = rw device (
          do_tcp_csum-Agree holds.block 34 (20 + n) ipp_tcp client_ip (htonl t.remote_ip)
            (omega arith) (omega arith)
          ∙ create_tcp_packet-verified t source at n flags client.local_ip client.remote_ip
              holds.packet.short)

      known :
          (w : World) (p : ℕ)
          → get_tcb w t.remote_port (htonl t.remote_ip) t.local_port rt.dev.addr ≡ some p
          → get_tcb w
              (htons (load16 sub.mem 36))
              (htonl t.remote_ip)
              (htons (load16 sub.mem 34))
              rt.dev.addr
            ≡ some p
      known w p found =
          let target_ : htons (load16 sub.mem 36) ≡ t.remote_port =
            ap htons (load16-Agree holds.block 36 (omega arith) (omega arith))
            ∙ packet-remote_port t source at n flags client.remote_port in
          let source_ : htons (load16 sub.mem 34) ≡ t.local_port =
            ap htons (load16-Agree holds.block 34 (omega arith) (omega arith))
            ∙ packet-local_port t source at n flags client.local_port in
          rw (target_, source_) found

-- What one host writes and the other makes of it.
pub record Received (net net' : Net) (w : World) (p : ℕ) (t : Tcb) (source : Mem) (at n flags : ℕ)
    : Type 0 where
  pub sent : List ℕ
  pub segment : Segment
  pub wire : net'.wire ≡ net.wire ++ (sent ∷ [])
  pub carries : Carries t source at n flags segment
  pub handled :
      process_packet w (rx_buffer sent) ≡ ok (put_conn w (segment_arrives (conn_at w p) segment))

-- TODO
pub ip_output-Received :
    (t : Tcb) (source : Mem) (at n flags : ℕ) (net : Net) (rt : RtEntry) (hw : Mem) (sub : Subuff)
    (w : World) (p : ℕ)
    → ClientTcb t
    → Routed net t.remote_ip rt hw
    → rt.dev.addr ≡ 0x0a000004
    → Holds t source at n flags sub
    → get_tcb w t.remote_port (htonl t.remote_ip) t.local_port rt.dev.addr ≡ some p
    → Received net (ip_output net t.remote_ip sub).0 w p t source at n flags
ip_output-Received t source at n flags net rt hw sub w p client routed device holds found = record {
  sent = frame net t.remote_ip rt hw sub n;
  segment = segment_of (arriving t source at n flags net rt hw sub client routed holds);
  wire = ip_output-frame net t.remote_ip rt hw sub n routed holds.packet;
  carries = arriving-Carries t source at n flags net rt hw sub client routed holds;
  handled =
      arriving-delivered t source at n flags net rt hw sub client routed holds w p device found;
}
