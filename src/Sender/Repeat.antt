-- ===== src/Sender/Repeat.antt =====
-- src/tcp.c, `tcp_retransmit_handler`: a message that is tried again and again, and src/ip_tx.c, that
-- writes its headers into the message's block.
use anp_netskeleton.Base.{
  ℕ, ◌+◌, ◌≤◌, ◌≡◌, ◌∙◌, refl, Option-cases, inl, inr, none, some, List, [], ◌∷◌, All, sub64, htonl,
  arith,
}
use anp_netskeleton.Memory.{Mem, load32, zeroed}
use anp_netskeleton.Memory.Agree.{Agree, Agree-refl, Agree-trans, Agree-within}
use anp_netskeleton.Subuff.{Subuff, sub_push}
use anp_netskeleton.Netdev.{RtEntry, Net, netdev_transmit, eth_p_ip}
use anp_netskeleton.Arp.{arp_get_hwaddr}
use anp_netskeleton.Route.{route_lookup}
use anp_netskeleton.Route.Lookup.{route_lookup-All}
use anp_netskeleton.Ip.{ip_output, dst_neigh_output, next_hop}
use anp_netskeleton.Input.Frame.{put_eth_hdr-Agree, ip_output-Agree}
use anp_netskeleton.Input.Transfer.{Routed, TcpPacket, ip_packet, ip_packet-shape}
use anp_netskeleton.Input.Roundtrip.{ClientTcb, Holds, Received, ip_output-Received}
use anp_netskeleton.World.{World, get_tcb}
use anp_netskeleton.Tcp.{Tcb, Message}
use anp_netskeleton.Tcp.Packet.{create_tcp_packet, new_message}
use anp_netskeleton.Sender.{try_message}

-- The buffer of a try, with `data` and `len` set again.
abbrev sub_of : Message → Subuff
sub_of msg = record msg.sub { at = msg.tcp_ptr; other = msg.stale; len = msg.tcp_len }

-- A message with the packet that `create_tcp_packet` makes of `n` bytes at offset `at` of `source`.
abbrev pub IsMessage : Tcb → Mem → ℕ → ℕ → ℕ → Message → Type 0
IsMessage t source at n flags msg = Holds t source at n flags (sub_of msg)

-- The devices of the routes have Ethernet addresses.
abbrev pub OnEthernet : Net → Type 0
OnEthernet net = All (λ rt. rt.dev.addr_len ≡ 6) net.routes

-- A buffer after a try: the TCP part of the block as before.
record Kept (sub used : Subuff) (hi : ℕ) : Type 0 where
  other : used.other ≡ none
  protocol : used.protocol ≡ sub.protocol
  block : Agree used.mem sub.mem 34 hi

netdev_transmit-Kept :
    (net : Net) (sub : Subuff) (rt : RtEntry) (hw : Mem) (type hi : ℕ)
    → sub.other ≡ none
    → sub.at ≡ 14
    → rt.dev.addr_len ≡ 6
    → Kept sub (netdev_transmit net sub rt.dev hw type).2 hi
unfolding netdev_transmit sub_push
netdev_transmit-Kept net sub rt hw type hi own at len =
    let front : sub64 sub.at 14 ≡ 0 = omega (arith, at) in
    rw (own, front)
      (record {
        other = refl;
        protocol = refl;
        block =
            Agree-within 34 hi (omega arith) (omega arith)
              (put_eth_hdr-Agree sub.mem rt.dev hw type hi len);
      })

dst_neigh_output-Kept :
    (net : Net) (sub : Subuff) (rt : RtEntry) (hi : ℕ)
    → sub.other ≡ none
    → sub.at ≡ 14
    → rt.dev.addr_len ≡ 6
    → Kept sub (dst_neigh_output net sub rt).2 hi
unfolding dst_neigh_output
dst_neigh_output-Kept net sub rt hi own at len =
    elim (Option-cases (arp_get_hwaddr net.arp_cache (next_hop rt (htonl (load32 sub.mem 30))))) [
      | inl none_ ↦
          rw (dst_neigh_output, none_) (record { other = own; protocol = refl; block = Agree-refl })
      | inr (hw, found) ↦
          rw (dst_neigh_output, found) (netdev_transmit-Kept net sub rt hw eth_p_ip hi own at len)
    ]

ip_output-Kept :
    (net : Net) (daddr : ℕ) (sub : Subuff) (n : ℕ)
    → TcpPacket sub n
    → OnEthernet net
    → Kept sub (ip_output net daddr sub).2 (54 + n)
unfolding ip_output sub_push
ip_output-Kept net daddr sub n packet ethernet =
    elim (Option-cases (route_lookup net.routes daddr)) [
      | inl none_ ↦
          rw (ip_output, none_)
            (record { other = packet.own_block; protocol = refl; block = Agree-refl })
      | inr (rt, found) ↦
          let (at, _, block) = ip_packet-shape net daddr rt zeroed sub n packet in
          let pk : Subuff = ip_packet net daddr rt zeroed sub n in
          let kept : Kept pk (dst_neigh_output net pk rt).2 (54 + n) =
            dst_neigh_output-Kept net pk rt (54 + n) packet.own_block at
              (route_lookup-All (λ r. r.dev.addr_len ≡ 6) net.routes daddr rt ethernet found) in
          rw (ip_output, found)
            (record {
              other = kept.other;
              protocol = kept.protocol;
              block =
                  Agree-trans kept.block
                    (ip_output-Agree sub.mem _ sub.protocol rt.dev.addr daddr (54 + n));
            })
    ]

-- A message after a try over each of the tables.
unfoldable pub tries : ℕ → List Net → Message → Message
tries remote_ip [] msg = msg
tries remote_ip (net ∷ nets) msg = tries remote_ip nets (try_message net remote_ip msg).2

module _ (t : Tcb) (source : Mem) (at n flags : ℕ) where
  new_message-IsMessage :
      (ptr retries : ℕ)
      → n ≤ 1460
      → IsMessage t source at n flags
          (new_message ptr (create_tcp_packet t source at n flags).0 retries)
  unfolding new_message create_tcp_packet
  new_message-IsMessage ptr retries short = record {
    packet = record {
      at = omega (arith, short);
      own_block = refl;
      len = omega (arith, short);
      protocol = refl;
      short = short;
    };
    block = Agree-refl;
  }

  -- A try leaves the message one with the same packet, whether it is transmitted or not.
  try_message-IsMessage :
      (net : Net) (remote_ip : ℕ) (msg : Message)
      → OnEthernet net
      → IsMessage t source at n flags msg
      → IsMessage t source at n flags (try_message net remote_ip msg).2
  unfolding try_message
  try_message-IsMessage net remote_ip msg ethernet holds =
      let kept = ip_output-Kept net remote_ip (sub_of msg) n holds.packet ethernet in
      record {
        packet = record {
          at = holds.packet.at;
          own_block = kept.other;
          len = holds.packet.len;
          protocol = kept.protocol ∙ holds.packet.protocol;
          short = holds.packet.short;
        };
        block = Agree-trans kept.block holds.block;
      }

  tries-IsMessage :
      (nets : List Net) (msg : Message)
      → All OnEthernet nets
      → IsMessage t source at n flags msg
      → IsMessage t source at n flags (tries t.remote_ip nets msg)
  unfolding tries
  tries-IsMessage [] msg ethernet holds = holds
  tries-IsMessage (net ∷ nets) msg (first, ethernet) holds =
      tries-IsMessage nets (try_message net t.remote_ip msg).2 ethernet
        (try_message-IsMessage net t.remote_ip msg first holds)

-- A message with a packet of create_tcp_packet, of at most 1460 bytes of data, that has been tried
-- over any tables before, and is tried now with a route and a known hardware address of the next
-- hop, puts one frame on the wire; and the receiving thread of a host that has the connection
-- handles this frame as a segment with the flags, the sequence number and the acknowledgment
-- number of the control block that built it, the window 65535, and the bytes of the source. The
-- conditions are the client device (10.0.0.4) as the sender, a peer whose last octet is below 242,
-- ports and numbers in the range of their fields, and Ethernet addresses of 6 bytes.
pub tries-Received :
    (t : Tcb) (source : Mem) (at n flags ptr retries : ℕ) (nets : List Net) (net : Net)
    (rt : RtEntry) (hw : Mem) (w : World) (p : ℕ)
    → ClientTcb t
    → n ≤ 1460
    → All OnEthernet nets
    → Routed net t.remote_ip rt hw
    → rt.dev.addr ≡ 0x0a000004
    → get_tcb w t.remote_port (htonl t.remote_ip) t.local_port rt.dev.addr ≡ some p
    → let msg = new_message ptr (create_tcp_packet t source at n flags).0 retries in
      Received net
        (try_message net t.remote_ip (tries t.remote_ip nets msg)).0
        w
        p
        t
        source
        at
        n
        flags
unfolding try_message
tries-Received t source at n flags ptr retries nets net rt hw w p client short ethernet routed
      device found =
    let msg : Message = new_message ptr (create_tcp_packet t source at n flags).0 retries in
    let holds : IsMessage t source at n flags (tries t.remote_ip nets msg) =
      tries-IsMessage t source at n flags nets msg ethernet
        (new_message-IsMessage t source at n flags ptr retries short) in
    ip_output-Received t source at n flags net rt hw (sub_of (tries t.remote_ip nets msg)) w p
      client routed device holds found
