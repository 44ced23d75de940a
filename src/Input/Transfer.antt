-- ===== src/Input/Transfer.antt =====
-- src/ip_tx.c, src/anp_netdev.c, src/ip_rx.c, src/tcp.c: a segment on its way from `ip_output` on one
-- host to `tcp_rx` on another.
use anp_netskeleton.Base.{
  ℕ, ◌+◌, ◌<◌, ◌≤◌, ◌≡◌, ◌∙◌, ap, refl, none, some, List, [], ◌∷◌, ◌++◌, u32, sub64, htons, htonl,
  htons-htons, htonl-htonl, pos, arith,
}
use anp_netskeleton.Memory.{Mem, load8, load16, load32, store16, bytes}
use anp_netskeleton.Memory.Laws.{load16-store16}
use anp_netskeleton.Memory.Agree.{
  Agree, Agree-trans, Agree-within, load8-Agree, load16-Agree, load32-Agree,
}
use anp_netskeleton.Subuff.{Subuff, sub_push, ip_hdr_len}
use anp_netskeleton.Netdev.{
  NetDev, RtEntry, Net, netdev_transmit, tdev_write, put_eth_hdr, eth_p_ip,
}
use anp_netskeleton.Arp.{arp_get_hwaddr}
use anp_netskeleton.Route.{route_lookup}
use anp_netskeleton.Ip.{ip_output, ip_send_check, put_ip_hdr, next_hop, ip_payload_len, ipp_tcp}
use anp_netskeleton.Ip.Output.{dst_neigh_output-found, put_ip_hdr-daddr}
use anp_netskeleton.Input.{ip_header_to_host, frame_mem}
use anp_netskeleton.Input.Frame.{
  frame_mem-Agree, put_eth_hdr-Agree, put_eth_hdr-type, swap_type-Agree, ip_output-Agree,
  ip_header_to_host-Agree, header-version, header-len, header-protocol, header-saddr, header-daddr,
  host-version, host-protocol, host-len, host-saddr, host-daddr,
}

-- The route to `daddr`, and the hardware address of the next hop.
pub record Routed (net : Net) (daddr : ℕ) (rt : RtEntry) (hw : Mem) : Type 0 where
  pub route : route_lookup net.routes daddr ≡ some rt
  pub neighbour : arp_get_hwaddr net.arp_cache (next_hop rt daddr) ≡ some hw
  pub mac_len : rt.dev.addr_len ≡ 6
  pub source : rt.dev.addr < 4294967296
  pub target_ : daddr < 4294967296

-- A TCP packet with `n` bytes of data, before `ip_output`.
pub record TcpPacket (sub : Subuff) (n : ℕ) : Type 0 where
  pub at : sub.at ≡ 34
  pub own_block : sub.other ≡ none
  pub len : sub.len ≡ 20 + n
  pub protocol : sub.protocol ≡ ipp_tcp
  pub short : n ≤ 1460

netdev_transmit-wire :
    (net : Net) (sub : Subuff) (dev : NetDev) (hw : Mem)
    → sub.other ≡ none
    → (netdev_transmit net sub dev hw eth_p_ip).0.wire
      ≡ net.wire
        ++ (bytes
              (put_eth_hdr sub.mem (sub64 sub.at 14) dev hw eth_p_ip)
              (sub64 sub.at 14)
              (u32 (sub.len + 14))
            ∷ [])
unfolding netdev_transmit tdev_write sub_push
netdev_transmit-wire net sub dev hw own = rw own refl

module _ (net : Net) (daddr : ℕ) (rt : RtEntry) (hw : Mem) (sub : Subuff) (n : ℕ) where
  abbrev pub ip_block : Mem
  ip_block = ip_send_check (put_ip_hdr sub.mem (40 + n) ipp_tcp rt.dev.addr daddr)

  abbrev pub eth_block : Mem
  eth_block = put_eth_hdr ip_block 0 rt.dev hw eth_p_ip

  -- The frame that is written.
  abbrev pub frame : List ℕ
  frame = bytes eth_block 0 (54 + n)

  -- The packet as `dst_neigh_output` is given it.
  abbrev pub ip_packet : Subuff
  ip_packet =
      let pushed : Subuff = sub_push sub ip_hdr_len in
      record pushed {
        mem = ip_send_check (put_ip_hdr sub.mem pushed.len sub.protocol rt.dev.addr daddr);
      }

  pub ip_output-transmit :
      Routed net daddr rt hw
      → ip_output net daddr sub ≡ netdev_transmit net ip_packet rt.dev hw eth_p_ip
  unfolding ip_output sub_push
  ip_output-transmit routed =
      rw (ip_output, routed.route)
        (dst_neigh_output-found net ip_packet rt hw daddr
          (put_ip_hdr-daddr sub.mem _ sub.protocol rt.dev.addr daddr routed.target_)
          routed.neighbour)

  pub ip_packet-shape :
      TcpPacket sub n → (ip_packet.at ≡ 14) × (ip_packet.len ≡ 40 + n) × (ip_packet.mem ≡ ip_block)
  unfolding sub_push
  ip_packet-shape packet =
      let len : u32 (sub.len + 20) ≡ 40 + n = omega (arith, packet.len, packet.short) in
      (omega (arith, packet.at), len, rw (len, packet.protocol) refl)

  pub ip_output-frame :
      Routed net daddr rt hw
      → TcpPacket sub n
      → (ip_output net daddr sub).0.wire ≡ net.wire ++ (frame ∷ [])
  unfolding sub_push
  ip_output-frame routed packet =
      let (at, len, block) = ip_packet-shape packet in
      let at' : sub64 ip_packet.at 14 ≡ 0 = omega (arith, at) in
      let len' : u32 (ip_packet.len + 14) ≡ 54 + n = omega (arith, len, packet.short) in
      rw (ip_output-transmit routed)
        (netdev_transmit-wire net ip_packet rt.dev hw packet.own_block ∙ rw (at', len', block) refl)

  -- The block of the received frame, before and after the ethertype is put in host byte order, and
  -- after `ip_rx`.
  abbrev pub arrived : Mem
  arrived = frame_mem frame

  abbrev pub typed : Mem
  typed = store16 arrived 12 (htons (load16 arrived 12))

  abbrev pub received : Mem
  received = ip_header_to_host typed

  arrived-Agree : Agree arrived eth_block 0 (54 + n)
  arrived-Agree = frame_mem-Agree eth_block (54 + n)

  pub typed-Agree : Routed net daddr rt hw → Agree typed ip_block 14 (54 + n)
  typed-Agree routed = Agree-trans (swap_type-Agree arrived (htons (load16 arrived 12)) (54 + n)) (
      Agree-trans (Agree-within 14 (54 + n) (omega arith) (omega arith) arrived-Agree)
        (put_eth_hdr-Agree ip_block rt.dev hw eth_p_ip (54 + n) routed.mac_len))

  pub received-Agree : Routed net daddr rt hw → Agree received sub.mem 34 (54 + n)
  received-Agree routed = Agree-trans (ip_header_to_host-Agree typed (54 + n)) (
      Agree-trans (Agree-within 34 (54 + n) (omega arith) (omega arith) (typed-Agree routed))
        (ip_output-Agree sub.mem (40 + n) ipp_tcp rt.dev.addr daddr (54 + n)))

  pub typed-type : load16 typed 12 ≡ eth_p_ip
  typed-type =
      let sent : load16 eth_block 12 ≡ htons eth_p_ip =
        put_eth_hdr-type ip_block rt.dev hw eth_p_ip (omega arith) in
      let same : load16 arrived 12 ≡ load16 eth_block 12 =
        load16-Agree arrived-Agree 12 (omega arith) (omega arith) in
      let swapped : htons (load16 arrived 12) ≡ eth_p_ip =
        ap htons (same ∙ sent) ∙ htons-htons eth_p_ip (omega arith) in
      load16-store16 arrived 12 _ ∙ omega (arith, swapped)

  received-len : Routed net daddr rt hw → n ≤ 1460 → load16 received 16 ≡ 40 + n
  received-len routed short =
      host-len typed
      ∙ ap htons (
          load16-Agree (typed-Agree routed) 16 (omega arith) (omega arith)
          ∙ header-len sub.mem (40 + n) ipp_tcp rt.dev.addr daddr (omega (arith, short)))
      ∙ htons-htons (40 + n) (omega (arith, short))

  pub received-version : Routed net daddr rt hw → load8 received 14 ≡ 69
  received-version routed =
      host-version typed
      ∙ load8-Agree (typed-Agree routed) 14 (omega arith) (omega arith)
      ∙ header-version sub.mem (40 + n) ipp_tcp rt.dev.addr daddr

  pub received-protocol : Routed net daddr rt hw → load8 received 23 ≡ ipp_tcp
  received-protocol routed =
      host-protocol typed
      ∙ load8-Agree (typed-Agree routed) 23 (omega arith) (omega arith)
      ∙ header-protocol sub.mem (40 + n) ipp_tcp rt.dev.addr daddr

  pub received-saddr : Routed net daddr rt hw → load32 received 26 ≡ rt.dev.addr
  received-saddr routed =
      host-saddr typed
      ∙ ap htonl (
          load32-Agree (typed-Agree routed) 26 (omega arith) (omega arith)
          ∙ header-saddr sub.mem (40 + n) ipp_tcp rt.dev.addr daddr routed.source)
      ∙ htonl-htonl rt.dev.addr routed.source

  pub received-daddr : Routed net daddr rt hw → load32 received 30 ≡ daddr
  received-daddr routed =
      host-daddr typed
      ∙ ap htonl (
          load32-Agree (typed-Agree routed) 30 (omega arith) (omega arith)
          ∙ header-daddr sub.mem (40 + n) ipp_tcp rt.dev.addr daddr routed.target_)
      ∙ htonl-htonl daddr routed.target_

  -- The length that `IP_PAYLOAD_LEN` gives.
  pub received-payload_len :
      Routed net daddr rt hw → n ≤ 1460 → ip_payload_len received ≡ pos (20 + n)
  unfolding ip_payload_len
  received-payload_len routed short =
      rw (received-version routed, received-len routed short) (ground arith)
