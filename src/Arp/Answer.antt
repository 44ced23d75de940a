-- ===== src/Arp/Answer.antt =====
-- src/arp.c, `arp_rx` and `arp_reply`: the answer to a request.
use anp_netskeleton.Base.{
  ◌+◌, ◌<◌, ◌≡◌, ◌∙◌, ap, refl, none, [], ◌∷◌, ◌++◌, ◌==◌, true, htons, htonl, htons-htons,
  htonl-htonl, arith,
}
use anp_netskeleton.Memory.{Mem, load8, load16, load32, store8, store16, store32, memcpy, bytes}
use anp_netskeleton.Memory.Laws.{load32-lt}
use anp_netskeleton.Subuff.{Subuff, sub_reserve, sub_push}
use anp_netskeleton.Netdev.{
  NetDev, Net, netdev_get, netdev_transmit, tdev_write, put_eth_hdr, eth_p_arp,
}
use anp_netskeleton.Arp.{
  arp_rx, arp_dispatch, arp_reply, arp_reply_mem, arp_header_to_host, arp_addresses_to_host,
  arp_ethernet, arp_ipv4_type, arp_request_op, arp_reply_op, process_arp_entry,
}

reply-opcode : (m : Mem) (dev : NetDev) → load16 (arp_reply_mem m dev) 20 ≡ htons arp_reply_op
unfolding arp_reply_mem load16 load8 store16 store8 store32 memcpy htons htonl load32
reply-opcode m dev = refl

reply-src_ip :
    (m : Mem) (dev : NetDev)
    → dev.addr < 4294967296
    → load32 (arp_reply_mem m dev) 28 ≡ htonl dev.addr
unfolding arp_reply_mem load16 load8 store16 store8 store32 memcpy htons htonl load32
reply-src_ip m dev h = omega (arith, h)

reply-dst_ip : (m : Mem) (dev : NetDev) → load32 (arp_reply_mem m dev) 38 ≡ htonl (load32 m 28)
unfolding arp_reply_mem load16 load8 store16 store8 store32 memcpy htons htonl load32
reply-dst_ip m dev = omega arith

reply-dst_mac : (m : Mem) (dev : NetDev) → bytes (arp_reply_mem m dev) 32 6 ≡ bytes m 22 6
unfolding arp_reply_mem load16 load8 store16 store8 store32 memcpy htons htonl load32
reply-dst_mac m dev = refl

reply-src_mac : (m : Mem) (dev : NetDev) → bytes (arp_reply_mem m dev) 22 6 ≡ bytes dev.hwaddr 0 6
unfolding arp_reply_mem load16 load8 store16 store8 store32 memcpy htons htonl load32
reply-src_mac m dev = refl

-- A frame that answers the request `m`, from the device `dev`: to the sender, with the two addresses
-- exchanged and the device's own hardware address.
pub record Answers (m : Mem) (dev : NetDev) (frame : Mem) : Type 0 where
  pub to_sender : bytes frame 0 6 ≡ bytes m 22 6
  pub from_device : bytes frame 6 6 ≡ bytes dev.hwaddr 0 6
  pub ethertype : load16 frame 12 ≡ htons eth_p_arp
  pub opcode : load16 frame 20 ≡ htons arp_reply_op
  pub source_mac : bytes frame 22 6 ≡ bytes dev.hwaddr 0 6
  pub source_ip : load32 frame 28 ≡ htonl dev.addr
  pub target_mac : bytes frame 32 6 ≡ bytes m 22 6
  pub target_ip : load32 frame 38 ≡ load32 m 28

-- The memory that `arp_rx` gives to `arp_dispatch`.
abbrev pub to_host : Mem → Mem
to_host m = arp_addresses_to_host (arp_header_to_host m)

abbrev answer_frame : Mem → NetDev → Mem
answer_frame m dev =
    let filled : Mem = arp_reply_mem (to_host m) dev in
    put_eth_hdr filled 0 dev (λ i. filled (32 + i)) eth_p_arp

to_host-fields :
    (m : Mem)
    → (bytes (to_host m) 22 6 ≡ bytes m 22 6)
      × (load32 (to_host m) 28 ≡ htonl (load32 m 28))
      × (load32 (to_host m) 38 ≡ htonl (load32 m 38))
      × (load16 (to_host m) 20 ≡ htons (load16 m 20))
unfolding arp_addresses_to_host arp_header_to_host load16 load8 store16 store8 store32 htons htonl
    load32
to_host-fields m = (refl, omega arith, omega arith, omega arith)

-- The Ethernet header in front leaves the ARP packet alone.
header-fields :
    (block : Mem) (dev : NetDev) (dst : Mem)
    → dev.addr_len ≡ 6
    → let frame = put_eth_hdr block 0 dev dst eth_p_arp in
      (bytes frame 0 6 ≡ bytes dst 0 6)
      × (bytes frame 6 6 ≡ bytes dev.hwaddr 0 6)
      × (load16 frame 12 ≡ htons eth_p_arp)
      × (load16 frame 20 ≡ load16 block 20)
      × (bytes frame 22 6 ≡ bytes block 22 6)
      × (load32 frame 28 ≡ load32 block 28)
      × (bytes frame 32 6 ≡ bytes block 32 6)
      × (load32 frame 38 ≡ load32 block 38)
unfolding put_eth_hdr load16 load8 store16 store8 memcpy htons load32
header-fields block dev dst len = rw len (refl, refl, refl, refl, refl, refl, refl, refl)

answer_frame-Answers :
    (m : Mem) (dev : NetDev)
    → dev.addr_len ≡ 6
    → dev.addr < 4294967296
    → Answers m dev (answer_frame m dev)
answer_frame-Answers m dev len small =
    let h = to_host m in
    let filled = arp_reply_mem h dev in
    let (to_, from, type, op, smac, sip, tmac, tip) =
      header-fields filled dev (λ i. filled (32 + i)) len in
    let (mac, ip, _, _) = to_host-fields m in
    let shift : bytes (λ i. filled (32 + i)) 0 6 ≡ bytes filled 32 6 = refl in
    record {
      to_sender = to_ ∙ shift ∙ reply-dst_mac h dev ∙ mac;
      from_device = from;
      ethertype = type;
      opcode = op ∙ reply-opcode h dev;
      source_mac = smac ∙ reply-src_mac h dev;
      source_ip = sip ∙ reply-src_ip h dev small;
      target_mac = tmac ∙ reply-dst_mac h dev ∙ mac;
      target_ip =
          tip ∙ reply-dst_ip h dev ∙ ap htonl ip ∙ htonl-htonl (load32 m 28) (load32-lt m 28);
    }

header_to_host-fields :
    (m : Mem)
    → (load16 (arp_header_to_host m) 14 ≡ htons (load16 m 14))
      × (load16 (arp_header_to_host m) 16 ≡ htons (load16 m 16))
unfolding arp_header_to_host load16 load8 store16 store8 htons
header_to_host-fields m = (omega arith, omega arith)

-- `arp_rx` on an Ethernet and IPv4 packet.
arp_rx-dispatch :
    (net : Net) (sub : Subuff)
    → load16 sub.mem 14 ≡ htons arp_ethernet
    → load16 sub.mem 16 ≡ htons arp_ipv4_type
    → arp_rx net sub
      ≡ arp_dispatch
          (record net { arp_cache = process_arp_entry (to_host sub.mem) net.arp_cache })
          (record sub { mem = to_host sub.mem })
unfolding arp_rx
arp_rx-dispatch net sub hw pro =
    let (a, b) = header_to_host-fields sub.mem in
    let hw' : (load16 (arp_header_to_host sub.mem) 14 == arp_ethernet) ≡ true =
      ap (λ v. v == arp_ethernet) (a ∙ ap htons hw ∙ htons-htons arp_ethernet (omega arith)) in
    let pro' : (load16 (arp_header_to_host sub.mem) 16 == arp_ipv4_type) ≡ true =
      ap (λ v. v == arp_ipv4_type) (b ∙ ap htons pro ∙ htons-htons arp_ipv4_type (omega arith)) in
    rw (arp_rx, hw', pro') refl

-- `arp_dispatch` on a request for the device.
arp_dispatch-reply :
    (net : Net) (sub : Subuff)
    → load16 sub.mem 20 ≡ arp_request_op
    → load32 sub.mem 38 ≡ net.cdev_ext.addr
    → arp_dispatch net sub ≡ arp_reply net sub net.cdev_ext
unfolding arp_dispatch netdev_get
arp_dispatch-reply net sub op ip =
    let op' : (load16 sub.mem 20 == arp_request_op) ≡ true = ground arith in
    let ip' : (net.cdev_ext.addr == load32 sub.mem 38) ≡ true = ground arith in
    rw (arp_dispatch, op', ip') refl

arp_reply-wire :
    (net : Net) (sub : Subuff) (dev : NetDev)
    → sub.at ≡ 0
    → sub.len ≡ 0
    → sub.other ≡ none
    → (arp_reply net sub dev).wire
      ≡ net.wire
        ++ (bytes
              (put_eth_hdr
                (arp_reply_mem sub.mem dev)
                0
                dev
                (λ i. arp_reply_mem sub.mem dev (32 + i))
                eth_p_arp)
              0
              42
            ∷ [])
unfolding arp_reply netdev_transmit tdev_write sub_reserve sub_push
arp_reply-wire net sub dev at len other = rw (at, len, other) refl

-- An ARP request (Ethernet, IPv4) for the address of the external device is answered: arp_rx
-- writes one frame to the wire, of 42 bytes, to the sender, with the opcode of a reply, the
-- device's hardware and network address as the source, and the sender's as the target. The
-- conditions are that the packet is as the receive loop delivers it, that hardware addresses have
-- six bytes and that the device's address is a 32-bit number.
pub arp_rx-Answers :
    (net : Net) (sub : Subuff)
    → sub.at ≡ 0
    → sub.len ≡ 0
    → sub.other ≡ none
    → net.cdev_ext.addr_len ≡ 6
    → net.cdev_ext.addr < 4294967296
    → load16 sub.mem 14 ≡ htons arp_ethernet
    → load16 sub.mem 16 ≡ htons arp_ipv4_type
    → load16 sub.mem 20 ≡ htons arp_request_op
    → load32 sub.mem 38 ≡ htonl net.cdev_ext.addr
    → (frame : Mem) × ((arp_rx net sub).wire ≡ net.wire ++ (bytes frame 0 42 ∷ []))
      × Answers sub.mem net.cdev_ext frame
arp_rx-Answers net sub at len other alen small hw pro op ip =
    let (_, _, dst, opcode) = to_host-fields sub.mem in
    let net' : Net = record net { arp_cache = process_arp_entry (to_host sub.mem) net.arp_cache } in
    let sub' : Subuff = record sub { mem = to_host sub.mem } in
    let op' = opcode ∙ ap htons op ∙ htons-htons arp_request_op (omega arith) in
    let ip' = dst ∙ ap htonl ip ∙ htonl-htonl net.cdev_ext.addr small in
    (
      answer_frame sub.mem net.cdev_ext,
      ap (λ n. n.wire) (arp_rx-dispatch net sub hw pro ∙ arp_dispatch-reply net' sub' op' ip')
          ∙ arp_reply-wire net' sub' net.cdev_ext at len other,
      answer_frame-Answers sub.mem net.cdev_ext alen small,
    )
