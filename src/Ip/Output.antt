-- ===== src/Ip/Output.antt =====
-- src/ip_tx.c, `ip_output` and `dst_neigh_output`: the result, and the target address in the header.
use anp_netskeleton.Base.{
  ℕ, ◌<◌, ◌≡◌, ◌∙◌, ap, negsuc, ◌++◌, [], ◌∷◌, subst, refl, false, inl, inr, Option, Option-cases,
  none, some, List, htonl, htonl-htonl, htonl-lt, ◌%◌, ℤ, arith,
}
use anp_netskeleton.Memory.{Mem, bytes, load32, store16, store32}
use anp_netskeleton.Memory.Laws.{load32-store16_ne, load32-store32_ne, load32-store32}
use anp_netskeleton.Subuff.{Subuff, sub_push, eth_hdr_len, ip_hdr_len}
use anp_netskeleton.Netdev.{
  NetDev, put_eth_hdr, RtEntry, Net, netdev_transmit, tdev_write, eth_p_ip,
}
use anp_netskeleton.Arp.{arp_get_hwaddr}
use anp_netskeleton.Route.{route_lookup}
use anp_netskeleton.Ip.{ip_send_check, next_hop, dst_neigh_output, put_ip_hdr, ip_output, is_eagain}

-- The target address stands at 30, and these stores are elsewhere.
past_16 : (m : Mem) (v : ℕ) → load32 (store16 m 16 v) 30 ≡ load32 m 30
past_16 m v = load32-store16_ne m 16 30 v (inl (omega arith))

past_18 : (m : Mem) (v : ℕ) → load32 (store16 m 18 v) 30 ≡ load32 m 30
past_18 m v = load32-store16_ne m 18 30 v (inl (omega arith))

past_20 : (m : Mem) (v : ℕ) → load32 (store16 m 20 v) 30 ≡ load32 m 30
past_20 m v = load32-store16_ne m 20 30 v (inl (omega arith))

past_24 : (m : Mem) (v : ℕ) → load32 (store16 m 24 v) 30 ≡ load32 m 30
past_24 m v = load32-store16_ne m 24 30 v (inl (omega arith))

past_26 : (m : Mem) (v : ℕ) → load32 (store32 m 26 v) 30 ≡ load32 m 30
past_26 m v = load32-store32_ne m 26 30 v (inl (omega arith))

at_30 : (m : Mem) (v : ℕ) → load32 (store32 m 30 v) 30 ≡ v % 4294967296
at_30 m v = load32-store32 m 30 v

ruleset target = (past_16, past_18, past_20, past_24, past_26, at_30)

swapped_twice :
    (daddr : ℕ) → daddr < 4294967296 → htonl (htonl (daddr % 4294967296) % 4294967296) ≡ daddr
swapped_twice daddr h =
    let small : daddr % 4294967296 ≡ daddr = omega arith in
    let swapped : htonl daddr % 4294967296 ≡ htonl daddr = omega (arith, htonl-lt daddr) in
    rw (small, swapped) (htonl-htonl daddr h)

pub put_ip_hdr-daddr :
    (m : Mem) (len protocol saddr daddr : ℕ)
    → daddr < 4294967296
    → htonl (load32 (ip_send_check (put_ip_hdr m len protocol saddr daddr)) 30) ≡ daddr
unfolding put_ip_hdr ip_send_check
put_ip_hdr-daddr m len protocol saddr daddr h = simp target (swapped_twice daddr h)

-- What the lower layers need to send to `daddr`: the next hop's hardware address, if there is a route.
abbrev pub Ready : Net → ℕ → Type 0
Ready net daddr = elim (route_lookup net.routes daddr) [
  | none ↦ Unit
  | some rt ↦ (hw : Mem) × (arp_get_hwaddr net.arp_cache (next_hop rt daddr) ≡ some hw)
]

-- The tables are those of `net`: only the wire may differ.
pub record SameTables (net net' : Net) : Type 0 where
  pub routes : net'.routes ≡ net.routes
  pub arp_cache : net'.arp_cache ≡ net.arp_cache
  pub tap_write : net'.tap_write ≡ net.tap_write

-- Sent, or refused for good.
abbrev pub Settled : Net → Net × ℤ × Subuff → Type 0
Settled net r = (is_eagain r.1 ≡ false) × SameTables net r.0

-- The frame that `netdev_transmit` makes of a buffer.
abbrev pub frame_to : Subuff → NetDev → Mem → ℕ → List ℕ
frame_to sub dev hw ethertype =
    let pushed : Subuff = sub_push sub eth_hdr_len in
    let block : Mem = elim sub.other [ none ↦ pushed.mem | some stale ↦ stale ] in
    bytes (put_eth_hdr block pushed.at dev hw ethertype) pushed.at pushed.len

-- The packet with its IP header.
abbrev pub packet_to : Subuff → ℕ → RtEntry → Subuff
packet_to sub daddr rt =
    let pushed : Subuff = sub_push sub ip_hdr_len in
    record pushed {
      mem = ip_send_check (put_ip_hdr pushed.mem pushed.len pushed.protocol rt.dev.addr daddr);
    }

-- There is no route, and nothing happens; or the frame to the next hop's hardware address is
-- written, once, and the result is that of the write.
pub data WentOut (net : Net) (sub : Subuff) (daddr : ℕ) (r : Net × ℤ × Subuff) : Type 0 where
  unreachable :
      route_lookup net.routes daddr ≡ none → r.0 ≡ net → r.1 ≡ negsuc 0 → WentOut net sub daddr r
  written :
      (rt : RtEntry) (hw : Mem)
      → route_lookup net.routes daddr ≡ some rt
      → arp_get_hwaddr net.arp_cache (next_hop rt daddr) ≡ some hw
      → r.0 ≡ record net {
        wire = net.wire ++ (frame_to (packet_to sub daddr rt) rt.dev hw eth_p_ip ∷ []);
      }
      → r.1 ≡ net.tap_write (frame_to (packet_to sub daddr rt) rt.dev hw eth_p_ip)
      → WentOut net sub daddr r

netdev_transmit-written :
    (net : Net) (sub : Subuff) (dev : NetDev) (hw : Mem) (ethertype : ℕ)
    → let r = netdev_transmit net sub dev hw ethertype in
      let frame = frame_to sub dev hw ethertype in
      (r.0 ≡ record net { wire = net.wire ++ (frame ∷ []) }) × (r.1 ≡ net.tap_write frame)
unfolding netdev_transmit tdev_write
netdev_transmit-written net sub dev hw ethertype = elim (Option-cases sub.other) [
  | inl own ↦ rw own (refl, refl)
  | inr (stale, e) ↦ rw e (refl, refl)
]

netdev_transmit-Settled :
    (net : Net) (sub : Subuff) (rt : RtEntry) (hw : Mem) (ethertype : ℕ)
    → ((frame : List ℕ) → is_eagain (net.tap_write frame) ≡ false)
    → Settled net (netdev_transmit net sub rt.dev hw ethertype)
unfolding netdev_transmit tdev_write
netdev_transmit-Settled net sub rt hw ethertype quiet = elim (Option-cases sub.other) [
  | inl own ↦ rw own (quiet _, record { routes = refl; arp_cache = refl; tap_write = refl })
  | inr (stale, e) ↦ rw e (quiet _, record { routes = refl; arp_cache = refl; tap_write = refl })
]

pub dst_neigh_output-found :
    (net : Net) (sub : Subuff) (rt : RtEntry) (hw : Mem) (daddr : ℕ)
    → htonl (load32 sub.mem 30) ≡ daddr
    → arp_get_hwaddr net.arp_cache (next_hop rt daddr) ≡ some hw
    → dst_neigh_output net sub rt ≡ netdev_transmit net sub rt.dev hw eth_p_ip
unfolding dst_neigh_output
dst_neigh_output-found net sub rt hw daddr target_ found =
    rw (dst_neigh_output, target_, found) refl

dst_neigh_output-Settled :
    (net : Net) (sub : Subuff) (rt : RtEntry) (hw : Mem) (daddr : ℕ)
    → htonl (load32 sub.mem 30) ≡ daddr
    → arp_get_hwaddr net.arp_cache (next_hop rt daddr) ≡ some hw
    → ((frame : List ℕ) → is_eagain (net.tap_write frame) ≡ false)
    → Settled net (dst_neigh_output net sub rt)
dst_neigh_output-Settled net sub rt hw daddr target_ found quiet =
    simp (dst_neigh_output-found net sub rt hw daddr target_ found)
      (netdev_transmit-Settled net sub rt hw eth_p_ip quiet)

ip_output-Ready_at :
    (net : Net) (sub : Subuff) (daddr : ℕ) (route : Option RtEntry)
    → route_lookup net.routes daddr ≡ route
    → daddr < 4294967296
    → Ready net daddr
    → ((frame : List ℕ) → is_eagain (net.tap_write frame) ≡ false)
    → Settled net (ip_output net daddr sub) × WentOut net sub daddr (ip_output net daddr sub)
unfolding ip_output is_eagain
ip_output-Ready_at net sub daddr none e small ready quiet =
    rw (ip_output, e)
      (
        (refl, record { routes = refl; arp_cache = refl; tap_write = refl }),
        unreachable e refl refl,
      )
ip_output-Ready_at net sub daddr (some rt) e small ready quiet =
    let (hw, found) : (hw : Mem) × (arp_get_hwaddr net.arp_cache (next_hop rt daddr) ≡ some hw) =
      subst
        (λ r. elim r [
          | none ↦ Unit
          | some rt' ↦ (h : Mem) × (arp_get_hwaddr net.arp_cache (next_hop rt' daddr) ≡ some h)
        ])
        e ready in
    let target_ = put_ip_hdr-daddr _ _ _ _ daddr small in
    let packet : Subuff = packet_to sub daddr rt in
    let (net', rc) = netdev_transmit-written net packet rt.dev hw eth_p_ip in
    let out = dst_neigh_output-found net packet rt hw daddr target_ found in
    rw (ip_output, e)
      (
        dst_neigh_output-Settled net packet rt hw daddr target_ found quiet,
        written rt hw e found (ap (λ r. r.0) out ∙ net') (ap (λ r. r.1) out ∙ rc),
      )

-- A packet to an address that is ready, on a device whose write never fails with EAGAIN, is not
-- asked to be tried again, and the tables are as before. If there is a route, the device is as
-- before but for one frame more on the wire, that of the packet for the next hop's hardware
-- address, and the result is that of the write; if there is none, nothing has changed, and the
-- result is -1.
pub ip_output-Settled :
    (net : Net) (sub : Subuff) (daddr : ℕ)
    → daddr < 4294967296
    → Ready net daddr
    → ((frame : List ℕ) → is_eagain (net.tap_write frame) ≡ false)
    → Settled net (ip_output net daddr sub) × WentOut net sub daddr (ip_output net daddr sub)
ip_output-Settled net sub daddr =
    ip_output-Ready_at net sub daddr (route_lookup net.routes daddr) refl
