-- ===== src/Route.antt =====
-- src/route.c: the route table and its lookup.
pub mod Lookup
use anp_netskeleton.Base.{
  ℕ, Bool, true, false, Option, none, some, List, [], ◌∷◌, ◌++◌, ◌==◌, if◌then◌else◌, bit_and,
}
use anp_netskeleton.Netdev.{NetDev, RtEntry, Net}

abbrev pub rt_loopback : ℕ
rt_loopback = 0x01

abbrev pub rt_gateway : ℕ
rt_gateway = 0x02

abbrev pub rt_host : ℕ
rt_host = 0x04

-- 10.0.0.5, what `ip_str_to_h32 (ANP_IP_TAP_DEV)` is.
abbrev pub tap_dev_addr : ℕ
tap_dev_addr = 0x0a000005

unfoldable pub route_alloc : ℕ → ℕ → ℕ → ℕ → NetDev → RtEntry
route_alloc dst gateway netmask flags dev = record {
  dst = dst;
  gateway = gateway;
  netmask = netmask;
  flags = flags;
  dev = dev;
}

unfoldable pub route_add : List RtEntry → ℕ → ℕ → ℕ → ℕ → NetDev → List RtEntry
unfolding route_alloc
route_add routes dst gateway netmask flags dev =
    routes ++ (route_alloc dst gateway netmask flags dev ∷ [])

unfoldable pub route_init : NetDev → NetDev → List RtEntry
unfolding route_add
route_init cdev_lo cdev_ext =
    let loopback : List RtEntry = route_add [] cdev_lo.addr 0 0xff000000 rt_loopback cdev_lo in
    let local : List RtEntry = route_add loopback cdev_ext.addr 0 0xffffff00 rt_host cdev_ext in
    route_add local 0 tap_dev_addr 0 rt_gateway cdev_ext

unfoldable pub route_matches : ℕ → RtEntry → Bool
route_matches daddr rt = bit_and daddr rt.netmask == bit_and rt.dst rt.netmask

-- `rt` is the entry that the loop has read last.
unfoldable pub route_scan : ℕ → Option RtEntry → List RtEntry → Option RtEntry
unfolding route_matches
route_scan daddr rt [] = rt
route_scan daddr rt (entry ∷ rest) =
    if route_matches daddr entry then some entry else route_scan daddr (some entry) rest

unfoldable pub route_lookup : List RtEntry → ℕ → Option RtEntry
unfolding route_scan
route_lookup routes daddr = route_scan daddr none routes

unfoldable pub free_routes : List RtEntry → List RtEntry
free_routes routes = []
