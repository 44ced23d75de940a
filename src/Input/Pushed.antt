-- ===== src/Input/Pushed.antt =====
-- src/tcp.c, `create_tcp_packet` and `tcp_rx`: the PSH flag of the frames of a stream.
use anp_netskeleton.Base.{ℕ, suc, ◌+◌, ◌≡◌, ◌∙◌, ap, refl, List, [], ◌∷◌, map, All, u8}
use anp_netskeleton.Memory.{Mem}
use anp_netskeleton.Netdev.{RtEntry, Net}
use anp_netskeleton.Tcp.{Tcb, has_flag, tcp_psh}
use anp_netskeleton.Tcp.Receive.Signal.{Pushed}
use anp_netskeleton.Tcp.Transmit.Made.{further}
use anp_netskeleton.Input.Roundtrip.{Carries, arriving-Carries}
use anp_netskeleton.Input.Stream.{Shipment, Ends, IsShipment, segment_in, delivery_of}
use anp_netskeleton.Input.Parcels.{parcels}

Shipment-flags :
    (ends : Ends) (stream : Mem) (base : ℕ) (cut : ℕ → ℕ) (pieces : ℕ) (x : Shipment)
    → IsShipment ends stream base cut pieces x
    → (segment_in x).flags ≡ u8 x.flags
Shipment-flags ends stream base cut pieces x h =
    let says : Carries x.tcb stream x.at x.size x.flags (segment_in x) =
      arriving-Carries x.tcb stream x.at x.size x.flags x.net x.rt x.hw x.sub h.client h.routed
        h.holds in
    says.flags_

-- The frames are made with the flags `flags`.
abbrev pub Flagged : ℕ → List Shipment → Type 0
Flagged flags xs = All (λ x. x.flags ≡ flags) xs

pub shipments-Pushed :
    (ends : Ends) (stream : Mem) (base : ℕ) (cut : ℕ → ℕ) (pieces flags : ℕ) (xs : List Shipment)
    → All (IsShipment ends stream base cut pieces) xs
    → Flagged flags xs
    → All (Pushed (has_flag (u8 flags) tcp_psh) pieces) (map delivery_of xs)
shipments-Pushed ends stream base cut pieces flags [] good same = tt
shipments-Pushed ends stream base cut pieces flags (x ∷ xs) (h, good) (e, same) = (
  (
    h.one_of,
    ap (λ f. has_flag f tcp_psh)
        (Shipment-flags ends stream base cut pieces x h ∙ ap (λ f. u8 f) e),
  ),
  shipments-Pushed ends stream base cut pieces flags xs good same,
)

pub parcels-Flagged :
    (net : Net) (rt : RtEntry) (hw source : Mem) (flags : ℕ) (ns : List ℕ) (k at : ℕ) (t : Tcb)
    → Flagged flags (parcels net rt hw source flags k t at ns)
parcels-Flagged net rt hw source flags [] k at t = tt
parcels-Flagged net rt hw source flags (n ∷ ns) k at t =
    (refl, parcels-Flagged net rt hw source flags ns (suc k) (at + n) (further t n))
