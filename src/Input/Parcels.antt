-- ===== src/Input/Parcels.antt =====
-- src/tcp.c, `tcp_tx`, and its messages as the frames of a stream.
use native.Mathlib.Nat.{zero-add, add-zero}
use anp_netskeleton.Base.{
  ℕ, zero, suc, ◌+◌, ◌<◌, ◌≤◌, ◌≡◌, ◌∙◌, sym, ap, subst, refl, true, false, List, [], ◌∷◌, map, All,
  length, u8, u32, arith,
}
use anp_netskeleton.Memory.{Mem}
use anp_netskeleton.Memory.Agree.{Agree-refl}
use anp_netskeleton.Netdev.{RtEntry, Net}
use anp_netskeleton.Tcp.{Tcb, has_flag, tcp_ack, tcp_fin, tcp_max_seg_size, tcp_rcv_max}
use anp_netskeleton.Tcp.Packet.{create_tcp_packet, new_message}
use anp_netskeleton.Tcp.Transmit.Made.{made, further, sum}
use anp_netskeleton.Tcp.Receive.GoBackN.{Cuts, Offers, now, enough}
use anp_netskeleton.Input.Transfer.{Routed, TcpPacket}
use anp_netskeleton.Input.Roundtrip.{ClientTcb}
use anp_netskeleton.Input.Stream.{Shipment, Ends, IsShipment, delivery_of}

-- Where the segments of the sizes `ns` begin.
abbrev pub cut_of : List ℕ → ℕ → ℕ
cut_of [] i = 0
cut_of (n ∷ ns) zero = 0
cut_of (n ∷ ns) (suc i) = n + cut_of ns i

cut_of-zero : (ns : List ℕ) → cut_of ns 0 ≡ 0
cut_of-zero [] = refl
cut_of-zero (n ∷ ns) = refl

cut_of-growing :
    (ns : List ℕ) (i : ℕ)
    → All (λ n. (0 < n) × (n ≤ tcp_max_seg_size)) ns
    → i < length ns
    → cut_of ns i < cut_of ns (suc i)
cut_of-growing [] i bounds less = absurd (omega (arith, less))
cut_of-growing (n ∷ ns) zero ((some_, _), bounds) less = omega (arith, some_)
cut_of-growing (n ∷ ns) (suc i) (_, bounds) less =
    omega (arith, cut_of-growing ns i bounds (omega (arith, less)))

pub cut_of-length : (ns : List ℕ) → cut_of ns (length ns) ≡ sum ns
cut_of-length [] = refl
cut_of-length (n ∷ ns) = ap (λ k. n + k) (cut_of-length ns)

pub cut_of-some : (ns : List ℕ) → 0 < cut_of ns (length ns) → 0 < length ns
cut_of-some [] more = absurd (omega (arith, more))
cut_of-some (n ∷ ns) more = omega arith

pub cut_of-Cuts :
    (ns : List ℕ)
    → All (λ n. (0 < n) × (n ≤ tcp_max_seg_size)) ns
    → sum ns ≤ tcp_rcv_max
    → Cuts (cut_of ns) (length ns)
cut_of-Cuts ns bounds room = record {
  from_start = cut_of-zero ns;
  growing = λ i less. cut_of-growing ns i bounds less;
  has_room = omega (arith, cut_of-length ns, room);
}

create_tcp_packet-TcpPacket :
    (t : Tcb) (source : Mem) (n at flags : ℕ)
    → n ≤ 1460
    → TcpPacket (create_tcp_packet t source at n flags).0 n
unfolding create_tcp_packet
create_tcp_packet-TcpPacket t source n at flags short = record {
  at = omega (arith, short);
  own_block = refl;
  len = omega (arith, short);
  protocol = refl;
  short = short;
}

module _ (net : Net) (rt : RtEntry) (hw source : Mem) (flags : ℕ) where
  -- The packets of the segments, on their way for the first time.
  abbrev pub parcels : ℕ → Tcb → ℕ → List ℕ → List Shipment
  parcels k t at [] = []
  parcels k t at (n ∷ ns) =
      record {
        number = k;
        tcb = t;
        at = at;
        size = n;
        flags = flags;
        net = net;
        rt = rt;
        hw = hw;
        sub = (create_tcp_packet t source at n flags).0;
      }
      ∷ parcels (suc k) (further t n) (at + n) ns

  -- On a network that loses nothing, in order.
  parcels-Offers_from :
      (ns : List ℕ) (k at : ℕ) (t : Tcb)
      → Offers (k + length ns) k (map delivery_of (parcels k t at ns))
  parcels-Offers_from [] k at t = subst (λ n. Offers n k []) (sym (add-zero k)) enough
  parcels-Offers_from (n ∷ ns) k at t =
      let rest : List Shipment = parcels (suc k) (further t n) (at + n) ns in
      let later_ : Offers (suc k + length ns) (suc k) (map delivery_of rest) =
        parcels-Offers_from ns (suc k) (at + n) (further t n) in
      let same : suc k + length ns ≡ k + suc (length ns) = omega arith in
      now (subst (λ m. Offers m (suc k) (map delivery_of rest)) same later_)

  pub parcels-Offers :
      (t : Tcb) (ns : List ℕ) → Offers (length ns) 0 (map delivery_of (parcels 0 t 0 ns))
  parcels-Offers t ns =
      subst (λ m. Offers m 0 (map delivery_of (parcels 0 t 0 ns))) (zero-add (length ns))
        (parcels-Offers_from ns 0 0 t)

  module _ (base : ℕ) (cut : ℕ → ℕ) (pieces : ℕ) (device : rt.dev.addr ≡ 0x0a000004)
      (ack : has_flag (u8 flags) tcp_ack ≡ true)
      (no_fin : has_flag (u8 flags) tcp_fin ≡ false) where
    pub parcels-IsShipment :
        (ns : List ℕ) (k at : ℕ) (t : Tcb) (ends : Ends)
        → ends ≡ record { from_port = t.local_port; to_port = t.remote_port; to_ip = t.remote_ip }
        → ClientTcb t
        → Routed net t.remote_ip rt hw
        → t.snd_nxt ≡ u32 (base + at)
        → All (λ n. (0 < n) × (n ≤ tcp_max_seg_size)) ns
        → ((i : ℕ) → cut (k + i) ≡ at + cut_of ns i)
        → k + length ns ≡ pieces
        → All (IsShipment ends source base cut pieces) (parcels k t at ns)
    parcels-IsShipment [] k at t ends same client routed nxt bounds rel last = tt
    parcels-IsShipment (n ∷ ns) k at t ends same client routed nxt ((some_, short), bounds) rel
          last =
        let here : cut k ≡ at = ap cut (sym (add-zero k)) ∙ rel 0 ∙ add-zero at in
        let next : cut (suc k) ≡ at + n =
          ap cut (shift k) ∙ rel 1 ∙ ap (λ m. at + (n + m)) (cut_of-zero ns) ∙ omega arith in
        (
          record {
            client = client;
            routed = routed;
            device = device;
            holds = record {
              packet = create_tcp_packet-TcpPacket t source n at flags short;
              block = Agree-refl;
            };
            from_port = sym (ap (λ e. e.from_port) same);
            to_port = sym (ap (λ e. e.to_port) same);
            to_ip = sym (ap (λ e. e.to_ip) same);
            one_of = omega (arith, last);
            seq_num = nxt ∙ ap (λ m. u32 (base + m)) (sym here);
            start = sym here;
            up_to = omega (arith, here, next);
            ack = ack;
            no_fin = no_fin;
          },
          parcels-IsShipment ns (suc k) (at + n) (further t n) ends same
              (record {
                local_ip = client.local_ip;
                remote_ip = client.remote_ip;
                local_port = client.local_port;
                remote_port = client.remote_port;
                snd_nxt = omega arith;
                rcv_nxt = client.rcv_nxt;
              })
              routed (omega (arith, nxt)) bounds
              (λ i. ap cut (shift_by k i) ∙ rel (suc i) ∙ omega arith) (omega (arith, last)),
        )
      where
        shift : (k : ℕ) → suc k ≡ k + 1
        shift k = omega arith

        shift_by : (k i : ℕ) → suc k + i ≡ k + suc i
        shift_by k i = omega arith

-- Each packet is that of a message of `tcp_tx`.
pub made-parcels :
    (net : Net) (rt : RtEntry) (hw source : Mem) (ptr flags retries k at : ℕ) (t : Tcb)
    (ns : List ℕ)
    → map (λ m. m.sub) (made ptr t source at flags retries ns)
      ≡ map (λ x. x.sub) (parcels net rt hw source flags k t at ns)
unfolding new_message create_tcp_packet
made-parcels net rt hw source ptr flags retries k at t [] = refl
made-parcels net rt hw source ptr flags retries k at t (n ∷ ns) =
    ap (λ l. (create_tcp_packet t source at n flags).0 ∷ l)
      (made-parcels net rt hw source ptr flags retries (suc k) (at + n) (further t n) ns)
