-- ===== src/Socket/Transfer.antt =====
-- src/tcp.c, `tcp_tx`, on one host and src/anpwrapper.c, `recv`, on another.
use native.Mathlib.Nat.{zero-add}
use anp_netskeleton.Base.{
  ℕ, ◌+◌, ◌-◌, ◌<◌, ◌≤◌, ◌≡◌, ◌≢◌, ◌∙◌, sym, ap, refl, true, false, some, List, [], ◌++◌, map, All,
  length, u8, u32, arith, Bool, not, ◌==◌, if◌then◌else◌,
}
use anp_netskeleton.Memory.{Mem, bytes}
use anp_netskeleton.Netdev.{RtEntry, Net}
use anp_netskeleton.World.{World, AnpSocket, get_anp_socket}
use anp_netskeleton.Tcp.{
  Tcb, Message, Conn, established, has_flag, tcp_ack, tcp_fin, tcp_syn, tcp_rcv_max, tcp_psh,
}
use anp_netskeleton.Tcp.Transmit.{min, returned, tcp_tx, valid_retries}
use anp_netskeleton.Tcp.Transmit.Made.{made, locked_tcb, tcp_tx-Made}
use anp_netskeleton.Tcp.Receive.GoBackN.{Offers, Delivery, Cuts, go_back_n}
use anp_netskeleton.Tcp.Receive.Signal.{Pushed, signals, signals-psh}
use anp_netskeleton.Input.Pushed.{shipments-Pushed, parcels-Flagged}
use anp_netskeleton.Input.Transfer.{Routed}
use anp_netskeleton.Input.Roundtrip.{ClientTcb}
use anp_netskeleton.Input.Stream.{
  deliveries_complete, Shipment, Ends, IsShipment, Knows, frame_of, delivery_of,
}
use anp_netskeleton.Input.Parcels.{
  cut_of, cut_of-length, cut_of-some, cut_of-Cuts, parcels, parcels-IsShipment, made-parcels,
}
use anp_netskeleton.Socket.{Reply, hangs, returns, recv, is_anp_sockfd}
use anp_netskeleton.Socket.Stream.{receiving, recv_of_stream}

-- The sender: data that fits in the window, from the client device.
pub record Sends (c : Conn) (size flags retries : ℕ) : Type 0 where
  pub valid : valid_retries retries ≡ true
  pub syn : has_flag flags tcp_syn ≡ false
  pub fin : has_flag flags tcp_fin ≡ false
  pub ack_sent : has_flag (u8 flags) tcp_ack ≡ true
  pub fin_sent : has_flag (u8 flags) tcp_fin ≡ false
  pub some_ : 0 < size
  pub room : size < c.room
  pub order : c.tcb.snd_una ≤ c.tcb.snd_nxt
  pub unwrapped : c.tcb.snd_nxt + size < 4294967296
  pub inside : (c.tcb.snd_nxt - c.tcb.snd_una) + size < c.tcb.snd_wnd
  pub client : ClientTcb c.tcb

-- The ends of the connection `t`.
abbrev pub ends_of : Tcb → Ends
ends_of t = record { from_port = t.local_port; to_port = t.remote_port; to_ip = t.remote_ip }

-- The receiver: an open connection with an empty buffer, that expects the sender's next number.
pub record Receives (w : World) (sockfd : ℕ) (sock : AnpSocket) (t : Tcb) : Type 0 where
  pub ours : is_anp_sockfd w sockfd ≡ true
  pub found : get_anp_socket w.sockets sockfd ≡ some sock
  pub connected : sock.conn_info ≢ 0
  pub knows : Knows (ends_of t) w sock.conn_info
  pub free : (w.tcbs sock.conn_info).tcb_lock ≡ false
  pub state : (w.tcbs sock.conn_info).state ≡ established
  pub next : (w.tcbs sock.conn_info).rcv_nxt ≡ t.snd_nxt
  pub empty : (w.tcbs sock.conn_info).rcv_buff_len ≡ 0

-- What the sender has queued, and what `recv` returns on the other host.
pub record Transferred (c : Conn) (source : Mem) (size flags retries len : ℕ) (net : Net)
    (rt : RtEntry) (hw : Mem) (network : List Shipment → List Shipment) (w : World) (sockfd : ℕ)
    : Type 0 where
  pub sender : Conn
  pub msgs : List Message
  pub sizes : List ℕ
  pub sent : tcp_tx [] c source size flags retries ≡ returned size sender
  pub queued : sender.messages ≡ c.messages ++ msgs
  pub packets :
      map (λ m. m.sub) msgs
      ≡ map (λ x. x.sub) (parcels net rt hw source flags 0 (locked_tcb c) 0 sizes)
  pub receiver : World
  pub got :
      recv w sockfd len (
        receiving (
          map
            (λ x. some (frame_of x))
            (network (parcels net rt hw source flags 0 (locked_tcb c) 0 sizes))))
      ≡ (if has_flag (u8 flags) tcp_psh
          then returns (min len size) (bytes source 0 (min len size)) receiver
          else hangs receiver)

-- From host to host: tcp_tx on data that fits in the window returns its size with no wait, and
-- queues messages with packets (of segments of some sizes). They are put on the wire by ip_output
-- and netdev_transmit and handed on by a network that adds no frame of its own and brings every
-- segment in order, with any of them too early or once more between, while a call of recv on the
-- other host waits, and before its thread may run again. If the flags of the segments have PSH,
-- the call then returns the smaller of the length that is asked for and the size of the data, with
-- so many of its first bytes; if they have not, nothing signals its condition variable, and it
-- waits for ever. The sender is the client device with a route and a hardware address of the next
-- hop. Its data is not empty, fits in its window behind the bytes in flight with a byte to spare,
-- and in memory, and is less than 65535 bytes; the flags have ACK and neither SYN nor FIN, the
-- retry value is one of the three, no sequence number wraps around, and ports and numbers are in
-- the range of their fields. The receiver's descriptor is one of the stack, its connection is in
-- TCP_ESTABLISHED with an empty buffer and tcb_lock free, is what get_tcb finds for the frames,
-- and has the sender's snd_nxt as rcv_nxt; the length is below 2 ^ 32.
pub tcp_tx-recv :
    (c : Conn) (source : Mem) (size flags retries len : ℕ) (net : Net) (rt : RtEntry) (hw : Mem)
    (network : List Shipment → List Shipment) (w : World) (sockfd : ℕ) (sock : AnpSocket)
    → Sends c size flags retries
    → size < tcp_rcv_max
    → Routed net c.tcb.remote_ip rt hw
    → rt.dev.addr ≡ 0x0a000004
    → ((P : Shipment → Type 0) (xs : List Shipment) → All P xs → All P (network xs))
    → ((ns : List ℕ)
        → Offers
            (length ns)
            0
            (map delivery_of (network (parcels net rt hw source flags 0 (locked_tcb c) 0 ns))))
    → Receives w sockfd sock c.tcb
    → len < 4294967296
    → Transferred c source size flags retries len net rt hw network w sockfd
tcp_tx-recv c source size flags retries len net rt hw network w sockfd sock s fits routed device
      only all_there r small =
    let (c', sent, m) =
      tcp_tx-Made c source size flags retries s.valid s.syn s.fin s.some_ s.room s.order s.unwrapped
        s.inside in
    let ns : List ℕ = m.sizes in
    let t : Tcb = locked_tcb c in
    let xs : List Shipment = parcels net rt hw source flags 0 t 0 ns in
    let base : ℕ = c.tcb.snd_nxt in
    let client : ClientTcb t = record {
      local_ip = s.client.local_ip;
      remote_ip = s.client.remote_ip;
      local_port = s.client.local_port;
      remote_port = s.client.remote_port;
      snd_nxt = s.client.snd_nxt;
      rcv_nxt = s.client.rcv_nxt;
    } in
    let start : c.tcb.snd_nxt ≡ u32 (base + 0) = omega (arith, s.client.snd_nxt) in
    let start' : c.tcb.snd_nxt ≡ u32 base = omega (arith, s.client.snd_nxt) in
    let good : All (IsShipment (ends_of c.tcb) source base (cut_of ns) (length ns)) xs =
      parcels-IsShipment net rt hw source flags base (cut_of ns) (length ns) device s.ack_sent
        s.fin_sent ns 0 0 t (ends_of c.tcb) refl client routed start m.bounds
        (λ i. ap (cut_of ns) (zero-add i) ∙ sym (zero-add (cut_of ns i))) (zero-add (length ns)) in
    let sent_on : List Shipment = network xs in
    let genuine : All (IsShipment (ends_of c.tcb) source base (cut_of ns) (length ns)) sent_on =
      only _ xs good in
    let cuts : Cuts (cut_of ns) (length ns) =
      cut_of-Cuts ns m.bounds (omega (arith, m.total, fits)) in
    let whole : cut_of ns (length ns) ≡ size = cut_of-length ns ∙ m.total in
    let ds : List Delivery = map delivery_of sent_on in
    let arrived : go_back_n 0 ds ≡ length ns =
      deliveries_complete (ends_of c.tcb) source base (cut_of ns) (length ns) sent_on genuine
        (all_there ns) in
    let total : cut_of ns (go_back_n 0 ds) ≡ size = ap (cut_of ns) arrived ∙ whole in
    let pushed : All (Pushed (has_flag (u8 flags) tcp_psh) (length ns)) ds =
      shipments-Pushed (ends_of c.tcb) source base (cut_of ns) (length ns) flags sent_on genuine
        (only _ xs (parcels-Flagged net rt hw source flags ns 0 0 t)) in
    let rung =
      signals-psh (cut_of ns) (length ns) ds (has_flag (u8 flags) tcp_psh) cuts
        (omega (arith, whole, fits)) pushed (cut_of-some ns (omega (arith, whole, s.some_)))
        arrived in
    let (w', got, _) =
      recv_of_stream (ends_of c.tcb) source base (cut_of ns) (length ns) sent_on w sockfd len sock
        cuts genuine r.ours r.found r.connected r.knows r.free r.state (r.next ∙ start') r.empty
        small in
    record {
      sender = c';
      msgs = made c.ptr t source 0 flags retries ns;
      sizes = ns;
      sent = sent;
      queued = m.queue;
      packets = made-parcels net rt hw source c.ptr flags retries 0 0 t ns;
      receiver = w';
      got =
          got
          ∙ outcome (signals (cut_of ns) 0 ds == 0) (has_flag (u8 flags) tcp_psh) (hangs w') rung
              (ap (λ k. returns (min len k) (bytes source 0 (min len k)) w') total);
    }
  where
    outcome :
        (silent psh : Bool) {a b : Reply} (d : Reply)
        → silent ≡ not psh
        → a ≡ b
        → (if silent then d else a) ≡ (if psh then b else d)
    outcome true false d e same = refl
    outcome false true d e same = same
    outcome true true d e same = cc
    outcome false false d e same = cc
