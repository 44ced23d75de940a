-- ===== src/Examples/Shipment.antt =====
-- The receiving loop, applied to the frames of a stream of five bytes in two segments.
use anp_netskeleton.Memory.Agree.{Agree-refl}
use anp_netskeleton.Examples.Delivery.{cut, two-Cuts, route, client-Routed, server_world}
use anp_netskeleton.Base.{
  inl, ◌==◌, if◌then◌else◌, ℕ, suc, ◌<◌, ◌≤◌, ◌+◌, ◌≡◌, refl, some, List, [], ◌∷◌, ◌++◌, map, htonl,
  arith,
}
use anp_netskeleton.Memory.{bytes}
use anp_netskeleton.Tcp.{has_flag}
use anp_netskeleton.Tcp.Buffer.Queue.{contents}
use anp_netskeleton.Tcp.Receive.GoBackN.{go_back_n}
use anp_netskeleton.Memory.{zeroed, store32}
use anp_netskeleton.World.{World, get_tcb, get_tcb_in}
use anp_netskeleton.Tcp.{established, Tcb}
use anp_netskeleton.Tcp.Packet.{create_tcp_packet}
use anp_netskeleton.World.{AnpSocket, get_anp_socket}
use anp_netskeleton.Socket.{hangs, close, recv, returns, is_anp_sockfd}
use anp_netskeleton.Tcp.Transmit.{min}
use anp_netskeleton.Tcp.Receive.{Segment}
use anp_netskeleton.Tcp.Receive.Signal.{signals}
use anp_netskeleton.Socket.Stuck.{handled, fin-stuck}
use anp_netskeleton.Socket.Stream.{receiving, recv_of_stream}
use anp_netskeleton.Input.Stream.{Shipment, Ends, IsShipment, Knows, frame_of, delivery_of}
use anp_netskeleton.Tcp.{Conn, retries_infinite}
use anp_netskeleton.Tcp.Transmit.Made.{locked_tcb}
use anp_netskeleton.Input.Parcels.{parcels-Offers}
use anp_netskeleton.Socket.Transfer.{Sends, Receives, Transferred, tcp_tx-recv}
use anp_netskeleton.Examples.{client_tcb, client_net, open_conn, fin_segment}

-- The flags of the peer's segments: ACK and PSH.
abbrev psh_ack : ℕ
psh_ack = 0x18

-- The five bytes 0, 1, 2, 3, 4 from the client to that host, in the two pieces of `cut`.
abbrev tcb_at : ℕ → Tcb
tcb_at seq = record client_tcb { state = established; snd_nxt = seq }

abbrev shipment : ℕ → ℕ → ℕ → Shipment
shipment number at size = record {
  number = number;
  tcb = tcb_at (1001 + at);
  at = at;
  size = size;
  flags = psh_ack;
  net = client_net;
  rt = route;
  hw = store32 zeroed 6 0x0a000005;
  sub = (create_tcp_packet (tcb_at (1001 + at)) (λ i. i) at size psh_ack).0;
}

abbrev ends : Ends
ends = record { from_port = 49155; to_port = 43211; to_ip = 0x0a000005 }

shipment-IsShipment :
    (number at size : ℕ)
    → number < 2
    → at < 3000
    → size ≤ 1460
    → at ≡ cut number
    → cut number + size ≡ cut (suc number)
    → IsShipment ends (λ i. i) 1001 cut 2 (shipment number at size)
unfolding create_tcp_packet has_flag
shipment-IsShipment number at size less low short start end_ = record {
  client = record {
    local_ip = refl;
    remote_ip = omega arith;
    local_port = omega arith;
    remote_port = omega arith;
    snd_nxt = omega (arith, low);
    rcv_nxt = omega arith;
  };
  routed = client-Routed;
  device = refl;
  holds = record {
    packet = record {
      at = omega (arith, short);
      own_block = refl;
      len = omega (arith, short);
      protocol = refl;
      short = short;
    };
    block = Agree-refl;
  };
  from_port = refl;
  to_port = refl;
  to_ip = refl;
  one_of = less;
  seq_num = omega (arith, start, low);
  start = start;
  up_to = end_;
  ack = refl;
  no_fin = refl;
}

abbrev receiving_world : World
receiving_world = record server_world {
  tcbs = λ p. record (server_world.tcbs p) { rcv_nxt = 1001 };
}

receiving-Knows : Knows ends receiving_world 4096
unfolding get_tcb get_tcb_in htonl
receiving-Knows = refl

first-IsShipment : IsShipment ends (λ i. i) 1001 cut 2 (shipment 0 0 3)
first-IsShipment = shipment-IsShipment 0 0 3 (omega arith) (omega arith) (omega arith) refl refl

second-IsShipment : IsShipment ends (λ i. i) 1001 cut 2 (shipment 1 3 2)
second-IsShipment = shipment-IsShipment 1 3 2 (omega arith) (omega arith) (omega arith) refl refl

-- The second piece comes first, and is sent again behind the first one, which comes twice.
abbrev four : List Shipment
four = shipment 1 3 2 ∷ (shipment 0 0 3 ∷ (shipment 0 0 3 ∷ (shipment 1 3 2 ∷ [])))

-- A socket of that host reads up to 4 bytes, while the four frames arrive.
abbrev server_socket : AnpSocket
server_socket = record { fd = 1000000; sock_type = 1; protocol = 6; domain = 2; conn_info = 4096 }

recv_of_stream_example :
    let ds = map delivery_of four in
    let total = cut (go_back_n 0 ds) in
    let silent = signals cut 0 ds == 0 in
    (w' : World) × (recv receiving_world 1000000 4 (receiving (map (λ x. some (frame_of x)) four))
      ≡ (if silent then hangs w' else returns (min 4 total) (bytes (λ i. i) 0 (min 4 total)) w'))
    × ((if silent then [] else bytes (λ i. i) 0 (min 4 total)) ++ contents (w'.tcbs 4096)
        ≡ bytes (λ i. i) 0 total)
unfolding is_anp_sockfd get_anp_socket
recv_of_stream_example =
    recv_of_stream ends (λ i. i) 1001 cut 2 four receiving_world 1000000 4 server_socket two-Cuts
      (second-IsShipment, (first-IsShipment, (first-IsShipment, (second-IsShipment, tt)))) refl refl
      (omega arith) receiving-Knows refl refl refl refl (omega arith)

-- The client's connection to that host, with a window of nine thousand bytes.
abbrev sending_conn : Conn
sending_conn = record open_conn {
  tcb = record client_tcb { state = established; snd_una = 1001; snd_wnd = 9000 };
  room = 9000;
}

sending_conn-Sends : Sends sending_conn 8000 psh_ack retries_infinite
unfolding has_flag
sending_conn-Sends = record {
  valid = refl;
  syn = refl;
  fin = refl;
  ack_sent = refl;
  fin_sent = refl;
  some_ = omega arith;
  room = omega arith;
  order = omega arith;
  unwrapped = omega arith;
  inside = omega arith;
  client = record {
    local_ip = refl;
    remote_ip = omega arith;
    local_port = omega arith;
    remote_port = omega arith;
    snd_nxt = omega arith;
    rcv_nxt = omega arith;
  };
}

receiving-Receives : Receives receiving_world 1000000 server_socket sending_conn.tcb
unfolding is_anp_sockfd get_anp_socket
receiving-Receives = record {
  ours = refl;
  found = refl;
  connected = omega arith;
  knows = receiving-Knows;
  free = refl;
  state = refl;
  next = refl;
  empty = refl;
}

-- Eight thousand bytes on a network that loses nothing, and a call that asks for 5000.
tcp_tx-recv_example :
    Transferred sending_conn
      (λ i. i)
      8000
      psh_ack
      retries_infinite
      5000
      client_net
      route
      (store32 zeroed 6 0x0a000005)
      (λ xs. xs)
      receiving_world
      1000000
tcp_tx-recv_example =
    tcp_tx-recv sending_conn (λ i. i) 8000 psh_ack retries_infinite 5000 client_net route
      (store32 zeroed 6 0x0a000005) (λ xs. xs) receiving_world 1000000 server_socket
      sending_conn-Sends (omega arith) client-Routed refl (λ P xs all. all)
      (parcels-Offers client_net route (store32 zeroed 6 0x0a000005) (λ i. i) psh_ack
        (locked_tcb sending_conn))
      receiving-Receives (omega arith)

-- The peer's FIN, without data.
abbrev last_segment : Segment
last_segment = record fin_segment { segment_len = 0 }

fin-stuck_example :
    let w' = handled receiving_world 4096 last_segment in
    (recv w' 1000000 4 (λ w. w) ≡ hangs w') × (close w' 1000000 (λ w. w) ≡ hangs w')
unfolding has_flag is_anp_sockfd get_anp_socket
fin-stuck_example =
    fin-stuck receiving_world 1000000 4 server_socket last_segment (λ w. w) refl refl (omega arith)
      refl refl refl (inl refl)
