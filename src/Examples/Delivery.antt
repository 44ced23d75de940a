-- ===== src/Examples/Delivery.antt =====
-- The theorems on the delivery of data, applied to a stream of five bytes in two segments.
use anp_netskeleton.Base.{
  ℕ, ◌+◌, ◌≡◌, refl, some, List, [], ◌∷◌, map, All, ◌==◌, if◌then◌else◌, htonl, arith,
}
use anp_netskeleton.Memory.{Mem}
use anp_netskeleton.Tcp.{has_flag}
use anp_netskeleton.Tcp.Receive.{Segment}
use anp_netskeleton.Tcp.Receive.Order.{
  Event, arrival, reading, run_events, InOrder, Genuine, run_events-InOrder,
}
use anp_netskeleton.Tcp.Receive.GoBackN.{
  Delivery, deliver, user_reads, event_of, go_back_n, Cuts, Piece, OfStream,
}
use anp_netskeleton.Tcp.Receive.Pieces.{HasPieces, run_events-HasPieces}
use anp_netskeleton.Memory.{zeroed, load32, store32}
use anp_netskeleton.Netdev.{RtEntry}
use anp_netskeleton.Arp.{arp_get_hwaddr}
use anp_netskeleton.Route.{
  route_init, route_lookup, route_add, route_alloc, route_scan, route_matches,
}
use anp_netskeleton.Ip.{next_hop}
use anp_netskeleton.World.{World, get_tcb, get_tcb_in}
use anp_netskeleton.Tcp.{established, Message, tcp_ack, retries_infinite}
use anp_netskeleton.Tcp.Packet.{create_tcp_packet, new_message}
use anp_netskeleton.Input.Transfer.{Routed}
use anp_netskeleton.Input.Roundtrip.{ClientTcb, Received}
use anp_netskeleton.Sender.{try_message}
use anp_netskeleton.Sender.Repeat.{OnEthernet, tries, tries-Received}
use anp_netskeleton.Examples.{client_tcb, open_conn, data_segment, ext_dev, client_net, fresh_world}

abbrev stream : Mem
stream i = i + 54

abbrev second_segment : Segment
second_segment = record data_segment { mem = λ i. i + 3; seq_num = 504; segment_len = 2 }

-- The second segment comes first, the first one twice, and the second one again.
abbrev disordered : List Event
disordered =
    arrival second_segment
    ∷ (arrival data_segment ∷ (arrival data_segment ∷ (reading 2 ∷ (arrival second_segment ∷ []))))

first-Genuine : Genuine stream 501 data_segment
unfolding has_flag
first-Genuine = record {
  offset = 0;
  number = refl;
  inside = omega arith;
  payload = refl;
  no_fin = refl;
}

second-Genuine : Genuine stream 501 second_segment
unfolding has_flag
second-Genuine = record {
  offset = 3;
  number = refl;
  inside = omega arith;
  payload = refl;
  no_fin = refl;
}

run_events-InOrder_example :
    let (out, c') = run_events open_conn disordered in InOrder stream 501 out c'
run_events-InOrder_example =
    run_events-InOrder stream 501 disordered open_conn refl refl refl
      (second-Genuine, (first-Genuine, (first-Genuine, (tt, (second-Genuine, tt)))))

abbrev pub cut : ℕ → ℕ
cut i = if i == 0 then 0 else if i == 1 then 3 else 5

pub two-Cuts : Cuts cut 2
two-Cuts = record { from_start = refl; growing = λ i less. ground arith; has_room = omega arith }

first-Piece : Piece stream 501 cut 0 data_segment
unfolding has_flag
first-Piece = record { number = refl; size = refl; payload = refl; ack = refl; no_fin = refl }

second-Piece : Piece stream 501 cut 1 second_segment
unfolding has_flag
second-Piece = record { number = refl; size = refl; payload = refl; ack = refl; no_fin = refl }

abbrev deliveries : List Delivery
deliveries =
    deliver 1 second_segment
    ∷ (deliver 0 data_segment
        ∷ (deliver 0 data_segment ∷ (user_reads 2 ∷ (deliver 1 second_segment ∷ []))))

deliveries-OfStream : All (OfStream stream 501 cut 2) deliveries
deliveries-OfStream =
    let first : OfStream stream 501 cut 2 (deliver 0 data_segment) = (omega arith, first-Piece) in
    let second : OfStream stream 501 cut 2 (deliver 1 second_segment) =
      (omega arith, second-Piece) in
    (second, (first, (first, (tt, (second, tt)))))

run_events-HasPieces_example :
    let (out, c') = run_events open_conn (map event_of deliveries) in
    HasPieces stream 501 cut (go_back_n 0 deliveries) out c'
run_events-HasPieces_example =
    run_events-HasPieces stream 501 cut 2 deliveries open_conn two-Cuts refl refl refl
      deliveries-OfStream

-- A message of the client with three bytes, and the host at 10.0.0.5 with a socket for the connection.
abbrev message : Message
message = new_message 4096 (create_tcp_packet client_tcb (λ i. i) 0 3 tcp_ack).0 retries_infinite

abbrev pub route : RtEntry
route = record { dst = 0x0a000004; gateway = 0; netmask = 0xffffff00; flags = 4; dev = ext_dev }

client-ClientTcb : ClientTcb client_tcb
client-ClientTcb = record {
  local_ip = refl;
  remote_ip = omega arith;
  local_port = omega arith;
  remote_port = omega arith;
  snd_nxt = omega arith;
  rcv_nxt = omega arith;
}

pub client-Routed : Routed client_net 0x0a000005 route (store32 zeroed 6 0x0a000005)
unfolding route_init route_add route_alloc route_lookup route_scan route_matches next_hop
    arp_get_hwaddr load32 store32
client-Routed = record {
  route = refl;
  neighbour = refl;
  mac_len = refl;
  source = omega arith;
  target_ = omega arith;
}

client-OnEthernet : OnEthernet client_net
unfolding route_init route_add route_alloc
client-OnEthernet = (refl, (refl, (refl, tt)))

abbrev pub server_world : World
server_world = record fresh_world {
  tcbs = λ p. record client_tcb {
    state = established;
    local_port = 43211;
    remote_port = 49155;
    local_ip = 0x0500000a;
    remote_ip = 0x0a000004;
  };
  sockets = record { fd = 1000000; sock_type = 1; protocol = 6; domain = 2; conn_info = 4096 } ∷ [];
}

server-known : get_tcb server_world 43211 (htonl 0x0a000005) 49155 0x0a000004 ≡ some 4096
unfolding get_tcb get_tcb_in htonl
server-known = refl

-- The second of two tries, with the hardware address known at both.
tries-Received_example :
    Received client_net
      (try_message client_net 0x0a000005 (tries 0x0a000005 (client_net ∷ []) message)).0
      server_world
      4096
      client_tcb
      (λ i. i)
      0
      3
      tcp_ack
tries-Received_example =
    tries-Received client_tcb (λ i. i) 0 3 tcp_ack 4096 retries_infinite (client_net ∷ [])
      client_net route (store32 zeroed 6 0x0a000005) server_world 4096 client-ClientTcb
      (omega arith) (client-OnEthernet, tt) client-Routed refl server-known
