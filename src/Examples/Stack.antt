-- ===== src/Examples/Stack.antt =====
-- The theorems on the other parts of the stack, applied to the tables of the client device.
use anp_netskeleton.Base.{
  ℕ, ◌+◌, ◌≡◌, ◌≢◌, refl, false, some, List, [], ◌∷◌, ◌==◌, if◌then◌else◌, htonl, u32, pos, arith,
}
use anp_netskeleton.Memory.{Mem, zeroed, load16, load32, store16, store32}
use anp_netskeleton.Checksum.{do_csum}
use anp_netskeleton.Checksum.Verify.{do_csum-store16-do_csum}
use anp_netskeleton.Base.{inr, map}
use anp_netskeleton.Netdev.{RtEntry, Net}
use anp_netskeleton.Ip.{ipp_tcp, is_eagain, ip_output, next_hop}
use anp_netskeleton.Ip.Output.{Ready, Settled, WentOut, ip_output-Settled}
use anp_netskeleton.Arp.{process_arp_entry, arp_get_hwaddr}
use anp_netskeleton.Arp.Cache.{Learned, process_arp_entry-Learned}
use anp_netskeleton.Route.{
  route_init, route_lookup, route_add, route_alloc, route_scan, route_matches,
}
use anp_netskeleton.Route.Lookup.{Selected, route_lookup-Selected}
use anp_netskeleton.Subuff.{Subuff, alloc_sub}
use anp_netskeleton.Icmp.{icmp_reply_mem}
use anp_netskeleton.Icmp.Echo.{icmp_reply_mem-verified}
use anp_netskeleton.Ip.{ip_send_check, put_ip_hdr}
use anp_netskeleton.Timer.{Timer, timers_tick}
use anp_netskeleton.Timer.Firing.{due, timers_tick-once}
use anp_netskeleton.Tcp.{established, Tcb, Message, has_flag, tcp_syn, with_tcb}
use anp_netskeleton.Tcp.Buffer.{read_bytes}
use anp_netskeleton.Tcp.Receive.{segment_arrives}
use anp_netskeleton.Socket.{start_close}
use anp_netskeleton.Socket.Lifetime.{◌⇒*◌, here, then_, arrives, reads, closes, Onward, ⇒*-Onward}
use anp_netskeleton.Tcp.Packet.{create_tcp_packet}
use anp_netskeleton.Socket.{is_socket_supported}
use anp_netskeleton.Socket.Connect.{answered, connect-established}
use anp_netskeleton.Socket.{connect, returns, is_anp_sockfd}
use anp_netskeleton.Socket.Descriptors.{SocketOutcome, socket-outcome}
use anp_netskeleton.Sender.{sweep, swept}
use anp_netskeleton.Sender.Sweep.{tickets, after_sweep}
use anp_netskeleton.Sender.Ends.{sweep-ends}
use anp_netskeleton.World.{get_anp_socket, World}
use anp_netskeleton.Examples.{
  client_tcb, open_conn, fin_segment, syn_ack, sending, lo_dev, ext_dev, gateway_entry, client_net,
  fresh_world,
}

-- The checksum field of twenty bytes, before it is filled in.
abbrev header : Mem
header i = if i == 10 then 0 else if i == 11 then 0 else 7

do_csum-store16-do_csum_example :
    do_csum (store16 header 10 (do_csum header 0 (pos 20) 26)) 0 (pos 20) 26 ≡ 0
unfolding load16
do_csum-store16-do_csum_example =
    do_csum-store16-do_csum header 5 0 20 26 26 (0, 0, refl) (omega arith) refl (omega arith)
      (omega arith) (omega arith)

process_arp_entry-Learned_example :
    Learned
      (store32 zeroed 28 0x0a000005)
      (gateway_entry ∷ [])
      (process_arp_entry (store32 zeroed 28 0x0a000005) (gateway_entry ∷ []))
process_arp_entry-Learned_example =
    process_arp_entry-Learned (store32 zeroed 28 0x0a000005) (gateway_entry ∷ []) (refl, tt)

routes_not_empty : route_init lo_dev ext_dev ≢ []
unfolding route_init route_add route_alloc
routes_not_empty e = ground (arith, e)

route_lookup-Selected_example :
    (rt : RtEntry) × (route_lookup (route_init lo_dev ext_dev) 0x08080808 ≡ some rt)
    × Selected 0x08080808 (route_init lo_dev ext_dev) rt
route_lookup-Selected_example =
    route_lookup-Selected (route_init lo_dev ext_dev) 0x08080808 routes_not_empty

client_net-Ready : Ready client_net 0x0a000005
unfolding route_init route_add route_alloc route_lookup route_scan route_matches next_hop
    arp_get_hwaddr load32 store32
client_net-Ready = (store32 zeroed 6 0x0a000005, refl)

abbrev syn_packet : Subuff
syn_packet = (create_tcp_packet client_tcb zeroed 0 0 tcp_syn).0

ip_output-Settled_example :
    Settled client_net (ip_output client_net 0x0a000005 syn_packet)
    × WentOut client_net syn_packet 0x0a000005 (ip_output client_net 0x0a000005 syn_packet)
unfolding is_eagain
ip_output-Settled_example =
    ip_output-Settled client_net syn_packet 0x0a000005 (omega arith) client_net-Ready
      (λ frame. refl)

-- Three messages at their last try.
abbrev last_tries : List Message
last_tries = map {A = Message} (λ m. record m { retries = 1 }) sending.messages

sweep-ends_example :
    (net' : Net) × (tcbs' : ℕ → Tcb) × (kept : List Message) × (sweep client_net
        (λ p. client_tcb)
        []
        last_tries
      ≡ swept net' tcbs' kept)
    × (tickets kept ≡ after_sweep (tickets last_tries))
unfolding is_eagain
sweep-ends_example =
    sweep-ends last_tries client_net (λ p. client_tcb) []
      (omega arith, (omega arith, (omega arith, tt))) (λ frame. refl)
      (
        (omega arith, client_net-Ready),
        ((omega arith, client_net-Ready), ((omega arith, client_net-Ready), tt)),
      )
      (inr refl, (inr refl, (inr refl, tt)))

-- One timer that expires between the ticks 100 and 110, one that expired before.
abbrev two_timers : List (Timer ℕ)
two_timers =
    record { id = 1; refcnt = pos 0; expires = 105; cancelled = false; handler = 7; locked = false }
    ∷ (record {
      id = 2;
      refcnt = pos 1;
      expires = 95;
      cancelled = false;
      handler = 8;
      locked = false;
    }
        ∷ [])

timers_tick-once_example :
    (timers_tick 110 (timers_tick 100 two_timers).0).1 ≡ due 100 110 two_timers
timers_tick-once_example = timers_tick-once 100 110 two_timers (omega arith)

socket-outcome_example : SocketOutcome fresh_world 2 1 6
unfolding is_socket_supported
socket-outcome_example = socket-outcome fresh_world 2 1 6 refl (refl, tt)

-- A packet from the server, as the device delivers it.
abbrev server_packet : Subuff
server_packet = record (alloc_sub 1522) {
  mem = ip_send_check (put_ip_hdr zeroed 40 ipp_tcp 0x0a000005 0x0a000004);
}

icmp_reply_mem-verified_example : do_csum (icmp_reply_mem (λ i. i) 64) 34 (pos 64) 0 ≡ 0
icmp_reply_mem-verified_example = icmp_reply_mem-verified (λ i. i) 64 (omega arith) (omega arith)

-- The client connects to port 43211 of 10.0.0.5 (in network byte order), with 1000 as first number.
abbrev gateway_route : RtEntry
gateway_route = record {
  dst = 0x0a000004;
  gateway = 0;
  netmask = 0xffffff00;
  flags = 4;
  dev = ext_dev;
}

server_route : route_lookup fresh_world.net.routes (htonl 0x0500000a) ≡ some gateway_route
unfolding route_init route_add route_alloc route_lookup route_scan route_matches htonl
server_route = refl

first_socket :
    get_anp_socket fresh_world.sockets 1000000
    ≡ some (record { fd = 1000000; sock_type = 1; protocol = 6; domain = 2; conn_info = 0 })
unfolding get_anp_socket
first_socket = refl

connect-established_example :
    (w' : World) × (connect fresh_world 1000000 0xcba8 0x0500000a 1000 (answered 4096 syn_ack)
      ≡ returns 0 [] w')
    × ((w'.tcbs 4096).state ≡ established)
    × ((w'.tcbs 4096).rcv_nxt ≡ u32 (500 + 1))
    × ((w'.tcbs 4096).snd_una ≡ 1001)
    × ((w'.tcbs 4096).snd_wnd ≡ 65535)
    × ((w'.tcbs 4096).tcb_lock ≡ false)
unfolding has_flag is_anp_sockfd
connect-established_example =
    connect-established fresh_world 1000000 0xcba8 0x0500000a 1000
      (record { fd = 1000000; sock_type = 1; protocol = 6; domain = 2; conn_info = 0 })
      gateway_route syn_ack refl first_socket (λ e. absurd (omega (arith, e))) server_route
      (omega arith) (omega arith) refl refl refl

-- The client closes, the server's FIN arrives, and two bytes are read.
abbrev closing_steps :
    open_conn
    ⇒* with_tcb
        (segment_arrives (start_close open_conn) fin_segment)
        (read_bytes (segment_arrives (start_close open_conn) fin_segment).tcb 2).1
closing_steps = then_ (closes refl) (then_ (arrives fin_segment) (then_ (reads 2) here))

⇒*-Onward_example : Onward open_conn (
    with_tcb
      (segment_arrives (start_close open_conn) fin_segment)
      (read_bytes (segment_arrives (start_close open_conn) fin_segment).tcb 2).1)
⇒*-Onward_example = ⇒*-Onward closing_steps (omega arith)
