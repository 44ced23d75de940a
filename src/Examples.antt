-- ===== src/Examples.antt =====
-- Concrete data for the theorems: a connection of the client device with a server, and its tables.
pub mod Connection
pub mod Stack
pub mod Arp
pub mod Lists
pub mod Programs
pub mod Start
pub mod Delivery
pub mod Shipment
use anp_netskeleton.Base.{ℕ, ◌+◌, false, none, [], ◌∷◌, ◌==◌, pos}
use anp_netskeleton.Memory.{zeroed, store32}
use anp_netskeleton.Netdev.{NetDev, ArpEntry, Net}
use anp_netskeleton.Route.{route_init}
use anp_netskeleton.Tcp.{
  syn_sent, established, fin_wait_2, Tcb, Message, Conn, tcp_ack, tcp_finack, tcp_synack,
  retries_infinite,
}
use anp_netskeleton.Tcp.Packet.{create_tcp_packet}
use anp_netskeleton.Tcp.Packet.Verified.{client_ip}
use anp_netskeleton.Tcp.Receive.{Segment}
use anp_netskeleton.World.{World}

-- The control block of a connection from port 49155 of 10.0.0.4 to port 43211 of 10.0.0.5, with the
-- initial sequence number 1000.
abbrev client_tcb : Tcb
client_tcb = record {
  state = syn_sent;
  local_port = 49155;
  remote_port = 43211;
  local_ip = client_ip;
  remote_ip = 0x0a000005;
  tcb_lock = false;
  tcb_cond = 0;
  rcv_nxt = 0;
  rcv_wnd = 0;
  irs = 0;
  rcv_buff_len = 0;
  rcv_buff = zeroed;
  send_lock = false;
  send_cond = 0;
  snd_una = 999;
  snd_nxt = 1001;
  snd_wnd = 0;
  iss = 1000;
}

abbrev connecting : Conn
connecting = record {
  ptr = 4096;
  tcb = client_tcb;
  messages = [];
  timers = record { tick = 0; timers = []; fresh = 1 };
  room = 10;
}

abbrev open_conn : Conn
open_conn = record connecting {
  tcb = record client_tcb {
    state = established;
    rcv_nxt = 501;
    snd_una = 1001;
    snd_wnd = 5;
    irs = 500;
  };
}

-- The server's answer to our SYN, and its data of three bytes.
abbrev syn_ack : Segment
syn_ack = record {
  mem = zeroed;
  flags = tcp_synack;
  seq_num = 500;
  ack_num = 1001;
  window_size = 65535;
  segment_len = 0;
}

abbrev data_segment : Segment
data_segment = record {
  mem = λ i. i;
  flags = tcp_ack;
  seq_num = 501;
  ack_num = 1001;
  window_size = 65535;
  segment_len = 3;
}

abbrev fin_segment : Segment
fin_segment = record data_segment { flags = tcp_finack }

-- Two segments of the connection, of which the second one is not acknowledged, and one of another
-- connection.
abbrev message_at : ℕ → ℕ → Message
message_at ptr seq = record {
  tcb = ptr;
  sub = (create_tcp_packet (record client_tcb { snd_nxt = seq }) zeroed 0 4 tcp_ack).0;
  tcp_ptr = 34;
  stale = none;
  tcp_len = 24;
  tcp_data_len = 4;
  retries = retries_infinite;
}

abbrev sending : Conn
sending = record open_conn {
  messages = message_at 4096 1001 ∷ (message_at 8192 1001 ∷ (message_at 4096 1005 ∷ []));
  tcb = record client_tcb { state = established; snd_una = 1005; snd_nxt = 1009 };
}

abbrev waiting : Conn
waiting = record open_conn { tcb = record client_tcb { state = fin_wait_2 } }

-- The two devices and the tables that `route_init` and the first ARP reply make.
abbrev lo_dev : NetDev
lo_dev = record { addr = 0x7f000001; addr_len = 6; hwaddr = zeroed; mtu = 1500 }

abbrev ext_dev : NetDev
ext_dev = record { addr = 0x0a000004; addr_len = 6; hwaddr = λ i. 10 + i; mtu = 1500 }

abbrev gateway_entry : ArpEntry
gateway_entry = record { state = 2; arp_ipv4 = store32 zeroed 6 0x0a000005 }

abbrev client_net : Net
client_net = record {
  cdev_ext = ext_dev;
  cdev_lo = lo_dev;
  routes = route_init lo_dev ext_dev;
  arp_cache = gateway_entry ∷ [];
  tap_write = λ frame. pos 54;
  wire = [];
}

abbrev fresh_world : World
fresh_world = record {
  net = client_net;
  tcbs = λ p. client_tcb;
  fresh = 4096;
  sockets = record { fd = 1000000; sock_type = 1; protocol = 6; domain = 2; conn_info = 0 } ∷ [];
  fd_in_use = λ fd. fd == 1000000;
  available_port = 49154;
  messages = [];
  timers = record { tick = 0; timers = []; fresh = 1 };
  room = 10;
  errno = 0;
}
