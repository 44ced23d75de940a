-- ===== src/World.antt =====
-- The global state of the stack: src/anpwrapper.c, src/anpwrapper.h (sockets, descriptors, ports),
-- src/tcp.c (control blocks, messages), src/timer.c and the lower layers, with the lookups.
pub mod Update
use anp_netskeleton.Base.{
  ℕ, Bool, ◌&&◌, Option, none, some, List, [], ◌∷◌, ◌==◌, if◌then◌else◌, update,
}
use anp_netskeleton.Netdev.{Net}
use anp_netskeleton.Timer.{Timers}
use anp_netskeleton.Tcp.{Tcb, Message, Handler, Conn}

-- `struct anp_socket`; `conn_info` is the address of a control block, 0 for NULL.
pub record AnpSocket : Type 0 where
  pub fd : ℕ
  pub sock_type : ℕ
  pub protocol : ℕ
  pub domain : ℕ
  pub conn_info : ℕ

-- `tcbs` is the part of the heap that holds control blocks, and `fresh` the next address to hand
-- out. `fd_in_use` is read at `fd - FD_START_VAL` in C; here its argument is `fd` itself, and what it
-- says below FD_START_VAL is what lies in front of the array.
pub record World : Type 0 where
  pub net : Net
  pub tcbs : ℕ → Tcb
  pub fresh : ℕ
  pub sockets : List AnpSocket
  pub fd_in_use : ℕ → Bool
  pub available_port : ℕ  -- uint16_t
  pub messages : List Message
  pub timers : Timers Handler
  pub room : ℕ
  pub errno : ℕ

-- The connection at an address, and a connection put back.
abbrev pub conn_at : World → ℕ → Conn
conn_at w p = record {
  ptr = p;
  tcb = w.tcbs p;
  messages = w.messages;
  timers = w.timers;
  room = w.room;
}

abbrev pub put_conn : World → Conn → World
put_conn w c = record w {
  tcbs = update w.tcbs c.ptr c.tcb;
  messages = c.messages;
  timers = c.timers;
  room = c.room;
}

-- What may go wrong in a way that C leaves undefined: a mutex at a null address is unlocked, or a
-- local variable is read that a `goto` has jumped past.
pub data Fault : Type 0 where
  null_dereference uninitialised : Fault

pub data Run : Type 0 where
  ok : World → Run
  fault : Fault → Run

abbrev pub same_connection : Tcb → ℕ → ℕ → ℕ → ℕ → Bool
same_connection t local_port local_ip remote_port remote_ip =
    (t.local_port == local_port)
    && ((t.local_ip == local_ip) && ((t.remote_port == remote_port) && (t.remote_ip == remote_ip)))

unfoldable pub get_tcb_in : (ℕ → Tcb) → List AnpSocket → ℕ → ℕ → ℕ → ℕ → Option ℕ
get_tcb_in tcbs [] local_port local_ip remote_port remote_ip = none
get_tcb_in tcbs (sock ∷ rest) local_port local_ip remote_port remote_ip =
    if sock.conn_info == 0
    then get_tcb_in tcbs rest local_port local_ip remote_port remote_ip
    else if same_connection (tcbs sock.conn_info) local_port local_ip remote_port remote_ip
    then some sock.conn_info
    else get_tcb_in tcbs rest local_port local_ip remote_port remote_ip

unfoldable pub get_tcb : World → ℕ → ℕ → ℕ → ℕ → Option ℕ
unfolding get_tcb_in
get_tcb w = get_tcb_in w.tcbs w.sockets

unfoldable pub get_anp_socket : List AnpSocket → ℕ → Option AnpSocket
get_anp_socket [] fd = none
get_anp_socket (sock ∷ rest) fd = if sock.fd == fd then some sock else get_anp_socket rest fd
