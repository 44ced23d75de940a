-- ===== src/Socket.antt =====
-- src/anpwrapper.c: the calls `socket`, `connect`, `send`, `recv` and `close` that the library puts in
-- front of libc's. A call that waits on a condition variable takes what the other threads do until
-- it may run again as a function on the state, and runs on only if that signals the variable. The
-- steps of the other threads are whole, so a `tcb_lock` that is held between them is one that was
-- left locked, and a call that finds it so waits for ever.
pub mod Descriptors
pub mod Wait
pub mod Stuck
pub mod Connect
pub mod Lifetime
pub mod Stream
pub mod Transfer
use anp_netskeleton.Base.{
  ℕ, zero, suc, ◌+◌, ◌-◌, Bool, true, false, ◌&&◌, ◌||◌, Option, none, some, List, [], ◌∷◌, ◌++◌,
  ◌==◌, if◌then◌else◌, not, u16, u32, htons, htonl, sub32, bit_and, update, length, ltb,
}
use anp_netskeleton.Memory.{Mem, zeroed}
use anp_netskeleton.Netdev.{RtEntry}
use anp_netskeleton.Route.{route_lookup}
use anp_netskeleton.Tcp.{
  TcpState, syn_sent, established, fin_wait_1, closed, listen, Tcb, Conn, with_tcb, tcp_syn,
  tcp_ack, tcp_finack, retries_infinite, retries_conn_max, retries_sendonce,
}
use anp_netskeleton.Tcp.Transmit.{TxResult, returned, blocked, out_of_fuel, tcp_tx, tcp_tx_empty}
use anp_netskeleton.Tcp.Buffer.{read_bytes}
use anp_netskeleton.World.{AnpSocket, World, conn_at, put_conn, get_anp_socket}

abbrev pub fd_start_val : ℕ
fd_start_val = 1000000

abbrev pub fd_max_val : ℕ
fd_max_val = 1048575

abbrev pub ports_starting : ℕ
ports_starting = 49154

abbrev pub ports_ending : ℕ
ports_ending = 65535

abbrev pub ebadf : ℕ
ebadf = 9

abbrev pub enomem : ℕ
enomem = 12

abbrev pub emfile : ℕ
emfile = 24

abbrev pub enetunreach : ℕ
enetunreach = 101

abbrev pub enotconn : ℕ
enotconn = 107

-- How a call ends: it is passed on to libc, it fails with -1, it returns a number (and the bytes that
-- `recv` stored), or it waits for ever.
pub data Reply : Type 0 where
  delegated : Reply
  failed : World → Reply
  returns : ℕ → List ℕ → World → Reply
  hangs : World → Reply

abbrev pub fails_with : World → ℕ → Reply
fails_with w e = failed (record w { errno = e })

-- The loop of `get_next_fd`: `n` descriptors are left, from `fd` on.
unfoldable pub find_free_fd : (ℕ → Bool) → ℕ → ℕ → Option ℕ
find_free_fd in_use zero fd = none
find_free_fd in_use (suc n) fd =
    let rest : Option ℕ = find_free_fd in_use n (fd + 1) in if in_use fd then rest else some fd

unfoldable pub get_next_fd : World → Option (ℕ × World)
get_next_fd w = elim (find_free_fd w.fd_in_use (fd_max_val - fd_start_val) fd_start_val) [
  | none ↦ none
  | some fd ↦ some (fd, record w { fd_in_use = update w.fd_in_use fd true })
]

unfoldable pub free_fd_entry : World → ℕ → World
free_fd_entry w fd = record w { fd_in_use = update w.fd_in_use fd false }

unfoldable pub remove_socket : ℕ → List AnpSocket → List AnpSocket
remove_socket fd [] = []
remove_socket fd (sock ∷ rest) = if sock.fd == fd then rest else sock ∷ remove_socket fd rest

unfoldable pub free_anp_socket : World → AnpSocket → World
free_anp_socket w sock =
    let w' : World = free_fd_entry w sock.fd in
    record w' { sockets = remove_socket sock.fd w'.sockets }

-- `available_port` is a uint16_t, and the test cannot succeed.
unfoldable pub get_port : World → ℕ × World
get_port w =
    if ltb ports_ending w.available_port
    then (65535, w)
    else (u16 (w.available_port + 1), record w { available_port = u16 (w.available_port + 1) })

unfoldable pub is_anp_sockfd : World → ℕ → Bool
is_anp_sockfd w fd = w.fd_in_use fd

-- AF_INET is 2, SOCK_STREAM 1 and IPPROTO_TCP 6.
unfoldable pub is_socket_supported : ℕ → ℕ → ℕ → Bool
is_socket_supported domain sock_type protocol =
    (domain == 2) && (not (bit_and sock_type 1 == 0) && ((protocol == 0) || (protocol == 6)))

unfoldable pub socket : World → ℕ → ℕ → ℕ → Reply
socket w domain sock_type protocol =
    if not (is_socket_supported domain sock_type protocol)
    then delegated
    else if w.room == 0
    then fails_with w enomem
    else elim (get_next_fd (record w { room = w.room - 1 })) [
      | none ↦ fails_with (record w { room = w.room - 1 }) emfile
      | some (fd, w') ↦
          let sock : AnpSocket = record {
            fd = fd;
            sock_type = sock_type;
            protocol = protocol;
            domain = domain;
            conn_info = 0;
          } in
          returns fd [] (record w' { sockets = w'.sockets ++ (sock ∷ []) })
    ]

unfoldable pub set_conn_info : ℕ → ℕ → List AnpSocket → List AnpSocket
set_conn_info fd p [] = []
set_conn_info fd p (sock ∷ rest) =
    if sock.fd == fd then record sock { conn_info = p } ∷ rest else sock ∷ set_conn_info fd p rest

-- The block that `calloc` clears, with the four fields set before the route is looked up.
unfoldable pub new_tcb : ℕ → ℕ → ℕ → Tcb
new_tcb local_port remote_port remote_ip = record {
  state = listen;
  local_port = local_port;
  remote_port = remote_port;
  local_ip = 0;
  remote_ip = remote_ip;
  tcb_lock = false;
  tcb_cond = 0;
  rcv_nxt = 0;
  rcv_wnd = 0;
  irs = 0;
  rcv_buff_len = 0;
  rcv_buff = zeroed;
  send_lock = false;
  send_cond = 0;
  snd_una = 0;
  snd_nxt = 0;
  snd_wnd = 0;
  iss = 0;
}

-- `iss` is what `rand` returned.
unfoldable pub init_tcb : Tcb → ℕ → ℕ → Tcb
init_tcb t dev_addr iss = record t {
  local_ip = htonl dev_addr;
  state = closed;
  iss = iss;
  snd_una = sub32 iss 1;
  snd_nxt = iss;
  irs = 0;
  rcv_nxt = 0;
  rcv_buff_len = 0;
}

-- Up to the wait: the SYN is queued, and `tcb_lock` is held until the wait gives it up.
unfoldable pub start_connect : Conn → Conn
start_connect c =
    let locked : Conn = with_tcb c (record c.tcb { tcb_lock = true }) in
    let sent : Conn = tcp_tx_empty locked tcp_syn retries_conn_max in
    with_tcb sent (record sent.tcb { state = syn_sent; tcb_lock = false })

-- `pthread_cond_wait (&tcb->tcb_cond, &tcb->tcb_lock)` for the control block at `p`, where the other
-- threads do `wake` until the thread may run again. It does if one of them has signalled `tcb_cond`,
-- and it gets `tcb_lock` back; `none` is a wait for ever.
unfoldable pub cond_wait : World → ℕ → (World → World) → Option World
cond_wait w p wake =
    let w1 : World = wake w in
    if (w1.tcbs p).tcb_cond == (w.tcbs p).tcb_cond
    then none
    else if (w1.tcbs p).tcb_lock
    then none
    else some w1

abbrev pub is_established : TcpState → Bool
is_established established = true
is_established _ = false

abbrev pub is_closed : TcpState → Bool
is_closed closed = true
is_closed _ = false

-- `sin_port` and `sin_addr` are in network byte order.
unfoldable pub connect : World → ℕ → ℕ → ℕ → ℕ → (World → World) → Reply
connect w sockfd sin_port sin_addr iss wake =
    if not (is_anp_sockfd w sockfd) then delegated else elim (get_anp_socket w.sockets sockfd) [
      | none ↦ fails_with w ebadf
      | some sock ↦
          if w.room == 0
          then fails_with (free_anp_socket w sock) enomem
          else (let p : ℕ = w.fresh in
              let (port, w1) = get_port w in
              let t : Tcb = new_tcb port (htons sin_port) (htonl sin_addr) in
              let w2 : World = record w1 {
                room = w.room - 1;
                fresh = p + 1;
                sockets = set_conn_info sockfd p w1.sockets;
                tcbs = update w1.tcbs p t;
              } in
              elim (route_lookup w.net.routes t.remote_ip) [
                | none ↦ fails_with w2 enetunreach
                | some rt ↦
                    let w3 : World = record w2 {
                      tcbs = update w2.tcbs p (init_tcb t rt.dev.addr iss);
                    } in
                    let w4 : World = put_conn w3 (start_connect (conn_at w3 p)) in
                    elim (cond_wait w4 p wake) [
                      | none ↦ hangs (wake w4)
                      | some w5 ↦
                          if is_established (w5.tcbs p).state then returns 0 [] w5 else failed w5
                    ]
              ])
    ]

-- The result of `tcp_tx` is not looked at: `send` returns `len`.
unfoldable pub send : World → ℕ → Mem → ℕ → List (Conn → Conn) → Reply
send w sockfd buf len env =
    if not (is_anp_sockfd w sockfd) then delegated else elim (get_anp_socket w.sockets sockfd) [
      | none ↦ fails_with w ebadf
      | some sock ↦
          if sock.conn_info == 0
          then fails_with w enotconn
          else if not (is_established (w.tcbs sock.conn_info).state)
          then fails_with w enotconn
          else elim (tcp_tx env (conn_at w sock.conn_info) buf (u32 len) tcp_ack retries_infinite) [
            | returned n c ↦ returns len [] (put_conn w c)
            | blocked c ↦ hangs (put_conn w c)
            | out_of_fuel ↦ hangs w
          ]
    ]

-- `read_bytes` behind the wait, on the control block at `p`.
unfoldable pub take_bytes : World → ℕ → ℕ → Reply
take_bytes w p len =
    let (out, t) = read_bytes (w.tcbs p) (u32 len) in
    returns (length out) out (record w { tcbs = update w.tcbs p t })

-- The call waits if there is no data; a second signal is not waited for.
unfoldable pub recv : World → ℕ → ℕ → (World → World) → Reply
recv w sockfd len wake =
    if not (is_anp_sockfd w sockfd) then delegated else elim (get_anp_socket w.sockets sockfd) [
      | none ↦ fails_with w ebadf
      | some sock ↦
          if sock.conn_info == 0
          then fails_with w enotconn
          else if (w.tcbs sock.conn_info).tcb_lock
          then hangs w
          else if not ((w.tcbs sock.conn_info).rcv_buff_len == 0)
          then take_bytes w sock.conn_info len
          else elim (cond_wait w sock.conn_info wake) [
            | none ↦ hangs (wake w)
            | some w1 ↦ take_bytes w1 sock.conn_info len
          ]
    ]

-- Up to the wait: the FIN is queued.
unfoldable pub start_close : Conn → Conn
start_close c =
    let fin : Conn = with_tcb c (record c.tcb { state = fin_wait_1; tcb_lock = true }) in
    let sent : Conn = tcp_tx_empty fin tcp_finack retries_sendonce in
    with_tcb sent (record sent.tcb { tcb_lock = false })

-- On an unestablished connection the call fails with `tcb_lock` held.
unfoldable pub close : World → ℕ → (World → World) → Reply
close w sockfd wake =
    if not (is_anp_sockfd w sockfd) then delegated else elim (get_anp_socket w.sockets sockfd) [
      | none ↦ fails_with w ebadf
      | some sock ↦
          if sock.conn_info == 0
          then fails_with w enotconn
          else (let p : ℕ = sock.conn_info in
              let c : Conn = conn_at w p in
              if c.tcb.tcb_lock
              then hangs w
              else if not (is_established c.tcb.state)
              then fails_with (put_conn w (with_tcb c (record c.tcb { tcb_lock = true }))) enotconn
              else elim (cond_wait (put_conn w (start_close c)) p wake) [
                | none ↦ hangs (wake (put_conn w (start_close c)))
                | some w1 ↦
                    if is_closed (w1.tcbs p).state
                    then returns 0 [] (record w1 { sockets = set_conn_info sockfd 0 w1.sockets })
                    else failed w1
              ])
    ]
