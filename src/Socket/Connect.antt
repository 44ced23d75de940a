-- ===== src/Socket/Connect.antt =====
-- src/anpwrapper.c, `connect`: from the SYN to the answer of the server.
use anp_netskeleton.Base.{
  ℕ, ◌+◌, ◌-◌, ◌<◌, ◌≡◌, ◌≢◌, ◌∙◌, sym, ap, refl, Bool, true, false, none, some, [], ◌==◌,
  if◌then◌else◌, update, u32, sub32, htonl, htons, arith,
}
use anp_netskeleton.Netdev.{RtEntry}
use anp_netskeleton.Route.{route_lookup}
use anp_netskeleton.Tcp.{
  syn_sent, established, Tcb, Conn, with_tcb, has_flag, tcp_syn, tcp_ack, retries_conn_max,
  retries_sendonce,
}
use anp_netskeleton.Tcp.Packet.{create_tcp_packet, count_control, add_msg_to_arr}
use anp_netskeleton.Tcp.Transmit.{send_segment, set_send_lock, tcp_tx_empty}
use anp_netskeleton.Tcp.Transmit.Empty.{tcp_tx_empty-SentEmpty, tcp_tx_empty-send_segment}
use anp_netskeleton.Tcp.Retransmit.{stop_retransmit}
use anp_netskeleton.Tcp.Receive.{
  Segment, segment_arrives, rx_syn, rx_syn_acked, rx_syn_crossed, set_tcb_lock,
}
use anp_netskeleton.Tcp.Receive.Handshake.{Opened, segment_arrives-Opened, rx_state-syn_sent}
use anp_netskeleton.World.{AnpSocket, World, conn_at, put_conn, get_anp_socket}
use anp_netskeleton.Socket.Wait.{cond_wait-signalled}
use anp_netskeleton.Socket.{
  returns, failed, connect, start_connect, init_tcb, new_tcb, get_port, set_conn_info,
  is_anp_sockfd, is_established, hangs, cond_wait,
}

tcp_tx_empty-snd_nxt :
    (c : Conn)
    → c.tcb.snd_nxt + 1 < 4294967296
    → (tcp_tx_empty c tcp_syn retries_conn_max).tcb.snd_nxt ≡ c.tcb.snd_nxt + 1
unfolding send_segment create_tcp_packet count_control add_msg_to_arr has_flag
tcp_tx_empty-snd_nxt c h =
    rw (tcp_tx_empty-send_segment c tcp_syn retries_conn_max refl) (ground arith)

-- The connection that waits for the answer.
start_connect-fields :
    (c : Conn)
    → c.tcb.snd_nxt + 1 < 4294967296
    → let c' = start_connect c in
      (c'.ptr ≡ c.ptr)
      × (c'.tcb.state ≡ syn_sent)
      × (c'.tcb.snd_nxt ≡ c.tcb.snd_nxt + 1)
      × (c'.tcb.snd_una ≡ c.tcb.snd_una)
      × (c'.tcb.iss ≡ c.tcb.iss)
unfolding start_connect
start_connect-fields c h =
    let locked : Conn = with_tcb c (record c.tcb { tcb_lock = true }) in
    let sent = tcp_tx_empty-SentEmpty locked tcp_syn retries_conn_max refl in
    (sent.ptr, refl, tcp_tx_empty-snd_nxt locked h, sent.snd_una, sent.iss)

rx_syn_acked-ptr : (c : Conn) (s : Segment) → (rx_syn_acked c s).ptr ≡ c.ptr
unfolding rx_syn_acked
rx_syn_acked-ptr c s = (tcp_tx_empty-SentEmpty _ tcp_ack retries_sendonce refl).ptr

rx_syn_crossed-ptr : (c : Conn) → (rx_syn_crossed c).ptr ≡ c.ptr
unfolding rx_syn_crossed
rx_syn_crossed-ptr c = (tcp_tx_empty-SentEmpty _ 18 retries_conn_max refl).ptr

rx_syn-ptr : (c : Conn) (s : Segment) → (rx_syn c s).ptr ≡ c.ptr
unfolding rx_syn stop_retransmit
rx_syn-ptr c s = branch _ _ refl
  where
    branch :
        (b : Bool) (c' : Conn)
        → c'.ptr ≡ c.ptr
        → (if b then rx_syn_acked c' s else rx_syn_crossed c').ptr ≡ c.ptr
    branch true c' e = rx_syn_acked-ptr c' s ∙ e
    branch false c' e = rx_syn_crossed-ptr c' ∙ e

segment_arrives-ptr :
    (c : Conn) (s : Segment)
    → c.tcb.state ≡ syn_sent
    → has_flag s.flags tcp_syn ≡ true
    → (segment_arrives c s).ptr ≡ c.ptr
unfolding segment_arrives
segment_arrives-ptr c s state syn =
    simp (rx_state-syn_sent c.tcb.state (set_send_lock true (set_tcb_lock true c)) s state syn)
      (rx_syn-ptr (set_send_lock true (set_tcb_lock true c)) s)

-- The connection once the answer has come.
start_connect-Opened :
    (c : Conn) (s : Segment)
    → 0 < c.tcb.iss
    → c.tcb.iss + 1 < 4294967296
    → c.tcb.snd_nxt ≡ c.tcb.iss
    → c.tcb.snd_una ≡ c.tcb.iss - 1
    → has_flag s.flags tcp_syn ≡ true
    → has_flag s.flags tcp_ack ≡ true
    → s.ack_num ≡ c.tcb.iss + 1
    → Opened (start_connect c).tcb.tcb_cond (segment_arrives (start_connect c) s) s
      × ((segment_arrives (start_connect c) s).ptr ≡ c.ptr)
start_connect-Opened c s positive small nxt una syn ack answer =
    let (ptr, state, nxt', una', iss') = start_connect-fields c (omega arith) in
    (
      segment_arrives-Opened (start_connect c) s state syn ack (omega (arith, una', una, answer))
          (omega (arith, nxt', nxt, answer)) (omega (arith, iss', answer)),
      segment_arrives-ptr (start_connect c) s state syn ∙ ptr,
    )

-- What the receiving thread does with a segment of the connection at `p`.
abbrev pub answered : ℕ → Segment → World → World
answered p s w = put_conn w (segment_arrives (conn_at w p) s)

-- The world in front of the SYN: the control block is filled in.
unfoldable pub prepared : World → ℕ → ℕ → ℕ → RtEntry → ℕ → World
prepared w sockfd sin_port sin_addr rt iss =
    let p : ℕ = w.fresh in
    let (port, w1) = get_port w in
    let t : Tcb = new_tcb port (htons sin_port) (htonl sin_addr) in
    record w1 {
      room = w.room - 1;
      fresh = p + 1;
      sockets = set_conn_info sockfd p w1.sockets;
      tcbs = update (update w1.tcbs p t) p (init_tcb t rt.dev.addr iss);
    }

connect-prepared :
    (w : World) (sockfd sin_port sin_addr iss : ℕ) (wake : World → World) (sock : AnpSocket)
    (rt : RtEntry)
    → is_anp_sockfd w sockfd ≡ true
    → get_anp_socket w.sockets sockfd ≡ some sock
    → w.room ≢ 0
    → route_lookup w.net.routes (htonl sin_addr) ≡ some rt
    → let w3 = prepared w sockfd sin_port sin_addr rt iss in
      let w4 = put_conn w3 (start_connect (conn_at w3 w.fresh)) in
      connect w sockfd sin_port sin_addr iss wake ≡ elim (cond_wait w4 w.fresh wake) [
        | none ↦ hangs (wake w4)
        | some w5 ↦ if is_established (w5.tcbs w.fresh).state then returns 0 [] w5 else failed w5
      ]
unfolding connect prepared new_tcb
connect-prepared w sockfd sin_port sin_addr iss wake sock rt ours found some_ route =
    let room : (w.room == 0) ≡ false = ground arith in rw (ours, found, room, route) refl

update-same : (f : ℕ → Tcb) (a b : ℕ) (t : Tcb) → a ≡ b → update f a t b ≡ t
update-same f a b t e = let same : (b == a) ≡ true = ground arith in rw same refl

prepared-numbers :
    (w : World) (sockfd sin_port sin_addr : ℕ) (rt : RtEntry) (iss : ℕ)
    → let t = (prepared w sockfd sin_port sin_addr rt iss).tcbs w.fresh in
      (t.iss ≡ iss) × (t.snd_nxt ≡ iss) × (t.snd_una ≡ sub32 iss 1)
unfolding prepared init_tcb
prepared-numbers w sockfd sin_port sin_addr rt iss =
    let same : (w.fresh == w.fresh) ≡ true = ground arith in rw same (refl, refl, refl)

conn_at-put_conn : (w : World) (c : Conn) (p : ℕ) → c.ptr ≡ p → conn_at (put_conn w c) p ≡ c
conn_at-put_conn w c p e =
    let same : update w.tcbs c.ptr c.tcb p ≡ c.tcb = update-same w.tcbs c.ptr p c.tcb e in
    ap (λ q. record c { ptr = q; tcb = update w.tcbs c.ptr c.tcb p }) (sym e) ∙ ap (with_tcb c) same

-- The control block at `p` after the answer to a connection that stands there.
answered-tcb :
    (w : World) (c : Conn) (p : ℕ) (s : Segment)
    → c.ptr ≡ p
    → (segment_arrives c s).ptr ≡ p
    → (answered p s (put_conn w c)).tcbs p ≡ (segment_arrives c s).tcb
answered-tcb w c p s here there =
    simp (conn_at-put_conn w c p here)
      (update-same (put_conn w c).tcbs (segment_arrives c s).ptr p (segment_arrives c s).tcb there)

-- A call of `connect` on a new socket, to an address with a route and with memory left, during whose
-- wait the server's SYN-ACK arrives with the acknowledgment of our SYN, returns 0. The connection at
-- the new control block is then open: its state is TCP_ESTABLISHED, its numbers and its window are
-- those of the answer, and `tcb_lock` is free. (The initial number is not 0, and below 2 ^ 32 - 1.)
pub connect-established :
    (w : World) (sockfd sin_port sin_addr iss : ℕ) (sock : AnpSocket) (rt : RtEntry) (s : Segment)
    → is_anp_sockfd w sockfd ≡ true
    → get_anp_socket w.sockets sockfd ≡ some sock
    → w.room ≢ 0
    → route_lookup w.net.routes (htonl sin_addr) ≡ some rt
    → 0 < iss
    → iss + 1 < 4294967296
    → has_flag s.flags tcp_syn ≡ true
    → has_flag s.flags tcp_ack ≡ true
    → s.ack_num ≡ iss + 1
    → (w' : World) × (connect w sockfd sin_port sin_addr iss (answered w.fresh s) ≡ returns 0 [] w')
      × ((w'.tcbs w.fresh).state ≡ established)
      × ((w'.tcbs w.fresh).rcv_nxt ≡ u32 (s.seq_num + 1))
      × ((w'.tcbs w.fresh).snd_una ≡ iss + 1)
      × ((w'.tcbs w.fresh).snd_wnd ≡ s.window_size)
      × ((w'.tcbs w.fresh).tcb_lock ≡ false)
connect-established w sockfd sin_port sin_addr iss sock rt s ours found some_ route positive small
      syn ack answer =
    let w3 : World = prepared w sockfd sin_port sin_addr rt iss in
    let c : Conn = conn_at w3 w.fresh in
    let w4 : World = put_conn w3 (start_connect c) in
    let w5 : World = answered w.fresh s w4 in
    let (iss', nxt, una) = prepared-numbers w sockfd sin_port sin_addr rt iss in
    let (ptr, _, _, _, _) = start_connect-fields c (omega (arith, nxt)) in
    let (opened, there) =
      start_connect-Opened c s (omega (arith, iss')) (omega (arith, iss')) (nxt ∙ sym iss')
        (omega (arith, una, iss')) syn ack (omega (arith, answer, iss')) in
    let before : w4.tcbs w.fresh ≡ (start_connect c).tcb =
      update-same w3.tcbs (start_connect c).ptr w.fresh (start_connect c).tcb ptr in
    let e : w5.tcbs w.fresh ≡ (segment_arrives (start_connect c) s).tcb =
      answered-tcb w3 (start_connect c) w.fresh s ptr there in
    let est : (w5.tcbs w.fresh).state ≡ established = ap (λ t. t.state) e ∙ opened.state in
    let free : (w5.tcbs w.fresh).tcb_lock ≡ false = ap (λ t. t.tcb_lock) e ∙ opened.tcb_free in
    let rung : (w5.tcbs w.fresh).tcb_cond ≡ (w4.tcbs w.fresh).tcb_cond + 1 =
      ap (λ t. t.tcb_cond) e ∙ opened.signalled ∙ ap (λ t. t.tcb_cond + 1) (sym before) in
    let woken : cond_wait w4 w.fresh (answered w.fresh s) ≡ some w5 =
      cond_wait-signalled w4 w.fresh (answered w.fresh s) (λ same. omega (arith, rung, same))
        free in
    (
      w5,
      connect-prepared w sockfd sin_port sin_addr iss (answered w.fresh s) sock rt ours found some_
            route
          ∙ rw (woken, est) refl,
      est,
      ap (λ t. t.rcv_nxt) e ∙ opened.rcv_nxt,
      ap (λ t. t.snd_una) e ∙ opened.snd_una ∙ answer,
      ap (λ t. t.snd_wnd) e ∙ opened.snd_wnd,
      free,
    )
