-- ===== src/Socket/Lifetime.antt =====
-- src/tcp.c and src/anpwrapper.c: what happens to a connection, as a step relation.
use anp_netskeleton.Base.{ℕ, ◌≤◌, ◌≡◌, refl, ap, true, false, arith}
use anp_netskeleton.Memory.{Mem}
use anp_netskeleton.Tcp.{
  TcpState, syn_sent, syn_received, established, fin_wait_1, fin_wait_2, time_wait, closed, Conn,
  with_tcb, tcp_finack, retries_sendonce,
}
use anp_netskeleton.Tcp.Transmit.{send_segment, set_send_lock}
use anp_netskeleton.Tcp.Transmit.Empty.{tcp_tx_empty-SentEmpty}
use anp_netskeleton.Tcp.Packet.{create_tcp_packet, count_control, add_msg_to_arr}
use anp_netskeleton.Tcp.Buffer.{read_bytes}
use anp_netskeleton.Tcp.Buffer.Queue.{Fits, read_bytes-Fits}
use anp_netskeleton.Tcp.Retransmit.{stop_retransmit, close_conn}
use anp_netskeleton.Tcp.Receive.{Segment, segment_arrives}
use anp_netskeleton.Tcp.Receive.Diagram.{
  ◌⟶◌, stay, connect_done, crossed, accepted, fin_acked, fin_both, segment_arrives-⟶,
}
use anp_netskeleton.Tcp.Receive.Bounds.{segment_arrives-Fits}
use anp_netskeleton.Socket.{start_close}

-- One step: a segment arrives; a reader takes bytes; `tcp_tx` sends one segment; `close` begins, on an
-- established connection; the timer's `close_connection` runs, at any time.
infix 40 ◌⇒◌
pub data ◌⇒◌ : Conn → Conn → Type 0 where
  arrives : {c : Conn} (s : Segment) → c ⇒ segment_arrives c s
  reads : {c : Conn} (count : ℕ) → c ⇒ with_tcb c (read_bytes c.tcb count).1
  sends :
      {c : Conn} (source : Mem) (at size flags retries : ℕ)
      → c ⇒ set_send_lock false (send_segment (set_send_lock true c) source at size flags retries)
  closes : {c : Conn} → c.tcb.state ≡ established → c ⇒ start_close c
  expires : {c : Conn} → c ⇒ close_conn c

infix 40 ◌⇒*◌
pub data ◌⇒*◌ : Conn → Conn → Type 0 where
  here : {c : Conn} → c ⇒* c
  then_ : {c c' c'' : Conn} → c ⇒ c' → c' ⇒* c'' → c ⇒* c''

-- How far a connection has come. The states that a client does not reach have no place.
abbrev pub stage : TcpState → ℕ
stage syn_sent = 1
stage syn_received = 2
stage established = 3
stage fin_wait_1 = 4
stage fin_wait_2 = 5
stage time_wait = 6
stage closed = 7
stage _ = 0

-- From `c` to `c'` the connection has not gone back, and its receive buffer is not overrun.
abbrev pub Onward : Conn → Conn → Type 0
Onward c c' = (stage c.tcb.state ≤ stage c'.tcb.state) × Fits c'.tcb

⟶-stage : {st st' : TcpState} → st ⟶ st' → stage st ≤ stage st'
⟶-stage stay = omega arith
⟶-stage connect_done = omega arith
⟶-stage crossed = omega arith
⟶-stage accepted = omega arith
⟶-stage fin_acked = omega arith
⟶-stage fin_both = omega arith

stage-closed : (st : TcpState) → stage st ≤ 7
stage-closed syn_sent = omega arith
stage-closed syn_received = omega arith
stage-closed established = omega arith
stage-closed fin_wait_1 = omega arith
stage-closed fin_wait_2 = omega arith
stage-closed time_wait = omega arith
stage-closed closed = omega arith
stage-closed _ = omega arith

read_bytes-state : (c : Conn) (count : ℕ) → (read_bytes c.tcb count).1.state ≡ c.tcb.state
unfolding read_bytes
read_bytes-state c count = refl

send_segment-receiver :
    (c : Conn) (source : Mem) (at size flags retries : ℕ)
    → let c' = send_segment c source at size flags retries in
      (c'.tcb.state ≡ c.tcb.state) × (c'.tcb.rcv_buff_len ≡ c.tcb.rcv_buff_len)
unfolding send_segment create_tcp_packet count_control add_msg_to_arr
send_segment-receiver c source at size flags retries = ground arith

start_close-receiver :
    (c : Conn)
    → ((start_close c).tcb.state ≡ fin_wait_1)
      × ((start_close c).tcb.rcv_buff_len ≡ c.tcb.rcv_buff_len)
unfolding start_close
start_close-receiver c =
    let fin : Conn = with_tcb c (record c.tcb { state = fin_wait_1; tcb_lock = true }) in
    let sent = tcp_tx_empty-SentEmpty fin tcp_finack retries_sendonce refl in
    (sent.state, sent.rcv_buff_len)

close_conn-receiver :
    (c : Conn)
    → ((close_conn c).tcb.state ≡ closed) × ((close_conn c).tcb.rcv_buff_len ≡ c.tcb.rcv_buff_len)
unfolding close_conn stop_retransmit
close_conn-receiver c = (refl, refl)

⇒-Onward : {c c' : Conn} → c ⇒ c' → Fits c.tcb → Onward c c'
⇒-Onward {c} (arrives s) fits = (⟶-stage (segment_arrives-⟶ c s), segment_arrives-Fits c s fits)
⇒-Onward {c} (reads count) fits =
    (omega (arith, ap stage (read_bytes-state c count)), read_bytes-Fits c.tcb count fits)
⇒-Onward {c} (sends source at size flags retries) fits =
    let (state, len) = send_segment-receiver (set_send_lock true c) source at size flags retries in
    (omega (arith, ap stage state), omega (arith, len))
⇒-Onward {c} (closes est) fits =
    let (state, len) = start_close-receiver c in
    (omega (arith, ap stage est, ap stage state), omega (arith, len))
⇒-Onward {c} expires fits =
    let (state, len) = close_conn-receiver c in
    (omega (arith, stage-closed c.tcb.state, ap stage state), omega (arith, len))

-- Whatever happens to a connection, in whatever order and however often (segments arrive, bytes
-- are read, segments are sent, close begins while the connection is established, the timer closes
-- it), it never goes back in the order TCP_SYN_SENT, TCP_SYN_RECEIVED, TCP_ESTABLISHED,
-- TCP_FIN_WAIT_1, TCP_FIN_WAIT_2, TCP_TIME_WAIT, TCP_CLOSED, nor into one of the other states
-- from one of these, and the counter of the receive buffer stays within the buffer. The condition
-- is that the counter is within the buffer at the start.
pub ⇒*-Onward : {c c' : Conn} → c ⇒* c' → Fits c.tcb → Onward c c'
⇒*-Onward here fits = (omega arith, fits)
⇒*-Onward (then_ step rest) fits =
    let (first, fits') = ⇒-Onward step fits in
    let (later, fits'') = ⇒*-Onward rest fits' in (omega (arith, first, later), fits'')
