-- ===== src/Tcp/Receive.antt =====
-- src/tcp.c, `tcp_rx`, from the lookup of the control block on: the state machine of a connection.
-- `Segment` is what `tcp_rx` has read of the packet, in host byte order.
pub mod Parts
pub mod Handshake
pub mod Locks
pub mod Diagram
pub mod Data
pub mod Bounds
pub mod Progress
pub mod Order
pub mod GoBackN
pub mod Pieces
pub mod Signal
pub mod Peer
use anp_netskeleton.Base.{
  ℕ, ◌+◌, ◌-◌, ◌*◌, ◌/◌, Bool, true, false, ◌&&◌, ◌||◌, ◌==◌, ltb, leb, if◌then◌else◌, not, u32,
  htons, htonl, int_to_u32, sub32,
}
use anp_netskeleton.Memory.{Mem, load8, load16, load32}
use anp_netskeleton.Ip.{ip_payload_len}
use anp_netskeleton.Timer.{timer_oneshot}
use anp_netskeleton.Tcp.{
  TcpState, listen, syn_sent, syn_received, established, fin_wait_1, fin_wait_2, closed, close_wait,
  closing, last_ack, time_wait, Tcb, Conn, close_connection, with_tcb, has_flag, tcp_fin, tcp_syn,
  tcp_ack, tcp_synack, retries_conn_max, retries_sendonce, tcp_wait_time,
}
use anp_netskeleton.Tcp.Transmit.{set_send_lock, tcp_tx_empty}
use anp_netskeleton.Tcp.Buffer.{signal_tcb, save_data_and_ack}
use anp_netskeleton.Tcp.Retransmit.{stop_retransmit}

pub record Segment : Type 0 where
  pub mem : Mem
  pub flags : ℕ
  pub seq_num : ℕ
  pub ack_num : ℕ
  pub window_size : ℕ
  pub segment_len : ℕ  -- uint32_t

-- `tcp_ptr->data_offset >> 4` counts words of the header.
unfoldable pub segment_of : Mem → Segment
segment_of m = record {
  mem = m;
  flags = load8 m 47;
  seq_num = htonl (load32 m 38);
  ack_num = htonl (load32 m 42);
  window_size = htons (load16 m 48);
  segment_len = sub32 (int_to_u32 (ip_payload_len m)) (load8 m 46 / 16 * 4);
}

abbrev pub set_tcb_lock : Bool → Conn → Conn
set_tcb_lock b c = with_tcb c (record c.tcb { tcb_lock = b })

abbrev pub set_state : TcpState → Conn → Conn
set_state s c = with_tcb c (record c.tcb { state = s })

-- The label `drop_pkt`, and the end of the function: what is still locked is unlocked.
unfoldable pub unlock_rest : Bool → Bool → Conn → Conn
unlock_rest unlocked_tcb unlocked_send c =
    let c' : Conn = if unlocked_tcb then c else set_tcb_lock false c in
    if unlocked_send then c' else set_send_lock false c'

abbrev pub acceptable : Conn → Segment → Bool
acceptable c s =
    has_flag s.flags tcp_ack && (leb c.tcb.snd_una s.ack_num && leb s.ack_num c.tcb.snd_nxt)

-- The acknowledgment is of something new.
abbrev pub new_ack : Conn → Segment → Bool
new_ack c s = ltb c.tcb.snd_una s.ack_num && leb s.ack_num c.tcb.snd_nxt

-- The two ends of `rx_syn`: our SYN is acknowledged, or both sides have sent one.
unfoldable pub rx_syn_acked : Conn → Segment → Conn
rx_syn_acked c s =
    let c' : Conn =
      set_send_lock false
        (with_tcb c (record c.tcb { snd_wnd = s.window_size; state = established })) in
    let sent : Conn = tcp_tx_empty c' tcp_ack retries_sendonce in
    set_tcb_lock false (with_tcb sent (signal_tcb sent.tcb))

unfoldable pub rx_syn_crossed : Conn → Conn
rx_syn_crossed c =
    let c' : Conn =
      set_send_lock false
        (with_tcb c (record c.tcb { state = syn_received; snd_nxt = c.tcb.iss })) in
    set_tcb_lock false (tcp_tx_empty c' tcp_synack retries_conn_max)

-- A segment with SYN in TCP_SYN_SENT.
unfoldable pub rx_syn : Conn → Segment → Conn
rx_syn c s =
    let una : ℕ = if acceptable c s then s.ack_num else c.tcb.snd_una in
    let c' : Conn = stop_retransmit (
      with_tcb c
        (record c.tcb { rcv_nxt = u32 (s.seq_num + 1); irs = s.seq_num; snd_una = una })) in
    if ltb c'.tcb.iss c'.tcb.snd_una then rx_syn_acked c' s else rx_syn_crossed c'

-- Both branches of the FIN processing that change the state.
unfoldable pub rx_time_wait : Conn → Conn
rx_time_wait c =
    let c' : Conn =
      set_tcb_lock false (tcp_tx_empty (set_state time_wait c) tcp_ack retries_sendonce) in
    record c' { timers = timer_oneshot c'.timers tcp_wait_time (close_connection c'.ptr) }

unfoldable pub rx_fin_state : TcpState → Conn → Conn
rx_fin_state fin_wait_1 c = rx_time_wait c
rx_fin_state fin_wait_2 c = rx_time_wait c
rx_fin_state _ c = c

abbrev pub is_closed_or_syn_sent : TcpState → Bool
is_closed_or_syn_sent closed = true
is_closed_or_syn_sent syn_sent = true
is_closed_or_syn_sent _ = false

-- From the check of the FIN bit to the end. `send_lock` has been released.
unfoldable pub rx_fin : Conn → Segment → Conn
rx_fin c s =
    if is_closed_or_syn_sent c.tcb.state
    then unlock_rest false true c
    else if has_flag s.flags tcp_fin
    then rx_fin_state c.tcb.state (with_tcb c (record c.tcb { rcv_nxt = u32 (c.tcb.rcv_nxt + 1) }))
    else unlock_rest false true c

-- The segment text.
unfoldable pub rx_text : Conn → Segment → Conn
rx_text c s =
    if s.segment_len == 0
    then rx_fin c s
    else if not (s.seq_num == c.tcb.rcv_nxt)
    then unlock_rest false true c
    else rx_fin (save_data_and_ack c s.mem 54 s.segment_len s.flags) s

-- Our SYN in TCP_SYN_RECEIVED is acknowledged.
unfoldable pub rx_synack_acked : Conn → Segment → Conn
rx_synack_acked c s =
    let stopped : Conn = stop_retransmit c in
    let c' : Conn =
      set_send_lock false
        (with_tcb stopped (record stopped.tcb { state = established; snd_wnd = s.window_size })) in
    let sent : Conn = tcp_tx_empty c' tcp_ack retries_sendonce in
    with_tcb sent (signal_tcb sent.tcb)

-- The acknowledgment and the window in TCP_ESTABLISHED.
unfoldable pub rx_ack_established : Conn → Segment → Conn
rx_ack_established c s =
    let c' : Conn =
      if new_ack c s
      then stop_retransmit (with_tcb c (record c.tcb { snd_una = s.ack_num }))
      else c in
    with_tcb c' (record c'.tcb {
      snd_wnd = s.window_size;
      send_cond = c'.tcb.send_cond + 1;
      send_lock = false;
    })

-- The `switch` on the state, for a segment with ACK.
unfoldable pub rx_ack : TcpState → Conn → Segment → Conn
rx_ack syn_received c s =
    if new_ack c s then rx_text (rx_synack_acked c s) s else unlock_rest false false c
rx_ack established c s = rx_text (rx_ack_established c s) s
rx_ack fin_wait_1 c s = rx_text (set_send_lock false (set_state fin_wait_2 c)) s
rx_ack _ c s = unlock_rest false false c

unfoldable pub rx_state : TcpState → Conn → Segment → Conn
rx_state closed c s = unlock_rest false false c
rx_state syn_sent c s = if has_flag s.flags tcp_syn then rx_syn c s else unlock_rest false false c
rx_state st c s = if has_flag s.flags tcp_ack then rx_ack st c s else unlock_rest false false c

-- From the point where both locks have been taken.
unfoldable pub segment_arrives : Conn → Segment → Conn
segment_arrives c s =
    let locked : Conn = set_send_lock true (set_tcb_lock true c) in
    rx_state locked.tcb.state locked s
