-- ===== src/Tcp/Receive/Bounds.antt =====
-- src/tcp.c, `tcp_rx`: the counter of the receive buffer.
use anp_netskeleton.Base.{
  ℕ, ◌+◌, ◌≤◌, ◌≡◌, sym, subst, refl, Bool, true, false, Bool-cases, inl, inr, if◌then◌else◌, u32,
  ltb, arith,
}
use anp_netskeleton.Tcp.{
  TcpState, syn_sent, syn_received, established, fin_wait_1, fin_wait_2, closed, time_wait, Conn,
  with_tcb, has_flag, tcp_fin, tcp_syn, tcp_ack, tcp_synack, tcp_rcv_max, retries_sendonce,
  retries_conn_max,
}
use anp_netskeleton.Tcp.Transmit.{set_send_lock}
use anp_netskeleton.Tcp.Transmit.Empty.{tcp_tx_empty-SentEmpty}
use anp_netskeleton.Tcp.Buffer.{save_data_and_ack}
use anp_netskeleton.Tcp.Buffer.Queue.{Fits, append_data-contents}
use anp_netskeleton.Tcp.Retransmit.{stop_retransmit}
use anp_netskeleton.Tcp.Receive.{
  Segment, segment_arrives, rx_state, rx_ack, rx_syn, rx_syn_acked, rx_syn_crossed, rx_synack_acked,
  rx_ack_established, rx_text, rx_fin, rx_fin_state, rx_time_wait, is_closed_or_syn_sent,
  unlock_rest, new_ack, acceptable, set_state,
}
use anp_netskeleton.Tcp.Receive.Parts.{
  save_data_and_ack-Saved, empty, out_of_order, in_order, text_case,
}

-- The counter does not move.
abbrev SameLen : Conn → Conn → Type 0
SameLen c c' = c'.tcb.rcv_buff_len ≡ c.tcb.rcv_buff_len

rx_time_wait-SameLen : (c : Conn) → SameLen c (rx_time_wait c)
unfolding rx_time_wait
rx_time_wait-SameLen c =
    (tcp_tx_empty-SentEmpty (set_state time_wait c) tcp_ack retries_sendonce refl).rcv_buff_len

rx_fin_state-SameLen : (st : TcpState) (c : Conn) → SameLen c (rx_fin_state st c)
unfolding rx_fin_state
rx_fin_state-SameLen fin_wait_1 c = rx_time_wait-SameLen c
rx_fin_state-SameLen fin_wait_2 c = rx_time_wait-SameLen c
rx_fin_state-SameLen _ c = refl

rx_fin-SameLen : (c : Conn) (s : Segment) → SameLen c (rx_fin c s)
unfolding rx_fin unlock_rest
rx_fin-SameLen c s = split (is_closed_or_syn_sent c.tcb.state) (has_flag s.flags tcp_fin)
  where
    split :
        (b b' : Bool)
        → SameLen c (
            if b
            then unlock_rest false true c
            else if b'
            then rx_fin_state c.tcb.state
                (with_tcb c (record c.tcb { rcv_nxt = u32 (c.tcb.rcv_nxt + 1) }))
            else unlock_rest false true c)
    split true b' = refl
    split false true =
        rx_fin_state-SameLen c.tcb.state
          (with_tcb c (record c.tcb { rcv_nxt = u32 (c.tcb.rcv_nxt + 1) }))
    split false false = refl

Fits-SameLen : (c c' : Conn) → SameLen c c' → Fits c.tcb → Fits c'.tcb
Fits-SameLen c c' same fits = subst (λ n. n ≤ tcp_rcv_max) (sym same) fits

rx_text-Fits : (c : Conn) (s : Segment) → Fits c.tcb → Fits (rx_text c s).tcb
rx_text-Fits c s fits = elim (text_case c s) [
  | empty _ e ↦ rw e (Fits-SameLen c (rx_fin c s) (rx_fin-SameLen c s) fits)
  | out_of_order _ _ e ↦ rw e fits
  | in_order _ _ e ↦
      let c' : Conn = save_data_and_ack c s.mem 54 s.segment_len s.flags in
      let saved = save_data_and_ack-Saved c s.mem 54 s.segment_len s.flags in
      let (_, grown, _) = append_data-contents c.tcb s.mem 54 s.segment_len fits in
      rw e (
        Fits-SameLen c' (rx_fin c' s) (rx_fin-SameLen c' s)
          (subst (λ n. n ≤ tcp_rcv_max) (sym saved.rcv_buff_len) grown))
]

rx_syn_acked-SameLen : (c : Conn) (s : Segment) → SameLen c (rx_syn_acked c s)
unfolding rx_syn_acked
rx_syn_acked-SameLen c s = (tcp_tx_empty-SentEmpty _ tcp_ack retries_sendonce refl).rcv_buff_len

rx_syn_crossed-SameLen : (c : Conn) → SameLen c (rx_syn_crossed c)
unfolding rx_syn_crossed
rx_syn_crossed-SameLen c = (tcp_tx_empty-SentEmpty _ tcp_synack retries_conn_max refl).rcv_buff_len

rx_syn-SameLen : (c : Conn) (s : Segment) → SameLen c (rx_syn c s)
unfolding rx_syn stop_retransmit
rx_syn-SameLen c s =
    let una : ℕ = if acceptable c s then s.ack_num else c.tcb.snd_una in
    let c' : Conn = stop_retransmit (
      with_tcb c
        (record c.tcb { rcv_nxt = u32 (s.seq_num + 1); irs = s.seq_num; snd_una = una })) in
    elim (Bool-cases (ltb c'.tcb.iss c'.tcb.snd_una)) [
      | inl ours ↦ rw (rx_syn, ours) (rx_syn_acked-SameLen c' s)
      | inr both ↦ rw (rx_syn, both) (rx_syn_crossed-SameLen c')
    ]

rx_synack_acked-SameLen : (c : Conn) (s : Segment) → SameLen c (rx_synack_acked c s)
unfolding rx_synack_acked stop_retransmit
rx_synack_acked-SameLen c s = (tcp_tx_empty-SentEmpty _ tcp_ack retries_sendonce refl).rcv_buff_len

rx_ack_established-SameLen : (c : Conn) (s : Segment) → SameLen c (rx_ack_established c s)
unfolding rx_ack_established stop_retransmit
rx_ack_established-SameLen c s = ground arith

rx_ack-Fits : (st : TcpState) (c : Conn) (s : Segment) → Fits c.tcb → Fits (rx_ack st c s).tcb
unfolding rx_ack unlock_rest
rx_ack-Fits syn_received c s fits = elim (Bool-cases (new_ack c s)) [
  | inl fresh ↦ rw fresh (
      rx_text-Fits (rx_synack_acked c s) s
        (Fits-SameLen c (rx_synack_acked c s) (rx_synack_acked-SameLen c s) fits))
  | inr old ↦ rw old fits
]
rx_ack-Fits established c s fits =
    rx_text-Fits (rx_ack_established c s) s
      (Fits-SameLen c (rx_ack_established c s) (rx_ack_established-SameLen c s) fits)
rx_ack-Fits fin_wait_1 c s fits = rx_text-Fits (set_send_lock false (set_state fin_wait_2 c)) s fits
rx_ack-Fits _ c s fits = fits

with_ack-Fits :
    (st : TcpState) (c : Conn) (s : Segment)
    → Fits c.tcb
    → Fits (if has_flag s.flags tcp_ack then rx_ack st c s else unlock_rest false false c).tcb
unfolding unlock_rest
with_ack-Fits st c s fits = elim (Bool-cases (has_flag s.flags tcp_ack)) [
  | inl ack ↦ rw ack (rx_ack-Fits st c s fits)
  | inr none ↦ rw none fits
]

rx_state-Fits : (st : TcpState) (c : Conn) (s : Segment) → Fits c.tcb → Fits (rx_state st c s).tcb
unfolding rx_state unlock_rest
rx_state-Fits closed c s fits = fits
rx_state-Fits syn_sent c s fits = elim (Bool-cases (has_flag s.flags tcp_syn)) [
  | inl syn ↦ rw syn (Fits-SameLen c (rx_syn c s) (rx_syn-SameLen c s) fits)
  | inr none ↦ rw none fits
]
rx_state-Fits st c s fits = with_ack-Fits st c s fits

-- Whatever segment arrives, the counter of the receive buffer stays within the buffer: if it was
-- at most 65535 before, it is so afterwards.
pub segment_arrives-Fits : (c : Conn) (s : Segment) → Fits c.tcb → Fits (segment_arrives c s).tcb
unfolding segment_arrives
segment_arrives-Fits c s fits = rx_state-Fits c.tcb.state _ s fits
