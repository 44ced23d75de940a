-- ===== src/Tcp/Receive/Diagram.antt =====
-- src/tcp.c, `tcp_rx`: the states that a connection goes through.
use anp_netskeleton.Base.{
  ◌≡◌, ◌⊎◌, ◌∙◌, sym, subst, refl, Bool, true, false, Bool-cases, inl, inr, if◌then◌else◌, arith,
}
use anp_netskeleton.Tcp.{
  TcpState, syn_sent, syn_received, established, fin_wait_1, fin_wait_2, closed, time_wait, Conn,
  has_flag, tcp_fin, tcp_syn, tcp_ack, tcp_synack, retries_sendonce, retries_conn_max,
}
use anp_netskeleton.Tcp.Transmit.Empty.{tcp_tx_empty-SentEmpty}
use anp_netskeleton.Tcp.Buffer.{save_data_and_ack}
use anp_netskeleton.Tcp.Retransmit.{stop_retransmit}
use anp_netskeleton.Tcp.Receive.{
  Segment, segment_arrives, rx_state, rx_ack, rx_syn, rx_syn_acked, rx_syn_crossed, rx_synack_acked,
  rx_ack_established, rx_text, rx_fin, unlock_rest, new_ack,
}
use anp_netskeleton.Tcp.Receive.Parts.{
  save_data_and_ack-Saved, rx_time_wait-state, rx_fin_plain, rx_fin_established, rx_fin_waiting,
  empty, out_of_order, in_order, text_case,
}

infix 40 ◌⟶◌
pub data ◌⟶◌ : TcpState → TcpState → Type 0 where
  stay : {s : TcpState} → s ⟶ s
  connect_done : syn_sent ⟶ established
  crossed : syn_sent ⟶ syn_received
  accepted : syn_received ⟶ established
  fin_acked : fin_wait_1 ⟶ fin_wait_2
  fin_both : fin_wait_1 ⟶ time_wait

rx_fin-established :
    (c : Conn) (s : Segment) → c.tcb.state ≡ established → (rx_fin c s).tcb.state ≡ established
rx_fin-established c s est = elim (Bool-cases (has_flag s.flags tcp_fin)) [
  | inl fin ↦ rw (rx_fin_established c s est fin) est
  | inr no_fin ↦ rw (rx_fin_plain c s no_fin) est
]

rx_text-established :
    (c : Conn) (s : Segment) → c.tcb.state ≡ established → (rx_text c s).tcb.state ≡ established
rx_text-established c s est = elim (text_case c s) [
  | empty _ e ↦ rw e (rx_fin-established c s est)
  | out_of_order _ _ e ↦ rw e est
  | in_order _ _ e ↦ rw e (
      rx_fin-established (save_data_and_ack c s.mem 54 s.segment_len s.flags) s
        ((save_data_and_ack-Saved c s.mem 54 s.segment_len s.flags).state ∙ est))
]

abbrev IsWaiting : TcpState → Type 0
IsWaiting st = (st ≡ fin_wait_2) ⊎ (st ≡ time_wait)

rx_fin-IsWaiting :
    (c : Conn) (s : Segment) → c.tcb.state ≡ fin_wait_2 → IsWaiting (rx_fin c s).tcb.state
rx_fin-IsWaiting c s waiting = elim (Bool-cases (has_flag s.flags tcp_fin)) [
  | inl fin ↦ inr (rw (rx_fin_waiting c s waiting fin) (rx_time_wait-state _).0)
  | inr no_fin ↦ inl (rw (rx_fin_plain c s no_fin) waiting)
]

rx_text-IsWaiting :
    (c : Conn) (s : Segment) → c.tcb.state ≡ fin_wait_2 → IsWaiting (rx_text c s).tcb.state
rx_text-IsWaiting c s waiting = elim (text_case c s) [
  | empty _ e ↦ rw e (rx_fin-IsWaiting c s waiting)
  | out_of_order _ _ e ↦ inl (rw e waiting)
  | in_order _ _ e ↦ rw e (
      rx_fin-IsWaiting (save_data_and_ack c s.mem 54 s.segment_len s.flags) s
        ((save_data_and_ack-Saved c s.mem 54 s.segment_len s.flags).state ∙ waiting))
]

rx_syn_acked-state : (c : Conn) (s : Segment) → (rx_syn_acked c s).tcb.state ≡ established
unfolding rx_syn_acked
rx_syn_acked-state c s = (tcp_tx_empty-SentEmpty _ tcp_ack retries_sendonce refl).state

rx_syn_crossed-state : (c : Conn) → (rx_syn_crossed c).tcb.state ≡ syn_received
unfolding rx_syn_crossed
rx_syn_crossed-state c = (tcp_tx_empty-SentEmpty _ tcp_synack retries_conn_max refl).state

rx_syn-⟶ : (c : Conn) (s : Segment) → syn_sent ⟶ (rx_syn c s).tcb.state
unfolding rx_syn
rx_syn-⟶ c s = split _ _
  where
    split :
        (b : Bool) (c' : Conn)
        → syn_sent ⟶ (if b then rx_syn_acked c' s else rx_syn_crossed c').tcb.state
    split true c' = subst (λ x. syn_sent ⟶ x) (sym (rx_syn_acked-state c' s)) connect_done
    split false c' = subst (λ x. syn_sent ⟶ x) (sym (rx_syn_crossed-state c')) crossed

rx_synack_acked-state : (c : Conn) (s : Segment) → (rx_synack_acked c s).tcb.state ≡ established
unfolding rx_synack_acked
rx_synack_acked-state c s = (tcp_tx_empty-SentEmpty _ tcp_ack retries_sendonce refl).state

rx_ack_established-state :
    (c : Conn) (s : Segment) → (rx_ack_established c s).tcb.state ≡ c.tcb.state
unfolding rx_ack_established stop_retransmit
rx_ack_established-state c s = ground arith

stay_at : {s t : TcpState} → t ≡ s → s ⟶ t
stay_at {s} e = subst (λ x. s ⟶ x) (sym e) stay

⟶-of_waiting : {st : TcpState} → IsWaiting st → fin_wait_1 ⟶ st
⟶-of_waiting (inl e) = subst (λ x. fin_wait_1 ⟶ x) (sym e) fin_acked
⟶-of_waiting (inr e) = subst (λ x. fin_wait_1 ⟶ x) (sym e) fin_both

rx_ack-⟶ :
    (st : TcpState) (c : Conn) (s : Segment) → c.tcb.state ≡ st → st ⟶ (rx_ack st c s).tcb.state
unfolding rx_ack unlock_rest
rx_ack-⟶ syn_received c s h = elim (Bool-cases (new_ack c s)) [
  | inl fresh ↦ rw fresh (
      subst (λ x. syn_received ⟶ x)
        (sym (rx_text-established (rx_synack_acked c s) s (rx_synack_acked-state c s))) accepted)
  | inr old ↦ rw old (stay_at h)
]
rx_ack-⟶ established c s h =
    stay_at (rx_text-established (rx_ack_established c s) s (rx_ack_established-state c s ∙ h))
rx_ack-⟶ fin_wait_1 c s h = ⟶-of_waiting (rx_text-IsWaiting _ s refl)
rx_ack-⟶ _ c s h = stay_at h

-- A state other than TCP_CLOSED and TCP_SYN_SENT wants ACK.
with_ack :
    (st : TcpState) (c : Conn) (s : Segment)
    → c.tcb.state ≡ st
    → st ⟶ (if has_flag s.flags tcp_ack then rx_ack st c s else unlock_rest false false c).tcb.state
unfolding unlock_rest
with_ack st c s h = elim (Bool-cases (has_flag s.flags tcp_ack)) [
  | inl ack ↦ rw ack (rx_ack-⟶ st c s h)
  | inr none ↦ rw none (stay_at h)
]

rx_state-⟶ :
    (st : TcpState) (c : Conn) (s : Segment) → c.tcb.state ≡ st → st ⟶ (rx_state st c s).tcb.state
unfolding rx_state unlock_rest
rx_state-⟶ closed c s h = stay_at h
rx_state-⟶ syn_sent c s h = elim (Bool-cases (has_flag s.flags tcp_syn)) [
  | inl syn ↦ rw syn (rx_syn-⟶ c s)
  | inr none ↦ rw none (stay_at h)
]
rx_state-⟶ st c s h = with_ack st c s h

-- Whatever segment arrives, the state stays or follows one of the five arrows of the diagram: from
-- TCP_SYN_SENT to TCP_ESTABLISHED or TCP_SYN_RECEIVED, from TCP_SYN_RECEIVED to TCP_ESTABLISHED, and
-- from TCP_FIN_WAIT_1 to TCP_FIN_WAIT_2 or TCP_TIME_WAIT.
pub segment_arrives-⟶ : (c : Conn) (s : Segment) → c.tcb.state ⟶ (segment_arrives c s).tcb.state
unfolding segment_arrives
segment_arrives-⟶ c s = rx_state-⟶ c.tcb.state _ s refl
