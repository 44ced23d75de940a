-- ===== src/Tcp/Receive/Locks.antt =====
-- src/tcp.c, `tcp_rx`: which locks are held when it returns.
use anp_netskeleton.Base.{
  ℕ, ◌+◌, ◌≡◌, ◌≢◌, ◌⊎◌, ◌∙◌, refl, sym, Bool, true, false, Bool-cases, inl, inr, if◌then◌else◌,
  u32, arith,
}
use anp_netskeleton.Tcp.{
  TcpState, syn_sent, syn_received, established, fin_wait_1, fin_wait_2, closed, Conn, with_tcb,
  has_flag, tcp_fin, tcp_syn, tcp_ack, tcp_synack, retries_sendonce, retries_conn_max,
}
use anp_netskeleton.Tcp.Transmit.{set_send_lock}
use anp_netskeleton.Tcp.Transmit.Empty.{tcp_tx_empty-SentEmpty}
use anp_netskeleton.Tcp.Buffer.{save_data_and_ack}
use anp_netskeleton.Tcp.Retransmit.{stop_retransmit}
use anp_netskeleton.Tcp.Receive.{
  Segment, segment_arrives, rx_state, rx_ack, rx_syn, rx_syn_acked, rx_syn_crossed, rx_synack_acked,
  rx_ack_established, rx_text, rx_fin, unlock_rest, set_tcb_lock, new_ack, rx_time_wait,
}
use anp_netskeleton.Tcp.Receive.Parts.{
  save_data_and_ack-Saved, rx_time_wait-state, rx_fin_plain, rx_fin_established, rx_fin_waiting,
  empty, out_of_order, in_order, text_case,
}

-- Neither mutex of the connection is held.
abbrev pub Unlocked : Conn → Type 0
Unlocked c = (c.tcb.tcb_lock ≡ false) × (c.tcb.send_lock ≡ false)

-- Where the FIN of a segment is handled without a lock that stays: there is none, or the connection
-- has sent its own.
abbrev FinSafe : Conn → Segment → Type 0
FinSafe c s = (has_flag s.flags tcp_fin ≡ false) ⊎ (c.tcb.state ≡ fin_wait_2)

rx_time_wait-Unlocked : (c : Conn) → Unlocked (rx_time_wait c)
rx_time_wait-Unlocked c = let (_, a, b) = rx_time_wait-state c in (a, b)

rx_fin-Unlocked :
    (c : Conn) (s : Segment) → FinSafe c s → c.tcb.send_lock ≡ false → Unlocked (rx_fin c s)
rx_fin-Unlocked c s (inl no_fin) free = rw (rx_fin_plain c s no_fin) (refl, free)
rx_fin-Unlocked c s (inr waiting) free = elim (Bool-cases (has_flag s.flags tcp_fin)) [
  | inl fin ↦
      rw (rx_fin_waiting c s waiting fin)
        (rx_time_wait-Unlocked (with_tcb c (record c.tcb { rcv_nxt = u32 (c.tcb.rcv_nxt + 1) })))
  | inr no_fin ↦ rw (rx_fin_plain c s no_fin) (refl, free)
]

FinSafe-moved :
    (c c' : Conn) (s : Segment) → c'.tcb.state ≡ c.tcb.state → FinSafe c s → FinSafe c' s
FinSafe-moved c c' s e (inl no_fin) = inl no_fin
FinSafe-moved c c' s e (inr waiting) = inr (e ∙ waiting)

rx_text-Unlocked :
    (c : Conn) (s : Segment) → FinSafe c s → c.tcb.send_lock ≡ false → Unlocked (rx_text c s)
rx_text-Unlocked c s safe free = elim (text_case c s) [
  | empty _ e ↦ rw e (rx_fin-Unlocked c s safe free)
  | out_of_order _ _ e ↦ rw e (refl, free)
  | in_order _ _ e ↦
      let saved = save_data_and_ack-Saved c s.mem 54 s.segment_len s.flags in
      let c' : Conn = save_data_and_ack c s.mem 54 s.segment_len s.flags in
      rw e (rx_fin-Unlocked c' s (FinSafe-moved c c' s saved.state safe) (saved.send_lock free))
]

rx_syn_acked-Unlocked : (c : Conn) (s : Segment) → Unlocked (rx_syn_acked c s)
unfolding rx_syn_acked
rx_syn_acked-Unlocked c s =
    (refl, (tcp_tx_empty-SentEmpty _ tcp_ack retries_sendonce refl).send_lock)

rx_syn_crossed-Unlocked : (c : Conn) → Unlocked (rx_syn_crossed c)
unfolding rx_syn_crossed
rx_syn_crossed-Unlocked c =
    (refl, (tcp_tx_empty-SentEmpty _ tcp_synack retries_conn_max refl).send_lock)

rx_syn-Unlocked : (c : Conn) (s : Segment) → Unlocked (rx_syn c s)
unfolding rx_syn
rx_syn-Unlocked c s = split _ _
  where
    split : (b : Bool) (c' : Conn) → Unlocked (if b then rx_syn_acked c' s else rx_syn_crossed c')
    split true c' = rx_syn_acked-Unlocked c' s
    split false c' = rx_syn_crossed-Unlocked c'

rx_synack_acked-send_lock : (c : Conn) (s : Segment) → (rx_synack_acked c s).tcb.send_lock ≡ false
unfolding rx_synack_acked
rx_synack_acked-send_lock c s = (tcp_tx_empty-SentEmpty _ tcp_ack retries_sendonce refl).send_lock

rx_ack_established-send_lock :
    (c : Conn) (s : Segment) → (rx_ack_established c s).tcb.send_lock ≡ false
unfolding rx_ack_established
rx_ack_established-send_lock c s = refl

-- A segment with ACK in TCP_ESTABLISHED.
pub rx_state-established :
    (st : TcpState) (c : Conn) (s : Segment)
    → st ≡ established
    → has_flag s.flags tcp_ack ≡ true
    → rx_state st c s ≡ rx_text (rx_ack_established c s) s
unfolding rx_state rx_ack
rx_state-established st c s e ack = rw (e, ack) refl

-- What the theorem below asks for, on the state that the switch looks at.
abbrev Allowed : TcpState → Segment → Type 0
Allowed st s = (has_flag s.flags tcp_fin ≡ false) ⊎ (st ≢ established) × (st ≢ syn_received)

FinSafe-of_established : (c : Conn) (s : Segment) → Allowed established s → FinSafe c s
FinSafe-of_established c s (inl no_fin) = inl no_fin
FinSafe-of_established c s (inr (not_est, _)) = elim (not_est refl) [ ]

FinSafe-of_received : (c : Conn) (s : Segment) → Allowed syn_received s → FinSafe c s
FinSafe-of_received c s (inl no_fin) = inl no_fin
FinSafe-of_received c s (inr (_, not_received)) = elim (not_received refl) [ ]

rx_ack-Unlocked : (st : TcpState) (c : Conn) (s : Segment) → Allowed st s → Unlocked (rx_ack st c s)
unfolding rx_ack unlock_rest
rx_ack-Unlocked syn_received c s h = elim (Bool-cases (new_ack c s)) [
  | inl fresh ↦ rw fresh (
      rx_text-Unlocked (rx_synack_acked c s) s (FinSafe-of_received (rx_synack_acked c s) s h)
        (rx_synack_acked-send_lock c s))
  | inr old ↦ rw old (refl, refl)
]
rx_ack-Unlocked established c s h =
    rx_text-Unlocked (rx_ack_established c s) s
      (FinSafe-of_established (rx_ack_established c s) s h) (rx_ack_established-send_lock c s)
rx_ack-Unlocked fin_wait_1 c s h = rx_text-Unlocked _ s (inr refl) refl
rx_ack-Unlocked _ c s h = (refl, refl)

with_ack-Unlocked :
    (st : TcpState) (c : Conn) (s : Segment)
    → Allowed st s
    → Unlocked (if has_flag s.flags tcp_ack then rx_ack st c s else unlock_rest false false c)
unfolding unlock_rest
with_ack-Unlocked st c s h = elim (Bool-cases (has_flag s.flags tcp_ack)) [
  | inl ack ↦ rw ack (rx_ack-Unlocked st c s h)
  | inr none ↦ rw none (refl, refl)
]

rx_state-Unlocked :
    (st : TcpState) (c : Conn) (s : Segment) → Allowed st s → Unlocked (rx_state st c s)
unfolding rx_state unlock_rest
rx_state-Unlocked closed c s h = (refl, refl)
rx_state-Unlocked syn_sent c s h = elim (Bool-cases (has_flag s.flags tcp_syn)) [
  | inl syn ↦ rw syn (rx_syn-Unlocked c s)
  | inr none ↦ rw none (refl, refl)
]
rx_state-Unlocked st c s h = with_ack-Unlocked st c s h

-- Whatever segment arrives, neither `tcb_lock` nor `send_lock` is held when `tcp_rx` has handled it,
-- on the condition that it has no FIN or that the state is neither TCP_ESTABLISHED nor
-- TCP_SYN_RECEIVED.
pub segment_arrives-Unlocked :
    (c : Conn) (s : Segment)
    → (has_flag s.flags tcp_fin ≡ false)
      ⊎ (c.tcb.state ≢ established) × (c.tcb.state ≢ syn_received)
    → Unlocked (segment_arrives c s)
unfolding segment_arrives
segment_arrives-Unlocked c s h = rx_state-Unlocked c.tcb.state _ s h

rx_text-stuck :
    (c : Conn) (s : Segment)
    → c.tcb.state ≡ established
    → has_flag s.flags tcp_fin ≡ true
    → (s.segment_len ≡ 0) ⊎ (s.seq_num ≡ c.tcb.rcv_nxt)
    → (rx_text c s).tcb.tcb_lock ≡ c.tcb.tcb_lock
rx_text-stuck c s est fin next = elim (text_case c s) [
  | empty _ e ↦ rw (e, rx_fin_established c s est fin) refl
  | out_of_order some_ other _ ↦ elim (ruled_out some_ other next) [ ]
  | in_order _ _ e ↦
      let saved = save_data_and_ack-Saved c s.mem 54 s.segment_len s.flags in
      rw
        (
          e,
          rx_fin_established (save_data_and_ack c s.mem 54 s.segment_len s.flags) s
              (saved.state ∙ est) fin,
        )
        saved.tcb_lock
]
  where
    ruled_out :
        s.segment_len ≢ 0
        → s.seq_num ≢ c.tcb.rcv_nxt
        → (s.segment_len ≡ 0) ⊎ (s.seq_num ≡ c.tcb.rcv_nxt)
        → ⊥
    ruled_out a b (inl e) = a e
    ruled_out a b (inr e) = b e

rx_ack_established-facts :
    (c : Conn) (s : Segment)
    → let c' = rx_ack_established c s in
      (c'.tcb.state ≡ c.tcb.state)
      × (c'.tcb.rcv_nxt ≡ c.tcb.rcv_nxt)
      × (c'.tcb.tcb_lock ≡ c.tcb.tcb_lock)
unfolding rx_ack_established stop_retransmit
rx_ack_established-facts c s = ground arith

next_moved :
    (s : Segment) {n n' : ℕ}
    → (s.segment_len ≡ 0) ⊎ (s.seq_num ≡ n)
    → n' ≡ n
    → (s.segment_len ≡ 0) ⊎ (s.seq_num ≡ n')
next_moved s (inl none) e = inl none
next_moved s (inr same) e = inr (same ∙ sym e)

-- After a FIN in TCP_ESTABLISHED, in a segment with ACK that is the next one or has no data, `tcb_lock`
-- is held.
pub segment_arrives-stuck :
    (c : Conn) (s : Segment)
    → c.tcb.state ≡ established
    → has_flag s.flags tcp_ack ≡ true
    → has_flag s.flags tcp_fin ≡ true
    → (s.segment_len ≡ 0) ⊎ (s.seq_num ≡ c.tcb.rcv_nxt)
    → (segment_arrives c s).tcb.tcb_lock ≡ true
unfolding segment_arrives
segment_arrives-stuck c s est ack fin next = simp (rx_state-established c.tcb.state _ s est ack) (
    let c' : Conn = set_send_lock true (set_tcb_lock true c) in
    let (st, nxt, lock) = rx_ack_established-facts c' s in
    rx_text-stuck (rx_ack_established c' s) s (st ∙ est) fin (next_moved s next nxt) ∙ lock)
