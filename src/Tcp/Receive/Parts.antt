-- ===== src/Tcp/Receive/Parts.antt =====
-- src/tcp.c, `tcp_rx`: its parts, by what they do to the state, the locks and the receive buffer.
use anp_netskeleton.Base.{
  ℕ, ◌+◌, ◌≡◌, ◌≢◌, refl, true, false, Bool-cases, inl, inr, ◌==◌, u32, arith,
}
use anp_netskeleton.Memory.{Mem}
use anp_netskeleton.Tcp.{
  established, fin_wait_2, time_wait, Tcb, Conn, with_tcb, has_flag, tcp_fin, tcp_ack,
  retries_sendonce,
}
use anp_netskeleton.Tcp.Transmit.Empty.{tcp_tx_empty-SentEmpty}
use anp_netskeleton.Tcp.Buffer.{append_data, save_data_and_ack}
use anp_netskeleton.Tcp.Receive.{
  Segment, set_tcb_lock, rx_time_wait, rx_fin_state, rx_fin, rx_text, unlock_rest,
}

-- What `save_data_and_ack` leaves of the control block: that of `append_data`, but for the sender's
-- fields and the signals.
pub record Saved (t : Tcb) (c c' : Conn) : Type 0 where
  pub state : c'.tcb.state ≡ c.tcb.state
  pub tcb_lock : c'.tcb.tcb_lock ≡ c.tcb.tcb_lock
  pub send_lock : c.tcb.send_lock ≡ false → c'.tcb.send_lock ≡ false
  pub rcv_nxt : c'.tcb.rcv_nxt ≡ t.rcv_nxt
  pub rcv_buff : c'.tcb.rcv_buff ≡ t.rcv_buff
  pub rcv_buff_len : c'.tcb.rcv_buff_len ≡ t.rcv_buff_len
  pub snd_una : c'.tcb.snd_una ≡ c.tcb.snd_una
  pub snd_wnd : c'.tcb.snd_wnd ≡ c.tcb.snd_wnd

append_data-keeps :
    (t : Tcb) (source : Mem) (payload dlen : ℕ)
    → let t' = append_data t source payload dlen in
      (t'.state ≡ t.state)
      × (t'.tcb_lock ≡ t.tcb_lock)
      × (t'.send_lock ≡ t.send_lock)
      × (t'.snd_una ≡ t.snd_una)
      × (t'.snd_wnd ≡ t.snd_wnd)
unfolding append_data
append_data-keeps t source payload dlen = (refl, refl, refl, refl, refl)

pub save_data_and_ack-Saved :
    (c : Conn) (source : Mem) (payload dlen flags : ℕ)
    → Saved
        (append_data c.tcb source payload dlen)
        c
        (save_data_and_ack c source payload dlen flags)
unfolding save_data_and_ack
save_data_and_ack-Saved c source payload dlen flags = ground (
  arith,
  append_data-keeps c.tcb source payload dlen,
  tcp_tx_empty-SentEmpty (with_tcb c (append_data c.tcb source payload dlen)) tcp_ack
      retries_sendonce refl,
)

pub rx_time_wait-state :
    (c : Conn)
    → ((rx_time_wait c).tcb.state ≡ time_wait)
      × ((rx_time_wait c).tcb.tcb_lock ≡ false)
      × ((rx_time_wait c).tcb.send_lock ≡ false)
unfolding rx_time_wait
rx_time_wait-state c = ground (
  arith,
  tcp_tx_empty-SentEmpty (with_tcb c (record c.tcb { state = time_wait })) tcp_ack retries_sendonce
      refl,
)

-- Without FIN the end of the function unlocks the control block.
pub rx_fin_plain :
    (c : Conn) (s : Segment) → has_flag s.flags tcp_fin ≡ false → rx_fin c s ≡ set_tcb_lock false c
unfolding rx_fin unlock_rest
rx_fin_plain c s no_fin = ground arith

-- With FIN in TCP_ESTABLISHED the function returns without unlocking it.
pub rx_fin_established :
    (c : Conn) (s : Segment)
    → c.tcb.state ≡ established
    → has_flag s.flags tcp_fin ≡ true
    → rx_fin c s ≡ with_tcb c (record c.tcb { rcv_nxt = u32 (c.tcb.rcv_nxt + 1) })
unfolding rx_fin rx_fin_state
rx_fin_established c s est fin = rw (est, fin)

-- With FIN in TCP_FIN_WAIT_2 the connection goes to TCP_TIME_WAIT.
pub rx_fin_waiting :
    (c : Conn) (s : Segment)
    → c.tcb.state ≡ fin_wait_2
    → has_flag s.flags tcp_fin ≡ true
    → rx_fin c s ≡ rx_time_wait (with_tcb c (record c.tcb { rcv_nxt = u32 (c.tcb.rcv_nxt + 1) }))
unfolding rx_fin rx_fin_state
rx_fin_waiting c s waiting fin = rw (waiting, fin)

-- What `rx_text` goes on with: the segment is empty, out of order, or the next one.
pub data TextCase (c : Conn) (s : Segment) : Type 0 where
  empty : s.segment_len ≡ 0 → rx_text c s ≡ rx_fin c s → TextCase c s
  out_of_order :
      s.segment_len ≢ 0
      → s.seq_num ≢ c.tcb.rcv_nxt
      → rx_text c s ≡ set_tcb_lock false c
      → TextCase c s
  in_order :
      s.segment_len ≢ 0
      → s.seq_num ≡ c.tcb.rcv_nxt
      → rx_text c s ≡ rx_fin (save_data_and_ack c s.mem 54 s.segment_len s.flags) s
      → TextCase c s

pub text_case : (c : Conn) (s : Segment) → TextCase c s
unfolding rx_text unlock_rest
text_case c s = elim (Bool-cases (s.segment_len == 0)) [
  | inl none ↦ empty (ground arith) (rw none)
  | inr some_ ↦ elim (Bool-cases (s.seq_num == c.tcb.rcv_nxt)) [
    | inl next ↦ in_order (ground arith) (ground arith) (rw (some_, next))
    | inr other ↦ out_of_order (ground arith) (ground arith) (rw (some_, other))
  ]
]
