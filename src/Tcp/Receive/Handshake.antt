-- ===== src/Tcp/Receive/Handshake.antt =====
-- src/tcp.c, `tcp_rx`: the opening of a connection, and the states that have no case.
use anp_netskeleton.Base.{
  ℕ, ◌+◌, ◌<◌, ◌≤◌, ◌≡◌, refl, Bool, true, false, ltb, if◌then◌else◌, u32, arith,
}
use anp_netskeleton.Tcp.{
  TcpState, syn_sent, syn_received, established, fin_wait_1, fin_wait_2, closed, time_wait, listen,
  close_wait, closing, last_ack, Conn, with_tcb, has_flag, tcp_syn, tcp_ack, retries_sendonce,
}
use anp_netskeleton.Tcp.Transmit.{set_send_lock}
use anp_netskeleton.Tcp.Transmit.Empty.{tcp_tx_empty-SentEmpty}
use anp_netskeleton.Tcp.Retransmit.{stop_retransmit}
use anp_netskeleton.Tcp.Receive.{
  Segment, segment_arrives, rx_state, rx_ack, rx_syn, rx_syn_acked, unlock_rest, set_tcb_lock,
  acceptable,
}

-- The connection is open: the peer's and our numbers agree with the segment, the window is the
-- segment's, the thread that waits in `connect` is woken, and nothing is locked.
pub record Opened (tcb_cond : ℕ) (c' : Conn) (s : Segment) : Type 0 where
  pub state : c'.tcb.state ≡ established
  pub rcv_nxt : c'.tcb.rcv_nxt ≡ u32 (s.seq_num + 1)
  pub irs : c'.tcb.irs ≡ s.seq_num
  pub snd_una : c'.tcb.snd_una ≡ s.ack_num
  pub snd_wnd : c'.tcb.snd_wnd ≡ s.window_size
  pub signalled : c'.tcb.tcb_cond ≡ tcb_cond + 1
  pub tcb_free : c'.tcb.tcb_lock ≡ false
  pub send_free : c'.tcb.send_lock ≡ false

-- `rx_syn_acked` on a connection whose numbers have been set.
rx_syn_acked-fields :
    (c : Conn) (s : Segment)
    → let c' = rx_syn_acked c s in
      (c'.tcb.state ≡ established)
      × (c'.tcb.rcv_nxt ≡ c.tcb.rcv_nxt)
      × (c'.tcb.irs ≡ c.tcb.irs)
      × (c'.tcb.snd_una ≡ c.tcb.snd_una)
      × (c'.tcb.snd_wnd ≡ s.window_size)
      × (c'.tcb.tcb_cond ≡ c.tcb.tcb_cond + 1)
      × (c'.tcb.tcb_lock ≡ false)
      × (c'.tcb.send_lock ≡ false)
unfolding rx_syn_acked
rx_syn_acked-fields c s = ground (
  arith,
  tcp_tx_empty-SentEmpty
      (set_send_lock false
        (with_tcb c (record c.tcb { snd_wnd = s.window_size; state = established })))
      tcp_ack retries_sendonce refl,
)

rx_syn-acked_numbers :
    (c : Conn) (s : Segment)
    → acceptable c s ≡ true
    → ltb c.tcb.iss s.ack_num ≡ true
    → rx_syn c s
      ≡ rx_syn_acked
          (stop_retransmit (
            with_tcb c (record c.tcb {
              rcv_nxt = u32 (s.seq_num + 1);
              irs = s.seq_num;
              snd_una = s.ack_num;
            })))
          s
unfolding rx_syn stop_retransmit
rx_syn-acked_numbers c s ok newer = rw (ok, newer) refl

rx_syn-Opened :
    (c : Conn) (s : Segment)
    → has_flag s.flags tcp_ack ≡ true
    → c.tcb.snd_una ≤ s.ack_num
    → s.ack_num ≤ c.tcb.snd_nxt
    → c.tcb.iss < s.ack_num
    → Opened c.tcb.tcb_cond (rx_syn c s) s
unfolding stop_retransmit
rx_syn-Opened c s ack low high new = rw (rx_syn-acked_numbers c s (ground arith) (ground arith)) (
    let (a, b, d, e, f, g, h, i) = rx_syn_acked-fields _ s in
    record {
      state = a;
      rcv_nxt = b;
      irs = d;
      snd_una = e;
      snd_wnd = f;
      signalled = g;
      tcb_free = h;
      send_free = i;
    })

pub rx_state-syn_sent :
    (st : TcpState) (c : Conn) (s : Segment)
    → st ≡ syn_sent
    → has_flag s.flags tcp_syn ≡ true
    → rx_state st c s ≡ rx_syn c s
unfolding rx_state
rx_state-syn_sent st c s e syn = rw (e, syn) refl

-- A SYN-ACK in TCP_SYN_SENT that acknowledges our SYN opens the connection: its acknowledgment number
-- lies between `snd_una` and `snd_nxt` and above `iss`. Then the state is TCP_ESTABLISHED, the numbers
-- and the window agree with the segment, the thread in `connect` is woken, and no lock is held.
pub segment_arrives-Opened :
    (c : Conn) (s : Segment)
    → c.tcb.state ≡ syn_sent
    → has_flag s.flags tcp_syn ≡ true
    → has_flag s.flags tcp_ack ≡ true
    → c.tcb.snd_una ≤ s.ack_num
    → s.ack_num ≤ c.tcb.snd_nxt
    → c.tcb.iss < s.ack_num
    → Opened c.tcb.tcb_cond (segment_arrives c s) s
unfolding segment_arrives rx_state rx_syn stop_retransmit
segment_arrives-Opened c s state syn ack low high new =
    simp (rx_state-syn_sent c.tcb.state _ s state syn)
      (rx_syn-Opened (set_send_lock true (set_tcb_lock true c)) s ack low high new)

-- The states in which `tcp_rx` has no case for a segment with ACK.
abbrev pub has_no_case : TcpState → Bool
has_no_case listen = true
has_no_case fin_wait_2 = true
has_no_case close_wait = true
has_no_case closing = true
has_no_case last_ack = true
has_no_case time_wait = true
has_no_case closed = true
has_no_case _ = false

rx_state-dropped :
    (st : TcpState) (c : Conn) (s : Segment)
    → has_no_case st ≡ true
    → rx_state st c s ≡ set_send_lock false (set_tcb_lock false c)
unfolding rx_state rx_ack unlock_rest
rx_state-dropped closed c s h = refl
rx_state-dropped syn_sent c s h = ground arith
rx_state-dropped syn_received c s h = ground arith
rx_state-dropped established c s h = ground arith
rx_state-dropped fin_wait_1 c s h = ground arith
rx_state-dropped st c s h = same (has_flag s.flags tcp_ack)
  where
    same :
        (b : Bool)
        → (if b then rx_ack st c s else unlock_rest false false c)
          ≡ set_send_lock false (set_tcb_lock false c)
    same true = refl
    same false = refl

-- In TCP_FIN_WAIT_2 (and in the other states that the switch leaves out) every segment is dropped, the
-- peer's FIN too: nothing of the connection changes, and both locks are released. So a FIN that comes
-- behind the acknowledgment of ours never ends the wait of `close`.
pub segment_arrives-dropped :
    (c : Conn) (s : Segment)
    → has_no_case c.tcb.state ≡ true
    → segment_arrives c s ≡ set_send_lock false (set_tcb_lock false c)
unfolding segment_arrives
segment_arrives-dropped c s h = rx_state-dropped c.tcb.state _ s h
