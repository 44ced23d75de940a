-- ===== src/Tcp/Transmit/Empty.antt =====
-- src/tcp.c, `tcp_tx` for a segment with no data.
use anp_netskeleton.Base.{ℕ, ◌≡◌, true, false, [], arith}
use anp_netskeleton.Memory.{zeroed}
use anp_netskeleton.Tcp.Transmit.Loop.{next_seg_size-le}
use anp_netskeleton.Tcp.{Conn}
use anp_netskeleton.Tcp.Packet.{create_tcp_packet, count_control, add_msg_to_arr}
use anp_netskeleton.Tcp.Transmit.{
  returned, next_seg_size, send_segment, set_send_lock, tx_loop, tcp_tx, tcp_tx_empty,
  valid_retries,
}

tx_loop-empty :
    (c : Conn) (flags retries : ℕ)
    → tx_loop 1 [] c zeroed 0 0 0 flags retries
      ≡ returned 0
          (set_send_lock false (send_segment (set_send_lock true c) zeroed 0 0 flags retries))
unfolding tx_loop
tx_loop-empty c flags retries =
    let none : next_seg_size c 0 ≡ 0 = omega (arith, next_seg_size-le c 0) in rw (none, tx_loop)

pub tcp_tx_empty-send_segment :
    (c : Conn) (flags retries : ℕ)
    → valid_retries retries ≡ true
    → tcp_tx_empty c flags retries
      ≡ set_send_lock false (send_segment (set_send_lock true c) zeroed 0 0 flags retries)
unfolding tcp_tx_empty tcp_tx
tcp_tx_empty-send_segment c flags retries valid = ground (arith, tx_loop-empty c flags retries)

-- What a data-less segment leaves of the connection: the control block but for `snd_nxt`, and one
-- more message.
pub record SentEmpty (c c' : Conn) : Type 0 where
  pub ptr : c'.ptr ≡ c.ptr
  pub timers : c'.timers ≡ c.timers
  pub state : c'.tcb.state ≡ c.tcb.state
  pub tcb_lock : c'.tcb.tcb_lock ≡ c.tcb.tcb_lock
  pub send_lock : c'.tcb.send_lock ≡ false
  pub tcb_cond : c'.tcb.tcb_cond ≡ c.tcb.tcb_cond
  pub rcv_nxt : c'.tcb.rcv_nxt ≡ c.tcb.rcv_nxt
  pub rcv_buff : c'.tcb.rcv_buff ≡ c.tcb.rcv_buff
  pub rcv_buff_len : c'.tcb.rcv_buff_len ≡ c.tcb.rcv_buff_len
  pub snd_una : c'.tcb.snd_una ≡ c.tcb.snd_una
  pub snd_wnd : c'.tcb.snd_wnd ≡ c.tcb.snd_wnd
  pub irs : c'.tcb.irs ≡ c.tcb.irs
  pub iss : c'.tcb.iss ≡ c.tcb.iss
  pub local_port : c'.tcb.local_port ≡ c.tcb.local_port
  pub local_ip : c'.tcb.local_ip ≡ c.tcb.local_ip
  pub remote_port : c'.tcb.remote_port ≡ c.tcb.remote_port
  pub remote_ip : c'.tcb.remote_ip ≡ c.tcb.remote_ip

pub tcp_tx_empty-SentEmpty :
    (c : Conn) (flags retries : ℕ)
    → valid_retries retries ≡ true
    → SentEmpty c (tcp_tx_empty c flags retries)
unfolding send_segment create_tcp_packet count_control add_msg_to_arr
tcp_tx_empty-SentEmpty c flags retries valid =
    rw (tcp_tx_empty-send_segment c flags retries valid) (ground arith)
