-- ===== src/Tcp/Buffer.antt =====
-- src/tcp.c, `save_data_and_ack` and `read_bytes`: the receive buffer of a connection.
pub mod Queue
use anp_netskeleton.Base.{
  ℕ, ◌+◌, ◌-◌, ◌<◌, Bool, true, false, ◌||◌, ◌==◌, ltb, if◌then◌else◌, u32, sub32, List,
}
use anp_netskeleton.Memory.{Mem, memcpy, bytes}
use anp_netskeleton.Tcp.{
  Tcb, Conn, with_tcb, has_flag, tcp_ack, tcp_psh, tcp_rcv_max, retries_sendonce,
}
use anp_netskeleton.Tcp.Transmit.{min, tcp_tx_empty}

-- `pthread_cond_signal (&tcb->tcb_cond)`
abbrev pub signal_tcb : Tcb → Tcb
signal_tcb t = record t { tcb_cond = t.tcb_cond + 1 }

-- How much of `dlen` bytes is copied.
unfoldable pub final_copy_size : Tcb → ℕ → ℕ
final_copy_size t dlen = min dlen (sub32 tcp_rcv_max t.rcv_buff_len)

-- The copy and the two counters.
unfoldable pub append_data : Tcb → Mem → ℕ → ℕ → Tcb
append_data t source payload dlen =
    let n : ℕ = final_copy_size t dlen in
    record t {
      rcv_buff = memcpy t.rcv_buff t.rcv_buff_len source payload n;
      rcv_nxt = u32 (t.rcv_nxt + n);
      rcv_buff_len = u32 (t.rcv_buff_len + n);
    }

-- `dlen` bytes at `payload` of the segment `source`; `flags` are those of its header.
unfoldable pub save_data_and_ack : Conn → Mem → ℕ → ℕ → ℕ → Conn
save_data_and_ack c source payload dlen flags =
    let saved : Conn = with_tcb c (append_data c.tcb source payload dlen) in
    let acked : Conn =
      if ltb 0 (final_copy_size c.tcb dlen)
      then tcp_tx_empty saved tcp_ack retries_sendonce
      else saved in
    if (acked.tcb.rcv_buff_len == tcp_rcv_max) || has_flag flags tcp_psh
    then with_tcb acked (signal_tcb acked.tcb)
    else acked

-- `read_bytes`, from the point where the wait (if there was one) is over: the bytes that go to the
-- user, and the control block.
unfoldable pub read_bytes : Tcb → ℕ → List ℕ × Tcb
read_bytes t bytes_to_read =
    let clipped : ℕ = if ltb t.rcv_buff_len bytes_to_read then t.rcv_buff_len else bytes_to_read in
    let n : ℕ = min clipped t.rcv_buff_len in
    let left : ℕ = t.rcv_buff_len - n in
    (
      bytes t.rcv_buff 0 n,
      record t {
        rcv_buff_len = left;
        rcv_buff = if ltb 0 left then memcpy t.rcv_buff 0 t.rcv_buff n left else t.rcv_buff;
      },
    )
