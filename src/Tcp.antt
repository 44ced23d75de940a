-- ===== src/Tcp.antt =====
-- src/tcp.h: the control block, the messages that wait for the sender thread, and the flags.
-- A function of tcp.c works on one connection, `Conn`: the control block (`ptr` is its address), the
-- messages and the timers, which are global in the C code.
pub mod Packet
pub mod Transmit
pub mod Buffer
pub mod Retransmit
pub mod Receive
use anp_netskeleton.Base.{
  ℕ, zero, suc, Bool, true, false, Option, List, ◌==◌, if◌then◌else◌, not, bit_and,
}
use anp_netskeleton.Memory.{Mem}
use anp_netskeleton.Subuff.{Subuff}
use anp_netskeleton.Timer.{Timers}

pub data TcpState : Type 0 where
  listen syn_sent syn_received established fin_wait_1 fin_wait_2 closed : TcpState
  close_wait closing last_ack time_wait : TcpState

-- `struct tcb`. A mutex is whether it is held, and a condition variable how often it was signalled.
pub record Tcb : Type 0 where
  pub state : TcpState
  pub local_port : ℕ  -- uint16_t
  pub remote_port : ℕ
  pub local_ip : ℕ  -- uint32_t, in network byte order
  pub remote_ip : ℕ  -- uint32_t, in host byte order
  pub tcb_lock : Bool
  pub tcb_cond : ℕ
  pub rcv_nxt : ℕ  -- uint32_t, as all below
  pub rcv_wnd : ℕ
  pub irs : ℕ
  pub rcv_buff_len : ℕ
  pub rcv_buff : Mem
  pub send_lock : Bool
  pub send_cond : ℕ
  pub snd_una : ℕ
  pub snd_nxt : ℕ
  pub snd_wnd : ℕ
  pub iss : ℕ

-- `struct tcp_message`. `tcp_ptr` is an offset in the block of `sub`, or in `stale`, the block of an
-- earlier `sub` that was freed.
pub record Message : Type 0 where
  pub tcb : ℕ
  pub sub : Subuff
  pub tcp_ptr : ℕ
  pub stale : Option Mem
  pub tcp_len : ℕ
  pub tcp_data_len : ℕ
  pub retries : ℕ  -- uint32_t

-- A timer's handler with its argument.
pub data Handler : Type 0 where
  close_connection : (tcb : ℕ) → Handler
  tcp_retransmit : Handler
  icmp_reply : (sub : Subuff) (dest_addr retries icmp_len : ℕ) → Handler

-- `room` is how many of the allocations whose result the code checks still succeed.
pub record Conn : Type 0 where
  pub ptr : ℕ
  pub tcb : Tcb
  pub messages : List Message
  pub timers : Timers Handler
  pub room : ℕ

abbrev pub tcp_fin : ℕ
tcp_fin = 0x01

abbrev pub tcp_syn : ℕ
tcp_syn = 0x02

abbrev pub tcp_psh : ℕ
tcp_psh = 0x08

abbrev pub tcp_ack : ℕ
tcp_ack = 0x10

abbrev pub tcp_finack : ℕ
tcp_finack = 0x11

abbrev pub tcp_synack : ℕ
tcp_synack = 0x12

-- `flags & mask`, as a test
unfoldable pub has_flag : ℕ → ℕ → Bool
has_flag flags mask = not (bit_and flags mask == 0)

-- The `int` values -1, 10 and -2 as the `uint32_t` that `struct tcp_message` keeps.
abbrev pub retries_infinite : ℕ
retries_infinite = 4294967295

abbrev pub retries_conn_max : ℕ
retries_conn_max = 10

abbrev pub retries_sendonce : ℕ
retries_sendonce = 4294967294

abbrev pub tcp_wait_time : ℕ
tcp_wait_time = 10

abbrev pub tcp_max_seg_size : ℕ
tcp_max_seg_size = 1460

abbrev pub tcp_rcv_max : ℕ
tcp_rcv_max = 65535

abbrev pub max_uint32 : ℕ
max_uint32 = 4294967295

-- An assignment to fields of the control block.
abbrev pub with_tcb : Conn → Tcb → Conn
with_tcb c t = record c { tcb = t }
