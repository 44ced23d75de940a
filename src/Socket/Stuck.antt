-- ===== src/Socket/Stuck.antt =====
-- src/tcp.c, `tcp_rx`, and src/anpwrapper.c, `recv` and `close`: the calls after the peer's FIN.
use anp_netskeleton.Base.{ℕ, ◌≡◌, ◌≢◌, ◌⊎◌, ◌∙◌, ap, refl, true, false, some, ◌==◌, arith}
use anp_netskeleton.World.{World, AnpSocket, get_anp_socket, conn_at, put_conn}
use anp_netskeleton.World.Update.{conn_at-put_conn}
use anp_netskeleton.Tcp.{Conn, established, has_flag, tcp_ack, tcp_fin}
use anp_netskeleton.Tcp.Receive.{Segment, segment_arrives}
use anp_netskeleton.Tcp.Receive.Locks.{segment_arrives-stuck}
use anp_netskeleton.Tcp.Receive.Peer.{segment_arrives-SamePeer}
use anp_netskeleton.Socket.{hangs, recv, close, is_anp_sockfd}

module _ (w : World) (sockfd : ℕ) (sock : AnpSocket) (ours : is_anp_sockfd w sockfd ≡ true)
    (found : get_anp_socket w.sockets sockfd ≡ some sock) (connected : sock.conn_info ≢ 0) where
  recv-held :
      (len : ℕ) (wake : World → World)
      → (w.tcbs sock.conn_info).tcb_lock ≡ true
      → recv w sockfd len wake ≡ hangs w
  unfolding recv
  recv-held len wake held =
      let not_null : (sock.conn_info == 0) ≡ false = ground arith in
      rw (ours, found, not_null, held) refl

  close-held :
      (wake : World → World)
      → (w.tcbs sock.conn_info).tcb_lock ≡ true
      → close w sockfd wake ≡ hangs w
  unfolding close
  close-held wake held =
      let not_null : (sock.conn_info == 0) ≡ false = ground arith in
      rw (ours, found, not_null, held) refl

-- What the receiving thread does with a segment of the connection at `p`.
abbrev pub handled : World → ℕ → Segment → World
handled w p s = put_conn w (segment_arrives (conn_at w p) s)

-- A FIN in TCP_ESTABLISHED, in a segment with ACK that is the next one or has no data, leaves
-- tcb_lock held: the next call of recv and the next call of close on the socket of the connection
-- wait for the lock for ever. The descriptor is one of the stack, and its socket has a connection.
pub fin-stuck :
    (w : World) (sockfd len : ℕ) (sock : AnpSocket) (s : Segment) (wake : World → World)
    → is_anp_sockfd w sockfd ≡ true
    → get_anp_socket w.sockets sockfd ≡ some sock
    → sock.conn_info ≢ 0
    → (w.tcbs sock.conn_info).state ≡ established
    → has_flag s.flags tcp_ack ≡ true
    → has_flag s.flags tcp_fin ≡ true
    → (s.segment_len ≡ 0) ⊎ (s.seq_num ≡ (w.tcbs sock.conn_info).rcv_nxt)
    → let w' = handled w sock.conn_info s in
      (recv w' sockfd len wake ≡ hangs w') × (close w' sockfd wake ≡ hangs w')
unfolding is_anp_sockfd
fin-stuck w sockfd len sock s wake ours found connected est ack fin next =
    let c : Conn = conn_at w sock.conn_info in
    let w' : World = handled w sock.conn_info s in
    let same = segment_arrives-SamePeer c s est in
    let held : (w'.tcbs sock.conn_info).tcb_lock ≡ true =
      ap (λ d. d.tcb.tcb_lock) (conn_at-put_conn w (segment_arrives c s) sock.conn_info same.ptr)
      ∙ segment_arrives-stuck c s est ack fin next in
    (
      recv-held w' sockfd sock ours found connected len wake held,
      close-held w' sockfd sock ours found connected wake held,
    )
