-- ===== src/Examples/Connection.antt =====
-- The theorems on src/tcp.c, applied to a connection of the client device with a server.
use anp_netskeleton.Base.{ℕ, ◌≤◌, ◌≡◌, ◌≢◌, refl, false, inl, [], ◌∷◌, ◌++◌, htonl, pos, arith}
use anp_netskeleton.Checksum.{do_tcp_csum}
use anp_netskeleton.Ip.{ipp_tcp}
use anp_netskeleton.Tcp.Transmit.Made.{Made, tcp_tx-Made}
use anp_netskeleton.Tcp.{syn_sent, Conn, has_flag, tcp_ack, retries_infinite}
use anp_netskeleton.Tcp.Packet.{create_tcp_packet, add_msg_to_arr, count_control}
use anp_netskeleton.Tcp.Packet.Verified.{client_ip, create_tcp_packet-verified}
use anp_netskeleton.Tcp.Transmit.{
  returned, blocked, out_of_fuel, tcp_tx, tx_loop, set_send_lock, next_seg_size, send_segment,
}
use anp_netskeleton.Tcp.Transmit.Loop.{tcp_tx_total}
use anp_netskeleton.Tcp.Transmit.Rounds.{Queued}
use anp_netskeleton.Tcp.Transmit.Stream.{tcp_tx-Queued}
use anp_netskeleton.Tcp.Buffer.Queue.{Fits, arrive, read, contents, run_buffer, run_buffer-fifo}
use anp_netskeleton.Tcp.Retransmit.{stop_retransmit, free_tcb}
use anp_netskeleton.Tcp.Retransmit.Acked.{
  outlines, unacked, stop_retransmit-unacked, free_tcb-stop_retransmit,
}
use anp_netskeleton.Tcp.Receive.{segment_arrives, set_tcb_lock}
use anp_netskeleton.Tcp.Receive.Data.{Delivered, segment_arrives-Delivered}
use anp_netskeleton.Tcp.Receive.Handshake.{Opened, segment_arrives-Opened, segment_arrives-dropped}
use anp_netskeleton.Tcp.Receive.Locks.{Unlocked, segment_arrives-Unlocked}
use anp_netskeleton.Tcp.Receive.Bounds.{segment_arrives-Fits}
use anp_netskeleton.Tcp.Receive.Diagram.{◌⟶◌, segment_arrives-⟶}
use anp_netskeleton.Examples.{
  client_tcb, connecting, open_conn, syn_ack, data_segment, fin_segment, sending, waiting,
}

create_tcp_packet-verified_example :
    do_tcp_csum
      (create_tcp_packet client_tcb (λ i. i) 0 3 tcp_ack).0.mem
      34
      (pos 23)
      ipp_tcp
      client_ip
      (htonl 0x0a000005)
    ≡ 0
create_tcp_packet-verified_example =
    create_tcp_packet-verified client_tcb (λ i. i) 0 3 tcp_ack refl (omega arith) (omega arith)

segment_arrives-Opened_example : Opened 0 (segment_arrives connecting syn_ack) syn_ack
unfolding has_flag
segment_arrives-Opened_example =
    segment_arrives-Opened connecting syn_ack refl refl refl (omega arith) (omega arith)
      (omega arith)

segment_arrives-Delivered_example :
    Delivered open_conn (segment_arrives open_conn data_segment) data_segment
unfolding has_flag
segment_arrives-Delivered_example =
    segment_arrives-Delivered open_conn data_segment refl refl (omega arith)

segment_arrives-Unlocked_example : Unlocked (segment_arrives open_conn data_segment)
unfolding has_flag
segment_arrives-Unlocked_example = segment_arrives-Unlocked open_conn data_segment (inl refl)

segment_arrives-⟶_example : syn_sent ⟶ (segment_arrives connecting syn_ack).tcb.state
segment_arrives-⟶_example = segment_arrives-⟶ connecting syn_ack

tcp_tx_total_example : tcp_tx [] open_conn (λ i. i) 4 tcp_ack retries_infinite ≢ out_of_fuel
tcp_tx_total_example = tcp_tx_total [] open_conn (λ i. i) 4 tcp_ack retries_infinite

run_buffer-fifo_example :
    let r = run_buffer client_tcb (arrive (λ i. i) 54 3 ∷ (read 2 ∷ [])) in
    (r.out ++ contents r.tcb ≡ contents client_tcb ++ r.taken) × (r.tcb.rcv_buff_len ≤ 65535)
run_buffer-fifo_example =
    run_buffer-fifo (arrive (λ i. i) 54 3 ∷ (read 2 ∷ [])) client_tcb (omega arith)

stop_retransmit-unacked_example :
    outlines (stop_retransmit sending).messages ≡ outlines (unacked 4096 1005 sending.messages)
stop_retransmit-unacked_example = stop_retransmit-unacked sending

free_tcb-stop_retransmit_example :
    outlines (free_tcb sending) ≡ outlines (stop_retransmit sending).messages
free_tcb-stop_retransmit_example = free_tcb-stop_retransmit sending

segment_arrives-dropped_example :
    segment_arrives waiting fin_segment ≡ set_send_lock false (set_tcb_lock false waiting)
segment_arrives-dropped_example = segment_arrives-dropped waiting fin_segment refl

-- Eight bytes through a window of five: the second segment waits for the acknowledgment of the first.
abbrev acked : Conn → Conn
acked c = record c { tcb = record c.tcb { snd_una = 1006 } }

abbrev sent_conn : Conn
sent_conn = elim (tcp_tx (acked ∷ []) open_conn (λ i. i) 8 tcp_ack retries_infinite) [
  | returned n c ↦ c
  | blocked c ↦ c
  | out_of_fuel ↦ open_conn
]

sent_returned :
    tcp_tx (acked ∷ []) open_conn (λ i. i) 8 tcp_ack retries_infinite ≡ returned 8 sent_conn
unfolding tcp_tx tx_loop next_seg_size send_segment create_tcp_packet add_msg_to_arr count_control
    has_flag
sent_returned = refl

tcp_tx-Queued_example : Queued open_conn sent_conn (λ i. i) 0 8 × (◌≡◌ {A = ℕ} 8 8)
unfolding has_flag
tcp_tx-Queued_example =
    tcp_tx-Queued (acked ∷ []) open_conn (λ i. i) 8 tcp_ack retries_infinite 8 refl refl refl
      ((λ c. (refl, refl, refl)), tt) (omega arith) (omega arith) sent_returned

-- Eight thousand bytes through a window of nine thousand.
abbrev wide_conn : Conn
wide_conn = record open_conn {
  tcb = record client_tcb { snd_una = 1001; snd_wnd = 9000 };
  room = 9000;
}

tcp_tx-Made_example :
    (c' : Conn) × (tcp_tx [] wide_conn (λ i. i) 8000 tcp_ack retries_infinite ≡ returned 8000 c')
    × Made wide_conn c' (λ i. i) 0 8000 tcp_ack retries_infinite
unfolding has_flag
tcp_tx-Made_example =
    tcp_tx-Made wide_conn (λ i. i) 8000 tcp_ack retries_infinite refl refl refl (omega arith)
      (omega arith) (omega arith) (omega arith) (omega arith)

segment_arrives-Fits_example : Fits (segment_arrives open_conn data_segment).tcb
segment_arrives-Fits_example = segment_arrives-Fits open_conn data_segment (omega arith)
