-- ===== src/Tcp/Receive/Data.antt =====
-- src/tcp.c, `tcp_rx` in TCP_ESTABLISHED: data, acknowledgment and window of a segment.
use anp_netskeleton.Base.{
  ℕ, ◌-◌, ◌≤◌, ◌≡◌, ◌≢◌, ◌∙◌, sym, subst, refl, true, Bool-cases, inl, inr, List, ◌++◌,
  if◌then◌else◌, arith,
}
use mathlib.Core.List.{append-nil}
use anp_netskeleton.Memory.{bytes}
use anp_netskeleton.Tcp.{established, Conn, has_flag, tcp_fin, tcp_ack, tcp_rcv_max}
use anp_netskeleton.Tcp.Transmit.{min, set_send_lock}
use anp_netskeleton.Tcp.Buffer.{append_data, save_data_and_ack}
use anp_netskeleton.Tcp.Buffer.Queue.{contents, Fits, append_data-contents}
use anp_netskeleton.Tcp.Retransmit.{stop_retransmit}
use anp_netskeleton.Tcp.Receive.{
  Segment, segment_arrives, rx_ack_established, rx_text, rx_fin, set_tcb_lock, new_ack,
}
use anp_netskeleton.Tcp.Receive.Parts.{
  Saved, save_data_and_ack-Saved, rx_fin_plain, rx_fin_established, empty, out_of_order, in_order,
  text_case,
}
use anp_netskeleton.Tcp.Receive.Locks.{rx_state-established}

-- The fields that the text and the FIN of a segment can change agree, but for `rcv_nxt`.
record SameData (c c' : Conn) : Type 0 where
  buff : c'.tcb.rcv_buff ≡ c.tcb.rcv_buff
  len : c'.tcb.rcv_buff_len ≡ c.tcb.rcv_buff_len
  una : c'.tcb.snd_una ≡ c.tcb.snd_una
  wnd : c'.tcb.snd_wnd ≡ c.tcb.snd_wnd

rx_fin-SameData : (c : Conn) (s : Segment) → c.tcb.state ≡ established → SameData c (rx_fin c s)
rx_fin-SameData c s est = elim (Bool-cases (has_flag s.flags tcp_fin)) [
  | inl fin ↦
      rw (rx_fin_established c s est fin)
        (record { buff = refl; len = refl; una = refl; wnd = refl })
  | inr no_fin ↦
      rw (rx_fin_plain c s no_fin) (record { buff = refl; len = refl; una = refl; wnd = refl })
]

-- What has been received once a segment is handled: nothing of one out of order, else as much of the
-- data as there is room for, behind what the buffer holds.
pub record Delivered (c c' : Conn) (s : Segment) : Type 0 where
  pub in_order_data :
      s.seq_num ≡ c.tcb.rcv_nxt
      → contents c'.tcb
        ≡ contents c.tcb ++ bytes s.mem 54 (min s.segment_len (tcp_rcv_max - c.tcb.rcv_buff_len))
  pub other_data : s.seq_num ≢ c.tcb.rcv_nxt → contents c'.tcb ≡ contents c.tcb
  pub snd_una : c'.tcb.snd_una ≡ (if new_ack c s then s.ack_num else c.tcb.snd_una)
  pub snd_wnd : c'.tcb.snd_wnd ≡ s.window_size

contents-cong : (c c' : Conn) → SameData c c' → contents c'.tcb ≡ contents c.tcb
contents-cong c c' same = rw (same.buff, same.len) refl

-- The same for the text alone.
record TextDelivered (c c' : Conn) (s : Segment) : Type 0 where
  in_order_data :
      s.seq_num ≡ c.tcb.rcv_nxt
      → contents c'.tcb
        ≡ contents c.tcb ++ bytes s.mem 54 (min s.segment_len (tcp_rcv_max - c.tcb.rcv_buff_len))
  other_data : s.seq_num ≢ c.tcb.rcv_nxt → contents c'.tcb ≡ contents c.tcb
  una : c'.tcb.snd_una ≡ c.tcb.snd_una
  wnd : c'.tcb.snd_wnd ≡ c.tcb.snd_wnd

nothing_delivered :
    (c : Conn) (s : Segment)
    → s.segment_len ≡ 0
    → contents c.tcb
      ≡ contents c.tcb ++ bytes s.mem 54 (min s.segment_len (tcp_rcv_max - c.tcb.rcv_buff_len))
nothing_delivered c s none =
    let zero_size : min s.segment_len (tcp_rcv_max - c.tcb.rcv_buff_len) ≡ 0 = ground arith in
    rw zero_size (sym (append-nil (contents c.tcb)))

rx_text-TextDelivered :
    (c : Conn) (s : Segment)
    → c.tcb.state ≡ established
    → Fits c.tcb
    → TextDelivered c (rx_text c s) s
rx_text-TextDelivered c s est fits = elim (text_case c s) [
  | empty none e ↦
      let same = rx_fin-SameData c s est in
      rw e (record {
        in_order_data = λ _. contents-cong c (rx_fin c s) same ∙ nothing_delivered c s none;
        other_data = λ _. contents-cong c (rx_fin c s) same;
        una = same.una;
        wnd = same.wnd;
      })
  | out_of_order _ other e ↦ rw e (record {
    in_order_data = λ next. elim (other next) [ ];
    other_data = λ _. refl;
    una = refl;
    wnd = refl;
  })
  | in_order _ next e ↦
      let c' : Conn = save_data_and_ack c s.mem 54 s.segment_len s.flags in
      let saved = save_data_and_ack-Saved c s.mem 54 s.segment_len s.flags in
      let same = rx_fin-SameData c' s (saved.state ∙ est) in
      let (grown, _, _) = append_data-contents c.tcb s.mem 54 s.segment_len fits in
      rw e (record {
        in_order_data =
            λ _. contents-cong c' (rx_fin c' s) same ∙ saved_contents c c' s saved ∙ grown;
        other_data = λ other. elim (other next) [ ];
        una = same.una ∙ saved.snd_una;
        wnd = same.wnd ∙ saved.snd_wnd;
      })
]
  where
    saved_contents :
        (c c' : Conn) (s : Segment)
        → Saved (append_data c.tcb s.mem 54 s.segment_len) c c'
        → contents c'.tcb ≡ contents (append_data c.tcb s.mem 54 s.segment_len)
    saved_contents c c' s saved = rw (saved.rcv_buff, saved.rcv_buff_len) refl

pub rx_ack_established-data :
    (c : Conn) (s : Segment)
    → let c' = rx_ack_established c s in
      (c'.tcb.state ≡ c.tcb.state)
      × (c'.tcb.rcv_nxt ≡ c.tcb.rcv_nxt)
      × (c'.tcb.rcv_buff ≡ c.tcb.rcv_buff)
      × (c'.tcb.rcv_buff_len ≡ c.tcb.rcv_buff_len)
      × (c'.tcb.snd_wnd ≡ s.window_size)
      × (c'.tcb.snd_una ≡ (if new_ack c s then s.ack_num else c.tcb.snd_una))
unfolding rx_ack_established stop_retransmit
rx_ack_established-data c s = ground arith

-- In TCP_ESTABLISHED a segment with ACK brings its data, if it starts at `rcv_nxt`: as much of it as
-- there is room for goes behind what the receive buffer holds; a segment that starts elsewhere leaves
-- the contents as they are. The window is the segment's, and `snd_una` its acknowledgment number, if
-- that lies above `snd_una` and up to `snd_nxt`. The condition is that the buffer's counter is within
-- the buffer.
pub segment_arrives-Delivered :
    (c : Conn) (s : Segment)
    → c.tcb.state ≡ established
    → has_flag s.flags tcp_ack ≡ true
    → Fits c.tcb
    → Delivered c (segment_arrives c s) s
unfolding segment_arrives
segment_arrives-Delivered c s est ack fits =
    let locked : Conn = set_send_lock true (set_tcb_lock true c) in
    let c' : Conn = rx_ack_established locked s in
    let (st, nxt, buff, len, wnd, una) = rx_ack_established-data locked s in
    let text =
      rx_text-TextDelivered c' s (st ∙ est) (subst (λ n. n ≤ tcp_rcv_max) (sym len) fits) in
    let before : contents c'.tcb ≡ contents c.tcb = rw (buff, len) refl in
    simp (rx_state-established c.tcb.state locked s est ack) (record {
      in_order_data = λ e. text.in_order_data (e ∙ sym nxt) ∙ same_place before len;
      other_data = λ other. text.other_data (λ e. other (e ∙ nxt)) ∙ before;
      snd_una = text.una ∙ una;
      snd_wnd = text.wnd ∙ wnd;
    })
  where
    same_place :
        {l l' : List ℕ} {k k' : ℕ}
        → l ≡ l'
        → k ≡ k'
        → l ++ bytes s.mem 54 (min s.segment_len (tcp_rcv_max - k))
          ≡ l' ++ bytes s.mem 54 (min s.segment_len (tcp_rcv_max - k'))
    same_place e e' = rw (e, e') refl
