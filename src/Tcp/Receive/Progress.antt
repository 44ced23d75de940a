-- ===== src/Tcp/Receive/Progress.antt =====
-- src/tcp.c, `tcp_rx` in TCP_ESTABLISHED: what a segment without FIN does to the receiver.
use anp_netskeleton.Base.{
  ℕ, ◌+◌, ◌-◌, ◌≤◌, ◌≡◌, ◌≢◌, ◌∙◌, sym, subst, refl, true, false, Bool-cases, inl, inr, ◌++◌, u32,
}
use anp_netskeleton.Memory.{bytes}
use anp_netskeleton.Tcp.{established, Conn, has_flag, tcp_fin, tcp_ack, tcp_rcv_max}
use anp_netskeleton.Tcp.Transmit.{min, set_send_lock}
use anp_netskeleton.Tcp.Buffer.{append_data, save_data_and_ack}
use anp_netskeleton.Tcp.Buffer.Queue.{contents, Fits, append_data-contents}
use anp_netskeleton.Tcp.Receive.{
  Segment, segment_arrives, rx_ack_established, rx_text, rx_state, unlock_rest, set_tcb_lock,
}
use anp_netskeleton.Tcp.Receive.Parts.{
  Saved, save_data_and_ack-Saved, rx_fin_plain, empty, out_of_order, in_order, text_case,
}
use anp_netskeleton.Tcp.Receive.Data.{rx_ack_established-data}
use anp_netskeleton.Tcp.Receive.Locks.{rx_state-established}

-- How many bytes of a segment the buffer has room for.
abbrev pub room_for : Conn → Segment → ℕ
room_for c s = min s.segment_len (tcp_rcv_max - c.tcb.rcv_buff_len)

-- Why a segment brings nothing.
pub data PassedBy (c : Conn) (s : Segment) : Type 0 where
  no_ack : has_flag s.flags tcp_ack ≡ false → PassedBy c s
  no_data : s.segment_len ≡ 0 → PassedBy c s
  elsewhere : s.seq_num ≢ c.tcb.rcv_nxt → PassedBy c s

-- What a segment without FIN does to the receiver: it is where it was, or it has taken what there is
-- room for.
pub data Progress (c c' : Conn) (s : Segment) : Type 0 where
  still :
      PassedBy c s
      → c'.tcb.rcv_nxt ≡ c.tcb.rcv_nxt
      → contents c'.tcb ≡ contents c.tcb
      → Progress c c' s
  taken :
      s.seq_num ≡ c.tcb.rcv_nxt
      → c'.tcb.rcv_nxt ≡ u32 (c.tcb.rcv_nxt + room_for c s)
      → contents c'.tcb ≡ contents c.tcb ++ bytes s.mem 54 (room_for c s)
      → Progress c c' s

rx_text-Progress :
    (c : Conn) (s : Segment)
    → has_flag s.flags tcp_fin ≡ false
    → Fits c.tcb
    → Progress c (rx_text c s) s
rx_text-Progress c s no_fin fits = elim (text_case c s) [
  | empty none e ↦ rw (e, rx_fin_plain c s no_fin) (still (no_data none) refl refl)
  | out_of_order _ other e ↦ rw e (still (elsewhere other) refl refl)
  | in_order _ next e ↦
      let saved = save_data_and_ack-Saved c s.mem 54 s.segment_len s.flags in
      let c' : Conn = save_data_and_ack c s.mem 54 s.segment_len s.flags in
      let (grown, _, nxt) = append_data-contents c.tcb s.mem 54 s.segment_len fits in
      rw (e, rx_fin_plain c' s no_fin)
        (taken next (saved.rcv_nxt ∙ nxt) (saved_contents c' saved ∙ grown))
]
  where
    saved_contents :
        (c' : Conn)
        → Saved (append_data c.tcb s.mem 54 s.segment_len) c c'
        → contents c'.tcb ≡ contents (append_data c.tcb s.mem 54 s.segment_len)
    saved_contents c' saved = rw (saved.rcv_buff, saved.rcv_buff_len) refl

-- The receiver's fields agree.
record SameReceiver (c c' : Conn) : Type 0 where
  nxt : c'.tcb.rcv_nxt ≡ c.tcb.rcv_nxt
  buff : c'.tcb.rcv_buff ≡ c.tcb.rcv_buff
  len : c'.tcb.rcv_buff_len ≡ c.tcb.rcv_buff_len

Progress-SameReceiver :
    (c c' e : Conn) (s : Segment) → SameReceiver c c' → Progress c' e s → Progress c e s
Progress-SameReceiver c c' e s same (still why a b) =
    still (unmoved why) (a ∙ same.nxt) (b ∙ rw (same.buff, same.len) refl)
  where
    unmoved : PassedBy c' s → PassedBy c s
    unmoved (no_ack none) = no_ack none
    unmoved (no_data none) = no_data none
    unmoved (elsewhere other) = elsewhere (λ next. other (next ∙ sym same.nxt))
Progress-SameReceiver c c' e s same (taken a b d) =
    taken (a ∙ same.nxt) (b ∙ rw (same.nxt, same.len) refl) (d ∙ rw (same.buff, same.len) refl)

pub rx_state-no_ack :
    (c : Conn) (s : Segment)
    → c.tcb.state ≡ established
    → has_flag s.flags tcp_ack ≡ false
    → rx_state c.tcb.state c s ≡ unlock_rest false false c
unfolding rx_state
rx_state-no_ack c s est none = rw (est, none) refl

pub segment_arrives-Progress :
    (c : Conn) (s : Segment)
    → c.tcb.state ≡ established
    → has_flag s.flags tcp_fin ≡ false
    → Fits c.tcb
    → Progress c (segment_arrives c s) s
unfolding segment_arrives unlock_rest
segment_arrives-Progress c s est no_fin fits =
    let locked : Conn = set_send_lock true (set_tcb_lock true c) in
    elim (Bool-cases (has_flag s.flags tcp_ack)) [
      | inl ack ↦
          let c' : Conn = rx_ack_established locked s in
          let (_, nxt, buff, len, _, _) = rx_ack_established-data locked s in
          simp (rx_state-established c.tcb.state locked s est ack) (
            Progress-SameReceiver c c' (rx_text c' s) s
              (record { nxt = nxt; buff = buff; len = len })
              (rx_text-Progress c' s no_fin (subst (λ n. n ≤ tcp_rcv_max) (sym len) fits)))
      | inr none ↦ simp (rx_state-no_ack locked s est none) (still (no_ack none) refl refl)
    ]
