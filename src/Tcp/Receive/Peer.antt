-- ===== src/Tcp/Receive/Peer.antt =====
-- src/tcp.c, `tcp_rx` in TCP_ESTABLISHED: the connection keeps its address, its ports and its peer.
use anp_netskeleton.Base.{
  ℕ, ◌≡◌, ◌∙◌, refl, Bool, true, false, ltb, if◌then◌else◌, Bool-cases, inl, inr, arith,
}
use anp_netskeleton.Tcp.{
  established, Tcb, Conn, with_tcb, has_flag, tcp_fin, tcp_ack, retries_sendonce,
}
use anp_netskeleton.Memory.{Mem}
use anp_netskeleton.Tcp.Transmit.{set_send_lock, tcp_tx_empty}
use anp_netskeleton.Tcp.Transmit.Empty.{tcp_tx_empty-SentEmpty}
use anp_netskeleton.Tcp.Buffer.{signal_tcb, final_copy_size, append_data, save_data_and_ack}
use anp_netskeleton.Tcp.Retransmit.{stop_retransmit}
use anp_netskeleton.Tcp.Receive.{
  Segment, segment_arrives, rx_ack_established, rx_text, rx_fin, set_tcb_lock, unlock_rest,
}
use anp_netskeleton.Tcp.Receive.Parts.{
  save_data_and_ack-Saved, rx_fin_established, rx_fin_plain, empty, out_of_order, in_order,
  text_case,
}
use anp_netskeleton.Tcp.Receive.Progress.{rx_state-no_ack}
use anp_netskeleton.Tcp.Receive.Locks.{rx_state-established}

-- What `get_tcb` looks at.
pub record SameEnds (t t' : Tcb) : Type 0 where
  pub local_port : t'.local_port ≡ t.local_port
  pub local_ip : t'.local_ip ≡ t.local_ip
  pub remote_port : t'.remote_port ≡ t.remote_port
  pub remote_ip : t'.remote_ip ≡ t.remote_ip

pub record SamePeer (c c' : Conn) : Type 0 where
  pub ptr : c'.ptr ≡ c.ptr
  pub ends : SameEnds c.tcb c'.tcb

SamePeer-trans : {c c' c'' : Conn} → SamePeer c c' → SamePeer c' c'' → SamePeer c c''
SamePeer-trans a b = record {
  ptr = b.ptr ∙ a.ptr;
  ends = record {
    local_port = b.ends.local_port ∙ a.ends.local_port;
    local_ip = b.ends.local_ip ∙ a.ends.local_ip;
    remote_port = b.ends.remote_port ∙ a.ends.remote_port;
    remote_ip = b.ends.remote_ip ∙ a.ends.remote_ip;
  };
}

append_data-SamePeer :
    (c : Conn) (source : Mem) (payload dlen : ℕ)
    → SamePeer c (with_tcb c (append_data c.tcb source payload dlen))
unfolding append_data
append_data-SamePeer c source payload dlen = record {
  ptr = refl;
  ends = record { local_port = refl; local_ip = refl; remote_port = refl; remote_ip = refl };
}

tcp_tx_empty-SamePeer : (c : Conn) → SamePeer c (tcp_tx_empty c tcp_ack retries_sendonce)
tcp_tx_empty-SamePeer c =
    let sent = tcp_tx_empty-SentEmpty c tcp_ack retries_sendonce refl in
    record {
      ptr = sent.ptr;
      ends = record {
        local_port = sent.local_port;
        local_ip = sent.local_ip;
        remote_port = sent.remote_port;
        remote_ip = sent.remote_ip;
      };
    }

save_data_and_ack-SamePeer :
    (c : Conn) (source : Mem) (payload dlen flags : ℕ)
    → SamePeer c (save_data_and_ack c source payload dlen flags)
unfolding save_data_and_ack
save_data_and_ack-SamePeer c source payload dlen flags =
    let saved : Conn = with_tcb c (append_data c.tcb source payload dlen) in
    let appended = append_data-SamePeer c source payload dlen in
    let acked = SamePeer-trans appended (tcp_tx_empty-SamePeer saved) in
    signal_if _ _ (acked_if (ltb 0 (final_copy_size c.tcb dlen)) appended acked)
  where
    acked_if :
        {c c' c'' : Conn} (b : Bool)
        → SamePeer c c'
        → SamePeer c c''
        → SamePeer c (if b then c'' else c')
    acked_if true a a' = a'
    acked_if false a a' = a

    signal_if :
        {c : Conn} (b : Bool) (c' : Conn)
        → SamePeer c c'
        → SamePeer c (if b then with_tcb c' (signal_tcb c'.tcb) else c')
    signal_if true c' same = record {
      ptr = same.ptr;
      ends = record {
        local_port = same.ends.local_port;
        local_ip = same.ends.local_ip;
        remote_port = same.ends.remote_port;
        remote_ip = same.ends.remote_ip;
      };
    }
    signal_if false c' same = same

tcb_lock-SamePeer : (c : Conn) → SamePeer c (set_tcb_lock false c)
tcb_lock-SamePeer c = record {
  ptr = refl;
  ends = record { local_port = refl; local_ip = refl; remote_port = refl; remote_ip = refl };
}

rx_fin-SamePeer : (c : Conn) (s : Segment) → c.tcb.state ≡ established → SamePeer c (rx_fin c s)
rx_fin-SamePeer c s est = elim (Bool-cases (has_flag s.flags tcp_fin)) [
  | inl fin ↦ rw (rx_fin_established c s est fin) (record {
    ptr = refl;
    ends = record { local_port = refl; local_ip = refl; remote_port = refl; remote_ip = refl };
  })
  | inr no_fin ↦ rw (rx_fin_plain c s no_fin) (tcb_lock-SamePeer c)
]

rx_text-SamePeer : (c : Conn) (s : Segment) → c.tcb.state ≡ established → SamePeer c (rx_text c s)
rx_text-SamePeer c s est = elim (text_case c s) [
  | empty _ e ↦ rw e (rx_fin-SamePeer c s est)
  | out_of_order _ _ e ↦ rw e (tcb_lock-SamePeer c)
  | in_order _ _ e ↦
      let c' : Conn = save_data_and_ack c s.mem 54 s.segment_len s.flags in
      let saved = save_data_and_ack-Saved c s.mem 54 s.segment_len s.flags in
      rw e (
        SamePeer-trans (save_data_and_ack-SamePeer c s.mem 54 s.segment_len s.flags)
          (rx_fin-SamePeer c' s (saved.state ∙ est)))
]

rx_ack_established-state :
    (c : Conn) (s : Segment) → (rx_ack_established c s).tcb.state ≡ c.tcb.state
unfolding rx_ack_established stop_retransmit
rx_ack_established-state c s = ground arith

rx_ack_established-SamePeer :
    (c : Conn) (s : Segment)
    → SamePeer c (rx_ack_established (set_send_lock true (set_tcb_lock true c)) s)
unfolding rx_ack_established stop_retransmit
rx_ack_established-SamePeer c s = ground arith

pub segment_arrives-SamePeer :
    (c : Conn) (s : Segment) → c.tcb.state ≡ established → SamePeer c (segment_arrives c s)
unfolding segment_arrives unlock_rest
segment_arrives-SamePeer c s est =
    let locked : Conn = set_send_lock true (set_tcb_lock true c) in
    elim (Bool-cases (has_flag s.flags tcp_ack)) [
      | inl ack ↦ simp (rx_state-established c.tcb.state locked s est ack) (
          SamePeer-trans (rx_ack_established-SamePeer c s) (
            rx_text-SamePeer (rx_ack_established locked s) s
              (rx_ack_established-state locked s ∙ est)))
      | inr none ↦ simp (rx_state-no_ack locked s est none) (record {
        ptr = refl;
        ends = record { local_port = refl; local_ip = refl; remote_port = refl; remote_ip = refl };
      })
    ]
