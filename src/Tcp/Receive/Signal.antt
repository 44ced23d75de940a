-- ===== src/Tcp/Receive/Signal.antt =====
-- src/tcp.c, `tcp_rx` in TCP_ESTABLISHED: when it signals `tcb_cond`.
use anp_netskeleton.Base.{
  ℕ, suc, ◌+◌, ◌<◌, ◌≤◌, List, [], ◌∷◌, ◌≡◌, ◌≢◌, ◌∙◌, sym, ap, subst, length, u32, refl, Bool,
  true, false, Bool-cases, inl, inr, All, ◌||◌, ◌==◌, not, if◌then◌else◌, arith,
}
use anp_netskeleton.Memory.{Mem}
use anp_netskeleton.Memory.Laws.{length-bytes}
use anp_netskeleton.Tcp.{
  established, Conn, with_tcb, has_flag, tcp_fin, tcp_ack, tcp_psh, tcp_rcv_max, retries_sendonce,
}
use anp_netskeleton.Tcp.Transmit.{set_send_lock}
use anp_netskeleton.Tcp.Transmit.Empty.{tcp_tx_empty-SentEmpty}
use anp_netskeleton.Tcp.Retransmit.{stop_retransmit}
use anp_netskeleton.Tcp.Buffer.{append_data, save_data_and_ack}
use anp_netskeleton.Tcp.Receive.{
  Segment, segment_arrives, rx_ack_established, rx_text, set_tcb_lock,
}
use anp_netskeleton.Tcp.Receive.Parts.{rx_fin_plain, empty, out_of_order, in_order, text_case}
use anp_netskeleton.Tcp.Receive.Order.{same_offset}
use anp_netskeleton.Tcp.Receive.GoBackN.{
  Delivery, deliver, user_reads, Cuts, Piece, cut-bound, cut_mono, go_back_n, cut-injective,
}
use anp_netskeleton.Tcp.Receive.Pieces.{HasPieces, deliver-HasPieces}
use anp_netskeleton.Tcp.Receive.Locks.{rx_state-established}

-- One signal, if the buffer of `len` bytes is full, or the flags have PSH.
abbrev pub bell : ℕ → ℕ → ℕ
bell len flags = if (len == tcp_rcv_max) || has_flag flags tcp_psh then 1 else 0

append_data-tcb_cond :
    (c : Conn) (source : Mem) (payload dlen : ℕ)
    → (append_data c.tcb source payload dlen).tcb_cond ≡ c.tcb.tcb_cond
unfolding append_data
append_data-tcb_cond c source payload dlen = refl

save_data_and_ack-tcb_cond :
    (c : Conn) (source : Mem) (payload dlen flags : ℕ)
    → let c' = save_data_and_ack c source payload dlen flags in
      c'.tcb.tcb_cond ≡ c.tcb.tcb_cond + bell c'.tcb.rcv_buff_len flags
unfolding save_data_and_ack
save_data_and_ack-tcb_cond c source payload dlen flags = ground (
  arith,
  append_data-tcb_cond c source payload dlen,
  tcp_tx_empty-SentEmpty (with_tcb c (append_data c.tcb source payload dlen)) tcp_ack
      retries_sendonce refl,
)

-- A segment that brings the next data signals as `bell` says; any other does not.
pub data Rings (c c' : Conn) (s : Segment) : Type 0 where
  rung :
      s.segment_len ≢ 0
      → s.seq_num ≡ c.tcb.rcv_nxt
      → c'.tcb.tcb_cond ≡ c.tcb.tcb_cond + bell c'.tcb.rcv_buff_len s.flags
      → Rings c c' s
  silent_empty : s.segment_len ≡ 0 → c'.tcb.tcb_cond ≡ c.tcb.tcb_cond → Rings c c' s
  silent_other : s.seq_num ≢ c.tcb.rcv_nxt → c'.tcb.tcb_cond ≡ c.tcb.tcb_cond → Rings c c' s

rx_text-Rings :
    (c : Conn) (s : Segment) → has_flag s.flags tcp_fin ≡ false → Rings c (rx_text c s) s
rx_text-Rings c s no_fin = elim (text_case c s) [
  | empty none e ↦ rw (e, rx_fin_plain c s no_fin) (silent_empty none refl)
  | out_of_order _ other e ↦ rw e (silent_other other refl)
  | in_order some_ next e ↦
      let c' : Conn = save_data_and_ack c s.mem 54 s.segment_len s.flags in
      rw (e, rx_fin_plain c' s no_fin)
        (rung some_ next (save_data_and_ack-tcb_cond c s.mem 54 s.segment_len s.flags))
]

rx_ack_established-receiver :
    (c : Conn) (s : Segment)
    → let c' = rx_ack_established c s in
      (c'.tcb.rcv_nxt ≡ c.tcb.rcv_nxt) × (c'.tcb.tcb_cond ≡ c.tcb.tcb_cond)
unfolding rx_ack_established stop_retransmit
rx_ack_established-receiver c s = ground arith

Rings-moved :
    (c c' e : Conn) (s : Segment)
    → c'.tcb.rcv_nxt ≡ c.tcb.rcv_nxt
    → c'.tcb.tcb_cond ≡ c.tcb.tcb_cond
    → Rings c' e s
    → Rings c e s
Rings-moved c c' e s nxt cond (rung some_ next count) =
    rung some_ (next ∙ nxt) (count ∙ ap (λ n. n + bell e.tcb.rcv_buff_len s.flags) cond)
Rings-moved c c' e s nxt cond (silent_empty none same) = silent_empty none (same ∙ cond)
Rings-moved c c' e s nxt cond (silent_other other same) =
    silent_other (λ next. other (next ∙ sym nxt)) (same ∙ cond)

pub segment_arrives-Rings :
    (c : Conn) (s : Segment)
    → c.tcb.state ≡ established
    → has_flag s.flags tcp_ack ≡ true
    → has_flag s.flags tcp_fin ≡ false
    → Rings c (segment_arrives c s) s
unfolding segment_arrives
segment_arrives-Rings c s est ack no_fin =
    let locked : Conn = set_send_lock true (set_tcb_lock true c) in
    let c' : Conn = rx_ack_established locked s in
    let (nxt, cond) = rx_ack_established-receiver locked s in
    simp (rx_state-established c.tcb.state locked s est ack)
      (Rings-moved c c' (rx_text c' s) s nxt cond (rx_text-Rings c' s no_fin))

-- How often the receiver of go-back-N, with the first `j` pieces, signals.
abbrev pub signals : (ℕ → ℕ) → ℕ → List Delivery → ℕ
signals cut j [] = 0
signals cut j (deliver i s ∷ ds) =
    if i == j then bell (cut (suc j)) s.flags + signals cut (suc j) ds else signals cut j ds
signals cut j (user_reads count ∷ ds) = signals cut j ds

-- The segment of a delivery has PSH, or it has not.
abbrev pub Pushed : Bool → ℕ → Delivery → Type 0
Pushed psh pieces (deliver i s) = (i < pieces) × (has_flag s.flags tcp_psh ≡ psh)
Pushed psh pieces (user_reads count) = Unit

-- What waits in a buffer that has not been read.
pub HasPieces-held :
    (stream : Mem) (base : ℕ) (cut : ℕ → ℕ) (j : ℕ) (c : Conn)
    → HasPieces stream base cut j [] c
    → c.tcb.rcv_buff_len ≡ cut j
HasPieces-held stream base cut j c has =
    sym (length-bytes c.tcb.rcv_buff 0 c.tcb.rcv_buff_len)
    ∙ ap length has.prefix
    ∙ length-bytes stream 0 (cut j)

-- One delivery of a stream.
pub deliver-signals :
    (stream : Mem) (base : ℕ) (cut : ℕ → ℕ) (pieces : ℕ) (i j : ℕ) (c : Conn) (s : Segment)
    → Cuts cut pieces
    → i < pieces
    → j ≤ pieces
    → Piece stream base cut i s
    → HasPieces stream base cut j [] c
    → (segment_arrives c s).tcb.tcb_cond
      ≡ c.tcb.tcb_cond + (if i == j then bell (cut (suc j)) s.flags else 0)
deliver-signals stream base cut pieces i j c s cuts less le p has =
    elim (segment_arrives-Rings c s has.state p.ack p.no_fin) [
      | silent_empty none _ ↦ absurd (omega (arith, none, p.size, cuts.growing i less))
      | rung _ next count ↦
          let small = cut-bound cut pieces cuts i (omega (arith, less)) in
          let small' = cut-bound cut pieces cuts j le in
          let same : i ≡ j = cut-injective cut pieces cuts i j less le (
            same_offset base (cut i) (cut j) (omega (arith, small)) (omega (arith, small'))
              (sym p.number ∙ next ∙ has.number)) in
          let here : (i == j) ≡ true = ground arith in
          let has' : HasPieces stream base cut (suc j) [] (segment_arrives c s) =
            subst (λ b. HasPieces stream base cut (if b then suc j else j) [] (segment_arrives c s))
              here (deliver-HasPieces stream base cut pieces cuts i j [] c s less le p has) in
          let held : (segment_arrives c s).tcb.rcv_buff_len ≡ cut (suc j) =
            HasPieces-held stream base cut (suc j) (segment_arrives c s) has' in
          rw here (count ∙ ap (λ n. c.tcb.tcb_cond + bell n s.flags) held)
      | silent_other other count ↦
          let away : i ≢ j = λ same.
            other (subst (λ k. s.seq_num ≡ u32 (base + cut k)) same p.number ∙ sym has.number) in
          let not_here : (i == j) ≡ false = ground arith in rw not_here (count ∙ omega arith)
    ]

-- The count over a whole stream: there is no signal without PSH while the buffer is not full, and one
-- if a piece that is the next one has PSH.
pub signals-none :
    (cut : ℕ → ℕ) (pieces : ℕ) (ds : List Delivery) (j : ℕ)
    → Cuts cut pieces
    → cut pieces < tcp_rcv_max
    → All (Pushed false pieces) ds
    → j ≤ pieces
    → signals cut j ds ≡ 0
signals-none cut pieces [] j cuts small plain le = refl
signals-none cut pieces (deliver i s ∷ ds) j cuts small ((less, none), plain) le =
    elim (Bool-cases (i == j)) [
      | inl same ↦
          let below : suc j ≤ pieces = ground arith in
          let bound : cut (suc j) ≤ cut pieces =
            cut_mono cut pieces cuts (suc j) pieces below (omega arith) in
          let room : (cut (suc j) == tcp_rcv_max) ≡ false = ground arith in
          let rest : signals cut (suc j) ds ≡ 0 =
            signals-none cut pieces ds (suc j) cuts small plain below in
          rw (same, room, none) (omega (arith, rest))
      | inr other ↦ rw other (signals-none cut pieces ds j cuts small plain le)
    ]
signals-none cut pieces (user_reads count ∷ ds) j cuts small (_, plain) le =
    signals-none cut pieces ds j cuts small plain le

pub signals-some :
    (cut : ℕ → ℕ) (pieces : ℕ) (ds : List Delivery) (j : ℕ)
    → All (Pushed true pieces) ds
    → j < go_back_n j ds
    → 0 < signals cut j ds
signals-some cut pieces [] j pushed more = absurd (omega (arith, more))
signals-some cut pieces (deliver i s ∷ ds) j ((less, psh), pushed) more =
    elim (Bool-cases (i == j)) [
      | inl same ↦ rw (same, psh) (ground arith)
      | inr other ↦ rw other (
          signals-some cut pieces ds j pushed
            (subst (λ b. j < go_back_n (if b then suc j else j) ds) other more))
    ]
signals-some cut pieces (user_reads count ∷ ds) j (_, pushed) more =
    signals-some cut pieces ds j pushed more

-- The whole stream, with PSH in all segments or in none.
pub signals-psh :
    (cut : ℕ → ℕ) (pieces : ℕ) (ds : List Delivery) (psh : Bool)
    → Cuts cut pieces
    → cut pieces < tcp_rcv_max
    → All (Pushed psh pieces) ds
    → 0 < pieces
    → go_back_n 0 ds ≡ pieces
    → (signals cut 0 ds == 0) ≡ not psh
signals-psh cut pieces ds true cuts small pushed some_ arrived =
    let more = signals-some cut pieces ds 0 pushed (omega (arith, some_, arrived)) in ground arith
signals-psh cut pieces ds false cuts small plain some_ arrived =
    let none = signals-none cut pieces ds 0 cuts small plain (omega arith) in ground arith
