-- ===== src/Tcp/Transmit/Made.antt =====
-- src/tcp.c, `tcp_tx` where no wait is needed: the messages that it puts in the list, one by one.
use mathlib.Core.List.{append_assoc, append-nil}
use anp_netskeleton.Base.{
  ℕ, zero, suc, ◌+◌, ◌-◌, ◌<◌, ◌≤◌, ◌≡◌, ◌≢◌, ◌∙◌, sym, subst, refl, if-cases, Bool-cases, inl, inr,
  true, false, List, [], ◌∷◌, ◌++◌, All, ◌==◌, if◌then◌else◌, u32, arith,
}
use anp_netskeleton.Memory.{Mem}
use anp_netskeleton.Tcp.{Tcb, Message, Conn, has_flag, tcp_fin, tcp_syn, tcp_max_seg_size}
use anp_netskeleton.Tcp.Packet.{create_tcp_packet, add_msg_to_arr, new_message}
use anp_netskeleton.Tcp.Transmit.{
  TxResult, returned, blocked, next_seg_size, send_segment, set_send_lock, window_full, tx_loop,
  tcp_tx, valid_retries,
}
use anp_netskeleton.Tcp.Transmit.Loop.{
  after_segment, next_seg_size-le, next_seg_size-le_max, stalled,
}
use anp_netskeleton.Tcp.Transmit.Open.{tcp_tx-returned}
use anp_netskeleton.Tcp.Transmit.Rounds.{count_control-plain, create_tcp_packet-tcb}

-- The control block of the next segment, `n` bytes further on.
abbrev pub further : Tcb → ℕ → Tcb
further t n = record t { snd_nxt = u32 (t.snd_nxt + n) }

-- The messages for segments of the sizes `ns`, from the control block `t` on.
abbrev pub made : ℕ → Tcb → Mem → ℕ → ℕ → ℕ → List ℕ → List Message
made ptr t source at flags retries [] = []
made ptr t source at flags retries (n ∷ ns) =
    new_message ptr (create_tcp_packet t source at n flags).0 retries
    ∷ made ptr (further t n) source (at + n) flags retries ns

abbrev pub sum : List ℕ → ℕ
sum [] = 0
sum (n ∷ ns) = n + sum ns

abbrev pub locked_tcb : Conn → Tcb
locked_tcb c = record c.tcb { send_lock = true }

-- `left` bytes from `at` on have been cut into segments that are not empty, and put in the list.
pub record Made (c c' : Conn) (source : Mem) (at left flags retries : ℕ) : Type 0 where
  pub sizes : List ℕ
  pub queue : c'.messages ≡ c.messages ++ made c.ptr (locked_tcb c) source at flags retries sizes
  pub total : sum sizes ≡ left
  pub bounds : All (λ n. (0 < n) × (n ≤ tcp_max_seg_size)) sizes

module _ (flags : ℕ) (syn : has_flag flags tcp_syn ≡ false) (fin : has_flag flags tcp_fin ≡ false)
    (source : Mem) (retries : ℕ) where
  after_segment-made :
      (c : Conn) (at left : ℕ)
      → 0 < c.room
      → let n = next_seg_size c left in
        let c' = after_segment c source at left flags retries in
        (c'.messages
          ≡ c.messages
            ++ (new_message c.ptr (create_tcp_packet (locked_tcb c) source at n flags).0 retries
                ∷ []))
        × (c'.ptr ≡ c.ptr)
        × (c'.room ≡ c.room - 1)
        × (c'.tcb ≡ further (locked_tcb c) n)
  unfolding send_segment add_msg_to_arr
  after_segment-made c at left room = ground (
    arith,
    create_tcp_packet-tcb (locked_tcb c) source at (next_seg_size c left) flags,
    count_control-plain (locked_tcb c) flags syn fin,
  )

  relock : {t t' : Tcb} → t ≡ t' → record t { send_lock = true } ≡ record t' { send_lock = true }
  relock e = rw e refl

  -- A round after which the window is open has sent something.
  moved :
      (c : Conn) (at left : ℕ)
      → 0 < left
      → window_full (after_segment c source at left flags retries) ≡ false
      → 0 < next_seg_size c left
  moved c at left more open_ = elim (Bool-cases (next_seg_size c left == 0)) [
    | inl none_ ↦ cc (stalled c source at left flags retries more (ground arith), open_)
    | inr some_ ↦ ground arith
  ]

  Made-cons :
      (c c' : Conn) (at left rest : ℕ)
      → 0 < c.room
      → 0 < next_seg_size c left
      → next_seg_size c left + rest ≡ left
      → Made
          (set_send_lock false (after_segment c source at left flags retries))
          c'
          source
          (at + next_seg_size c left)
          rest
          flags
          retries
      → Made c c' source at left flags retries
  Made-cons c c' at left rest room some_ whole more =
      let n : ℕ = next_seg_size c left in
      let c1 : Conn = after_segment c source at left flags retries in
      let (queue, ptr, _, tcb) = after_segment-made c at left room in
      let start : locked_tcb (set_send_lock false c1) ≡ further (locked_tcb c) n = relock tcb in
      let msg : Message =
        new_message c.ptr (create_tcp_packet (locked_tcb c) source at n flags).0 retries in
      record {
        sizes = n ∷ more.sizes;
        queue = more.queue ∙ rw (queue, ptr, start) (append_assoc c.messages (msg ∷ []) _);
        total = omega (arith, more.total, whole);
        bounds = ((some_, next_seg_size-le_max c left), more.bounds);
      }

  Made-nil : (c : Conn) (at : ℕ) → Made c c source at 0 flags retries
  Made-nil c at = record {
    sizes = [];
    queue = sym (append-nil c.messages);
    total = refl;
    bounds = tt;
  }

  tx_loop-Made :
      (fuel : ℕ) (c : Conn) (at sent size n : ℕ) {c' : Conn}
      → fuel ≤ c.room
      → sent < size
      → tx_loop fuel [] c source at sent size flags retries ≡ returned n c'
      → Made c c' source at (size - sent) flags retries
  unfolding tx_loop
  tx_loop-Made zero c at sent size n room more h = cc
  tx_loop-Made (suc fuel) c at sent size n {c'} room more h =
      let left : ℕ = size - sent in
      let seg : ℕ = next_seg_size c left in
      let c1 : Conn = after_segment c source at left flags retries in
      let free : Conn = set_send_lock false c1 in
      let rest : TxResult =
        tx_loop fuel [] free source (at + seg) (sent + seg) size flags retries in
      let (_, _, room1, _) = after_segment-made c at left (omega (arith, room)) in
      let le = next_seg_size-le c left in
      elim (if-cases (sent + seg == size) (returned (sent + seg) free)
        (if window_full c1 then blocked free else rest) (returned n c') h) [
          | inl (done, e) ↦
              let same : free ≡ c' = cc in
              let all_sent : seg ≡ left = ground arith in
              subst (λ x. Made c x source at left flags retries) same
                (Made-cons c free at left 0 (omega (arith, room)) (omega (arith, all_sent, more))
                  (omega (arith, all_sent)) (Made-nil free (at + seg)))
          | inr (unfinished, e) ↦
              elim (if-cases (window_full c1) (blocked free) rest (returned n c') e) [
                | inl (full, e') ↦ cc
                | inr (open_, e') ↦
                    let some_ : 0 < seg = moved c at left (omega (arith, more)) open_ in
                    let unfinished' : sent + seg ≢ size = ground arith in
                    Made-cons c c' at left (size - (sent + seg)) (omega (arith, room)) some_
                      (omega (arith, le, more))
                      (tx_loop-Made fuel free (at + seg) (sent + seg) size n
                        (omega (arith, room, room1)) (omega (arith, le, more, unfinished')) e')
              ]
        ]

tcp_tx-loop :
    (c : Conn) (source : Mem) (size flags retries : ℕ)
    → valid_retries retries ≡ true
    → tcp_tx [] c source size flags retries
      ≡ tx_loop (suc (size + 0)) [] c source 0 0 size flags retries
unfolding tcp_tx
tcp_tx-loop c source size flags retries valid = rw valid refl

-- Data that fits in the window, behind the bytes in flight and with a byte to spare, is sent with
-- no wait: tcp_tx returns its size, and the message list has grown by exactly the messages for
-- packets of create_tcp_packet with segments that are not empty, have at most 1460 bytes, together
-- have the size of the data, and follow each other in the data and in the sequence numbers, in
-- this order. (There is data and room in memory for its messages, the flags have neither SYN nor
-- FIN, the retry value is one of the three, and no sequence number wraps around.)
pub tcp_tx-Made :
    (c : Conn) (source : Mem) (size flags retries : ℕ)
    → valid_retries retries ≡ true
    → has_flag flags tcp_syn ≡ false
    → has_flag flags tcp_fin ≡ false
    → 0 < size
    → size < c.room
    → c.tcb.snd_una ≤ c.tcb.snd_nxt
    → c.tcb.snd_nxt + size < 4294967296
    → (c.tcb.snd_nxt - c.tcb.snd_una) + size < c.tcb.snd_wnd
    → (c' : Conn) × (tcp_tx [] c source size flags retries ≡ returned size c')
      × Made c c' source 0 size flags retries
tcp_tx-Made c source size flags retries valid syn fin some_ room order unwrapped inside =
    let (c', done) =
      tcp_tx-returned c source size flags retries valid syn fin order unwrapped inside in
    let fuel : tcp_tx [] c source size flags retries
        ≡ tx_loop (suc (size + 0)) [] c source 0 0 size flags retries =
      tcp_tx-loop c source size flags retries valid in
    let whole : size - 0 ≡ size = omega arith in
    (
      c',
      done,
      subst (λ n. Made c c' source 0 n flags retries) whole
          (tx_loop-Made flags syn fin source retries (suc (size + 0)) c 0 0 size size
            (omega (arith, room)) some_ (sym fuel ∙ done)),
    )
