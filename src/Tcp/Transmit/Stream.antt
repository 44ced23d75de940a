-- ===== src/Tcp/Transmit/Stream.antt =====
-- src/tcp.c, `tcp_tx`: the segments that carry the data.
use anp_netskeleton.Base.{
  ℕ, zero, suc, ◌+◌, ◌-◌, ◌<◌, ◌≤◌, ◌≡◌, subst, if-cases, inl, inr, refl, true, false, List, [],
  ◌∷◌, All, length, ◌==◌, if◌then◌else◌, arith,
}
use anp_netskeleton.Memory.{Mem}
use anp_netskeleton.Tcp.{Conn, has_flag, tcp_fin, tcp_syn}
use anp_netskeleton.Tcp.Transmit.{
  TxResult, returned, blocked, next_seg_size, set_send_lock, window_full, tx_loop, tcp_tx,
  valid_retries,
}
use anp_netskeleton.Tcp.Transmit.Loop.{after_segment, next_seg_size-le, next_seg_size-le_max}
use anp_netskeleton.Tcp.Transmit.Rounds.{
  KeepsQueue, Round, Queued, Round-Queued, Queued-cons, send_segment-Round,
}

returned-injective : {m n : ℕ} {c c' : Conn} → returned m c ≡ returned n c' → (m ≡ n) × (c ≡ c')
returned-injective h = (cc, cc)

module _ (flags : ℕ) (syn : has_flag flags tcp_syn ≡ false) (fin : has_flag flags tcp_fin ≡ false)
    (source : Mem) (size retries : ℕ) where
  round :
      (c : Conn) (at left : ℕ)
      → c.tcb.snd_nxt < 4294967296
      → 0 < c.room
      → Round c (after_segment c source at left flags retries) source at (next_seg_size c left)
  round c at left small room =
      send_segment-Round flags syn fin c source at (next_seg_size c left) retries small
        (omega (arith, next_seg_size-le_max c left)) room

  -- The part of a round that the loop goes on from, whatever `c2` it goes on with.
  continue :
      (c c2 c' : Conn) (at sent : ℕ)
      → c.tcb.snd_nxt < 4294967296
      → 0 < c.room
      → sent ≤ size
      → c2.messages ≡ (after_segment c source at (size - sent) flags retries).messages
      → c2.tcb.snd_nxt ≡ (after_segment c source at (size - sent) flags retries).tcb.snd_nxt
      → Queued c2 c' source
          (at + next_seg_size c (size - sent))
          (size - (sent + next_seg_size c (size - sent)))
      → Queued c c' source at (size - sent)
  continue c c2 c' at sent small room inside same nxt q =
      let total : next_seg_size c (size - sent) + (size - (sent + next_seg_size c (size - sent)))
          ≡ size - sent =
        omega (arith, next_seg_size-le c (size - sent)) in
      subst (λ k. Queued c c' source at k) total
        (Queued-cons (next_seg_size-le_max c (size - sent)) (round c at (size - sent) small room)
          same nxt q)

  last :
      (c : Conn) (at sent : ℕ)
      → c.tcb.snd_nxt < 4294967296
      → 0 < c.room
      → ((sent + next_seg_size c (size - sent)) == size) ≡ true
      → Queued c
          (set_send_lock false (after_segment c source at (size - sent) flags retries))
          source
          at
          (size - sent)
  last c at sent small room done =
      let c' : Conn = after_segment c source at (size - sent) flags retries in
      let total : next_seg_size c (size - sent) ≡ size - sent = ground arith in
      let q : Queued c c' source at (next_seg_size c (size - sent)) =
        Round-Queued (next_seg_size-le_max c (size - sent)) (round c at (size - sent) small room) in
      subst (λ k. Queued c (set_send_lock false c') source at k) total
        (record { msgs = q.msgs; queue = q.queue; carried = q.carried; segments = q.segments })

  finish :
      (c : Conn) (at sent n : ℕ) {c' : Conn}
      → c.tcb.snd_nxt < 4294967296
      → 0 < c.room
      → ((sent + next_seg_size c (size - sent)) == size) ≡ true
      → returned
          (sent + next_seg_size c (size - sent))
          (set_send_lock false (after_segment c source at (size - sent) flags retries))
        ≡ returned n c'
      → Queued c c' source at (size - sent) × (n ≡ size)
  finish c at sent n small room done e =
      let (number, conn) = returned-injective e in
      (
        subst (λ x. Queued c x source at (size - sent)) conn (last c at sent small room done),
        ground arith,
      )

  tx_loop-Queued :
      (fuel : ℕ) (env : List (Conn → Conn)) (c : Conn) (at sent n : ℕ) {c' : Conn}
      → All KeepsQueue env
      → c.tcb.snd_nxt < 4294967296
      → fuel ≤ c.room
      → sent ≤ size
      → tx_loop fuel env c source at sent size flags retries ≡ returned n c'
      → Queued c c' source at (size - sent) × (n ≡ size)
  unfolding tx_loop
  tx_loop-Queued zero env c at sent n keeps small room inside h = cc
  tx_loop-Queued (suc fuel) [] c at sent n {c'} keeps small room inside h =
      let seg : ℕ = next_seg_size c (size - sent) in
      let c1 : Conn = after_segment c source at (size - sent) flags retries in
      let free : Conn = set_send_lock false c1 in
      let rest : TxResult =
        tx_loop fuel [] free source (at + seg) (sent + seg) size flags retries in
      let r = round c at (size - sent) small (omega arith) in
      let le = next_seg_size-le c (size - sent) in
      elim (if-cases (sent + seg == size) (returned (sent + seg) free)
        (if window_full c1 then blocked free else rest) (returned n c') h) [
          | inl (done, e) ↦ finish c at sent n small (omega arith) done e
          | inr (more, e) ↦ elim (if-cases (window_full c1) (blocked free) rest (returned n c') e) [
            | inl (full, e') ↦ cc
            | inr (_, e') ↦
                let (q, all) =
                  tx_loop-Queued fuel [] free (at + seg) (sent + seg) n tt (omega (arith, r.nxt))
                    (omega (arith, r.room)) (omega (arith, le)) e' in
                (continue c free c' at sent small (omega arith) inside refl refl q, all)
          ]
        ]
  tx_loop-Queued (suc fuel) (wake ∷ env) c at sent n {c'} keeps small room inside h =
      let seg : ℕ = next_seg_size c (size - sent) in
      let c1 : Conn = after_segment c source at (size - sent) flags retries in
      let free : Conn = set_send_lock false c1 in
      let woken : Conn = set_send_lock false (wake free) in
      let rest : TxResult =
        tx_loop fuel (wake ∷ env) free source (at + seg) (sent + seg) size flags retries in
      let later : TxResult =
        tx_loop fuel env woken source (at + seg) (sent + seg) size flags retries in
      let r = round c at (size - sent) small (omega arith) in
      let le = next_seg_size-le c (size - sent) in
      let (kept, nxt, left) = keeps.0 free in
      elim (if-cases (sent + seg == size) (returned (sent + seg) free)
        (if window_full c1 then later else rest) (returned n c') h) [
          | inl (done, e) ↦ finish c at sent n small (omega arith) done e
          | inr (more, e) ↦ elim (if-cases (window_full c1) later rest (returned n c') e) [
            | inl (full, e') ↦
                let (q, all) =
                  tx_loop-Queued fuel env woken (at + seg) (sent + seg) n keeps.1
                    (omega (arith, r.nxt, nxt)) (omega (arith, r.room, left)) (omega (arith, le))
                    e' in
                (continue c woken c' at sent small (omega arith) inside kept nxt q, all)
            | inr (_, e') ↦
                let (q, all) =
                  tx_loop-Queued fuel (wake ∷ env) free (at + seg) (sent + seg) n keeps
                    (omega (arith, r.nxt)) (omega (arith, r.room)) (omega (arith, le)) e' in
                (continue c free c' at sent small (omega arith) inside refl refl q, all)
          ]
        ]

-- When `tcp_tx` returns, with room in memory for its messages and with wake-ups that leave the queue
-- alone, it returns the size, and the message list has grown by segments of at most 1460 bytes, under
-- consecutive sequence numbers (modulo 2 ^ 32) from `snd_nxt` on, whose data put together is exactly
-- the data that was given. (The flags have neither SYN nor FIN, and the retry value is one of the
-- three.)
pub tcp_tx-Queued :
    (env : List (Conn → Conn)) (c : Conn) (source : Mem) (size flags retries n : ℕ) {c' : Conn}
    → valid_retries retries ≡ true
    → has_flag flags tcp_syn ≡ false
    → has_flag flags tcp_fin ≡ false
    → All KeepsQueue env
    → c.tcb.snd_nxt < 4294967296
    → suc (size + length env) ≤ c.room
    → tcp_tx env c source size flags retries ≡ returned n c'
    → Queued c c' source 0 size × (n ≡ size)
unfolding tcp_tx
tcp_tx-Queued env c source size flags retries n {c'} valid syn fin keeps small room h =
    let whole : size - 0 ≡ size = omega arith in
    subst (λ k. Queued c c' source 0 k × (n ≡ size)) whole
      (tx_loop-Queued flags syn fin source size retries (suc (size + length env)) env c 0 0 n keeps
        small room (omega arith) (ground arith))
