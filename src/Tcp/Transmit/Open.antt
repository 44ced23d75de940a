-- ===== src/Tcp/Transmit/Open.antt =====
-- src/tcp.c, `tcp_tx` for data that fits in the window.
use anp_netskeleton.Base.{
  ℕ, zero, suc, ◌+◌, ◌-◌, ◌<◌, ◌≤◌, ◌≡◌, ◌≢◌, ap, Bool-cases, inl, inr, true, false, [], ◌==◌, u32,
  arith,
}
use anp_netskeleton.Memory.{Mem}
use anp_netskeleton.Tcp.{Tcb, Conn, has_flag, tcp_syn, tcp_fin}
use anp_netskeleton.Tcp.Packet.{add_msg_to_arr}
use anp_netskeleton.Tcp.Transmit.{
  returned, next_seg_size, send_segment, set_send_lock, window_full, tx_loop, tcp_tx, valid_retries,
}
use anp_netskeleton.Tcp.Transmit.Loop.{next_seg_size-le, next_seg_size-zero, after_segment}
use anp_netskeleton.Tcp.Transmit.Rounds.{count_control-plain, create_tcp_packet-tcb}

-- The `left` bytes fit in the window behind those in flight, and no number wraps around.
record Room (t : Tcb) (left : ℕ) : Type 0 where
  order : t.snd_una ≤ t.snd_nxt
  unwrapped : t.snd_nxt + left < 4294967296
  inside : (t.snd_nxt - t.snd_una) + left < t.snd_wnd

Room-unlocked : (t : Tcb) (a b : ℕ) → a ≡ b → Room t a → Room (record t { send_lock = false }) b
Room-unlocked t a b e r = record {
  order = r.order;
  unwrapped = omega (arith, e, r.unwrapped);
  inside = omega (arith, e, r.inside);
}

module _ (flags : ℕ) (syn : has_flag flags tcp_syn ≡ false) (fin : has_flag flags tcp_fin ≡ false)
    (source : Mem) (retries : ℕ) where
  after_segment-fields :
      (c : Conn) (at left : ℕ)
      → let c' = after_segment c source at left flags retries in
        (c'.tcb.snd_nxt ≡ u32 (c.tcb.snd_nxt + next_seg_size c left))
        × (c'.tcb.snd_una ≡ c.tcb.snd_una)
        × (c'.tcb.snd_wnd ≡ c.tcb.snd_wnd)
  unfolding send_segment add_msg_to_arr
  after_segment-fields c at left = ground (
    arith,
    create_tcp_packet-tcb (record c.tcb { send_lock = true }) source at (next_seg_size c left)
        flags,
    count_control-plain (record c.tcb { send_lock = true }) flags syn fin,
  )

  after_segment-Room :
      (c : Conn) (at left : ℕ)
      → Room c.tcb left
      → Room (after_segment c source at left flags retries).tcb (left - next_seg_size c left)
  after_segment-Room c at left r =
      let (nxt, una, wnd) = after_segment-fields c at left in
      let le = next_seg_size-le c left in
      record {
        order = omega (arith, nxt, una, le, r.order, r.unwrapped);
        unwrapped = omega (arith, nxt, le, r.unwrapped);
        inside = omega (arith, nxt, una, wnd, le, r.order, r.unwrapped, r.inside);
      }

  Room-open : (c : Conn) (left : ℕ) → Room c.tcb left → window_full c ≡ false
  Room-open c left r = ground (arith, r.order, r.unwrapped, r.inside)

  progress : (c : Conn) (left : ℕ) → Room c.tcb left → 0 < left → next_seg_size c left ≢ 0
  progress c left r more e = omega (arith, next_seg_size-zero c left more e, r.inside)

  tx_loop-returned :
      (fuel : ℕ) (c : Conn) (at sent size : ℕ)
      → sent ≤ size
      → size - sent < fuel
      → Room c.tcb (size - sent)
      → (c' : Conn) × (tx_loop fuel [] c source at sent size flags retries ≡ returned size c')
  unfolding tx_loop
  tx_loop-returned zero c at sent size le h r = absurd (omega arith)
  tx_loop-returned (suc fuel) c at sent size le h r =
      let seg : ℕ = next_seg_size c (size - sent) in
      let c1 : Conn = after_segment c source at (size - sent) flags retries in
      let free : Conn = set_send_lock false c1 in
      let short = next_seg_size-le c (size - sent) in
      let r1 = after_segment-Room c at (size - sent) r in
      elim (Bool-cases (sent + seg == size)) [
        | inl done ↦ (free, rw done (ap (λ n. returned n free) (ground arith)))
        | inr more ↦
            let unfinished : sent + seg ≢ size = ground arith in
            let some_ : seg ≢ 0 = progress c (size - sent) r (omega (arith, short)) in
            let left : (size - sent) - seg ≡ size - (sent + seg) = omega (arith, short) in
            let (c', e) =
              tx_loop-returned fuel free (at + seg) (sent + seg) size (omega (arith, short))
                (omega (arith, short, some_))
                (Room-unlocked c1.tcb ((size - sent) - seg) (size - (sent + seg)) left r1) in
            (c', rw (more, Room-open c1 ((size - sent) - seg) r1) e)
      ]

-- Data that fits in the window, behind the bytes in flight and with a byte to spare, is sent with no
-- wait: `tcp_tx` returns its size. (The flags have neither SYN nor FIN, the retry value is one of the
-- three, and no sequence number wraps around.)
pub tcp_tx-returned :
    (c : Conn) (source : Mem) (size flags retries : ℕ)
    → valid_retries retries ≡ true
    → has_flag flags tcp_syn ≡ false
    → has_flag flags tcp_fin ≡ false
    → c.tcb.snd_una ≤ c.tcb.snd_nxt
    → c.tcb.snd_nxt + size < 4294967296
    → (c.tcb.snd_nxt - c.tcb.snd_una) + size < c.tcb.snd_wnd
    → (c' : Conn) × (tcp_tx [] c source size flags retries ≡ returned size c')
unfolding tcp_tx
tcp_tx-returned c source size flags retries valid syn fin order unwrapped inside = rw valid (
    tx_loop-returned flags syn fin source retries (suc (size + 0)) c 0 0 size (omega arith)
      (omega arith)
      (record {
        order = order;
        unwrapped = omega (arith, unwrapped);
        inside = omega (arith, inside);
      }))
