-- ===== src/Tcp/Transmit/Loop.antt =====
-- src/tcp.c, the loop of `tcp_tx`: its fuel.
use anp_netskeleton.Base.{
  ℕ, zero, suc, ◌+◌, ◌-◌, ◌<◌, ◌≤◌, ◌≡◌, ◌≢◌, true, false, List, [], ◌∷◌, length, arith,
}
use anp_netskeleton.Memory.{Mem}
use anp_netskeleton.Tcp.{Tcb, Conn, tcp_max_seg_size}
use anp_netskeleton.Tcp.Packet.{create_tcp_packet, count_control, add_msg_to_arr}
use anp_netskeleton.Tcp.Transmit.{
  out_of_fuel, next_seg_size, send_segment, set_send_lock, window_full, tx_loop, tcp_tx,
}

pub next_seg_size-le : (c : Conn) (left : ℕ) → next_seg_size c left ≤ left
unfolding next_seg_size
next_seg_size-le c left = ground arith

pub next_seg_size-le_max : (c : Conn) (left : ℕ) → next_seg_size c left ≤ tcp_max_seg_size
unfolding next_seg_size
next_seg_size-le_max c left = ground arith

pub next_seg_size-zero :
    (c : Conn) (left : ℕ) → 0 < left → next_seg_size c left ≡ 0 → c.tcb.snd_wnd ≡ 0
unfolding next_seg_size
next_seg_size-zero c left h e = ground arith

pub count_control-wnd : (t : Tcb) (flags : ℕ) → (count_control t flags).snd_wnd ≡ t.snd_wnd
unfolding count_control
count_control-wnd t flags = ground arith

pub add_msg_to_arr-tcb :
    (c : Conn) (sub : _) (retries : ℕ) → (add_msg_to_arr c sub retries).tcb ≡ c.tcb
unfolding add_msg_to_arr
add_msg_to_arr-tcb c sub retries = ground arith

pub send_segment-wnd :
    (c : Conn) (source : Mem) (at size flags retries : ℕ)
    → (send_segment c source at size flags retries).tcb.snd_wnd ≡ c.tcb.snd_wnd
unfolding send_segment add_msg_to_arr create_tcp_packet
send_segment-wnd c source at size flags retries = ground (arith, count_control-wnd c.tcb flags)

-- The connection after the segment of one round.
abbrev pub after_segment : Conn → Mem → ℕ → ℕ → ℕ → ℕ → Conn
after_segment c source at left flags retries =
    send_segment (set_send_lock true c) source at (next_seg_size c left) flags retries

-- A round that sends nothing, with data left, finds the window full.
pub stalled :
    (c : Conn) (source : Mem) (at left flags retries : ℕ)
    → 0 < left
    → next_seg_size c left ≡ 0
    → window_full (after_segment c source at left flags retries) ≡ true
stalled c source at left flags retries h e = ground (
  arith,
  next_seg_size-zero c left h e,
  send_segment-wnd (set_send_lock true c) source at (next_seg_size c left) flags retries,
)

pub tx_loop_total :
    (fuel : ℕ) (env : List (Conn → Conn)) (c : Conn) (source : Mem) (at sent size flags retries : ℕ)
    → sent ≤ size
    → (size - sent) + length env < fuel
    → tx_loop fuel env c source at sent size flags retries ≢ out_of_fuel
unfolding tx_loop
tx_loop_total zero env c source at sent size flags retries p h = absurd (omega arith)
tx_loop_total (suc fuel) [] c source at sent size flags retries p h =
    let seg : ℕ = next_seg_size c (size - sent) in
    let c' : Conn = after_segment c source at (size - sent) flags retries in
    ground (
      arith,
      next_seg_size-le c (size - sent),
      stalled c source at (size - sent) flags retries,
      tx_loop_total fuel [] (set_send_lock false c') source (at + seg) (sent + seg) size flags
          retries,
    )
tx_loop_total (suc fuel) (wake ∷ env) c source at sent size flags retries p h =
    let seg : ℕ = next_seg_size c (size - sent) in
    let c' : Conn = after_segment c source at (size - sent) flags retries in
    ground (
      arith,
      next_seg_size-le c (size - sent),
      stalled c source at (size - sent) flags retries,
      tx_loop_total fuel (wake ∷ env) (set_send_lock false c') source (at + seg) (sent + seg) size
          flags retries,
      tx_loop_total fuel env (set_send_lock false (wake (set_send_lock false c'))) source (at + seg)
          (sent + seg) size flags retries,
    )

-- `tcp_tx` returns or waits for a wake-up that never comes: its loop always ends, for every content
-- of the window and whatever the other threads do to the connection during the waits.
pub tcp_tx_total :
    (env : List (Conn → Conn)) (c : Conn) (source : Mem) (size flags retries : ℕ)
    → tcp_tx env c source size flags retries ≢ out_of_fuel
unfolding tcp_tx
tcp_tx_total env c source size flags retries =
    ground (arith, tx_loop_total (suc (size + length env)) env c source 0 0 size flags retries)
