-- ===== src/Tcp/Transmit.antt =====
-- src/tcp.c, `tcp_tx`: the data is cut into segments, each put in the message list. When the window
-- is full the caller waits for the receiving thread; what other threads do to the connection across
-- a wait is the next function of a list, and `blocked` is a wait that nobody ends.
pub mod Loop
pub mod Rounds
pub mod Stream
pub mod Empty
pub mod Open
pub mod Made
use anp_netskeleton.Base.{
  ℕ, zero, suc, ◌+◌, ◌-◌, Bool, true, false, ◌||◌, List, [], ◌∷◌, length, ◌==◌, ltb, leb,
  if◌then◌else◌, not, u32, sub32,
}
use anp_netskeleton.Memory.{Mem, zeroed}
use anp_netskeleton.Tcp.{
  Tcb, Conn, with_tcb, tcp_max_seg_size, retries_infinite, retries_conn_max, retries_sendonce,
}
use anp_netskeleton.Tcp.Packet.{create_tcp_packet, add_msg_to_arr}

pub data TxResult : Type 0 where
  returned : ℕ → Conn → TxResult
  blocked : Conn → TxResult
  out_of_fuel : TxResult

-- ANP_MIN
abbrev pub min : ℕ → ℕ → ℕ
min a b = if ltb a b then a else b

abbrev pub set_send_lock : Bool → Conn → Conn
set_send_lock b c = with_tcb c (record c.tcb { send_lock = b })

-- The size of the next segment, with `left` bytes to send.
unfoldable pub next_seg_size : Conn → ℕ → ℕ
next_seg_size c left = min c.tcb.snd_wnd (min tcp_max_seg_size left)

-- One segment, under `send_lock`: built, counted, and put in the list.
unfoldable pub send_segment : Conn → Mem → ℕ → ℕ → ℕ → ℕ → Conn
unfolding create_tcp_packet add_msg_to_arr
send_segment c source at size flags retries =
    let (sub, tcb) = create_tcp_packet c.tcb source at size flags in
    add_msg_to_arr (with_tcb c (record tcb { snd_nxt = u32 (tcb.snd_nxt + size) })) sub retries

abbrev pub window_full : Conn → Bool
window_full c = leb c.tcb.snd_wnd (sub32 c.tcb.snd_nxt c.tcb.snd_una)

-- `at` is where the next byte to send stands, and `sent` how many have been.
unfoldable pub tx_loop : ℕ → List (Conn → Conn) → Conn → Mem → ℕ → ℕ → ℕ → ℕ → ℕ → TxResult
unfolding next_seg_size send_segment
tx_loop zero env c source at sent size flags retries = out_of_fuel
tx_loop (suc fuel) env c source at sent size flags retries =
    let seg : ℕ = next_seg_size c (size - sent) in
    let c' : Conn = send_segment (set_send_lock true c) source at seg flags retries in
    let free : Conn = set_send_lock false c' in
    let rest : TxResult = tx_loop fuel env free source (at + seg) (sent + seg) size flags retries in
    let woken : TxResult = elim env [
      | [] ↦ blocked free
      | wake ∷ later ↦
          tx_loop fuel later (set_send_lock false (wake free)) source (at + seg) (sent + seg) size
            flags retries
    ] in
    if sent + seg == size
    then returned (sent + seg) free
    else if window_full c'
    then woken
    else rest

abbrev pub valid_retries : ℕ → Bool
valid_retries retries =
    (retries == retries_infinite)
    || ((retries == retries_conn_max) || (retries == retries_sendonce))

-- Fuel for every byte, every wake-up and the last round.
unfoldable pub tcp_tx : List (Conn → Conn) → Conn → Mem → ℕ → ℕ → ℕ → TxResult
tcp_tx env c source size flags retries =
    if valid_retries retries
    then tx_loop (suc (size + length env)) env c source 0 0 size flags retries
    else returned 4294967295 c

-- `tcp_tx (tcb, NULL, 0, flags, retries)`: a segment with no data, which needs no wait.
unfoldable pub tcp_tx_empty : Conn → ℕ → ℕ → Conn
tcp_tx_empty c flags retries = elim (tcp_tx [] c zeroed 0 flags retries) [
  | returned n c' ↦ c'
  | blocked c' ↦ c'
  | out_of_fuel ↦ c
]
