-- ===== src/Sender.antt =====
-- src/tcp.c, `tcp_retransmit_handler`: the sender thread puts every message on the wire, and takes
-- those out of the list that are sent once or have had their last try. It repeats a message while
-- the target's hardware address is not known; the receiving thread fills the ARP cache meanwhile.
pub mod Sweep
pub mod Ends
pub mod Repeat
use anp_netskeleton.Base.{
  ℕ, zero, suc, ◌+◌, ◌-◌, Bool, true, false, Option, none, some, List, [], ◌∷◌, ◌++◌, ◌==◌,
  if◌then◌else◌, sub32, update, ℤ,
}
use anp_netskeleton.Memory.{Mem}
use anp_netskeleton.Subuff.{Subuff}
use anp_netskeleton.Netdev.{ArpEntry, Net}
use anp_netskeleton.Ip.{ip_output, is_eagain}
use anp_netskeleton.Timer.{Timers, timer_oneshot}
use anp_netskeleton.Tcp.Buffer.{signal_tcb}
use anp_netskeleton.World.{World}
use anp_netskeleton.Tcp.{
  Tcb, Message, Handler, tcp_retransmit, retries_infinite, retries_sendonce, tcp_wait_time,
}

-- How the repetition of one message ends, with the ARP caches that are still to come.
pub data Output : Type 0 where
  transmitted : Net → Message → List (List ArpEntry) → Output
  spinning : Net → Output

-- One call of `ip_output`, with `data` and `len` set again.
unfoldable pub try_message : Net → ℕ → Message → Net × ℤ × Message
try_message net remote_ip msg =
    let sub : Subuff = record msg.sub { at = msg.tcp_ptr; other = msg.stale; len = msg.tcp_len } in
    let (net', rc, used) = ip_output net remote_ip sub in
    (net', rc, record msg { sub = used; stale = used.other })

-- The ARP caches that the tries after the first one find are given; if all fail, the loop goes on.
unfoldable pub output_message : Net → ℕ → Message → List (List ArpEntry) → Output
output_message net remote_ip msg [] =
    let (net', rc, msg') = try_message net remote_ip msg in
    if is_eagain rc then spinning net' else transmitted net' msg' []
output_message net remote_ip msg (cache ∷ later) =
    let (net', rc, msg') = try_message net remote_ip msg in
    let again : Output = output_message (record net' { arp_cache = cache }) remote_ip msg' later in
    if is_eagain rc then again else transmitted net' msg' (cache ∷ later)

-- What the counter says after a transmission: the message, if it stays, and whether the connection's
-- waiting thread is told that it was given up.
unfoldable pub count_try : Message → List Message × Bool
count_try msg =
    if msg.retries == retries_sendonce
    then ([], false)
    else if msg.retries == retries_infinite
    then (msg ∷ [], false)
    else (let left : ℕ = sub32 msg.retries 1 in
        if left == 0 then ([], true) else (record msg { retries = left } ∷ [], false))

-- The signal is given under the connection's `tcb_lock`; `none` is a lock that is held, and not
-- given up.
unfoldable pub signal_at : (ℕ → Tcb) → ℕ → Bool → Option (ℕ → Tcb)
signal_at tcbs p given_up =
    if given_up
    then (if (tcbs p).tcb_lock then none else some (update tcbs p (signal_tcb (tcbs p))))
    else some tcbs

-- A sweep ends, repeats a message for ever, or waits for ever for the lock of a connection.
pub data Swept : Type 0 where
  swept : Net → (ℕ → Tcb) → List Message → Swept
  stuck : Net → Swept
  locked_out : Net → ℕ → Swept

-- `msg` in front of a sweep of the rest.
abbrev pub keep_in_front : List Message → Swept → Swept
keep_in_front kept (swept net tcbs rest) = swept net tcbs (kept ++ rest)
keep_in_front kept (stuck net) = stuck net
keep_in_front kept (locked_out net p) = locked_out net p

-- The loop over the list, under `msg_arr_lock`.
unfoldable pub sweep : Net → (ℕ → Tcb) → List (List ArpEntry) → List Message → Swept
sweep net tcbs caches [] = swept net tcbs []
sweep net tcbs caches (msg ∷ rest) = elim (output_message net (tcbs msg.tcb).remote_ip msg caches) [
  | spinning net' ↦ stuck net'
  | transmitted net' msg' later ↦
      let (kept, given_up) = count_try msg' in
      elim (signal_at tcbs msg.tcb given_up) [
        | none ↦ locked_out net' msg.tcb
        | some tcbs' ↦ keep_in_front kept (sweep net' tcbs' later rest)
      ]
]

-- The handler sets up its next run. `none` is a sweep that does not end.
unfoldable pub tcp_retransmit_handler : World → List (List ArpEntry) → Option World
tcp_retransmit_handler w caches = elim (sweep w.net w.tcbs caches w.messages) [
  | stuck net ↦ none
  | locked_out net p ↦ none
  | swept net tcbs messages ↦ some (record w {
    net = net;
    tcbs = tcbs;
    messages = messages;
    timers = timer_oneshot w.timers tcp_wait_time tcp_retransmit;
  })
]
