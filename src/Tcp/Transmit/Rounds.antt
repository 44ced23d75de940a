-- ===== src/Tcp/Transmit/Rounds.antt =====
-- src/tcp.c, `tcp_tx`: one turn of its loop, and the queue that turns build up.
use anp_netskeleton.Base.{
  ℕ, ◌+◌, ◌-◌, ◌<◌, ◌≤◌, ◌≡◌, ◌∙◌, refl, true, false, List, [], ◌∷◌, ◌++◌, u32, arith,
}
use mathlib.Core.List.{append_assoc, append-nil}
use anp_netskeleton.Memory.{Mem, bytes}
use anp_netskeleton.Memory.Laws.{bytes-append}
use anp_netskeleton.Tcp.{Tcb, Message, Conn, has_flag, tcp_fin, tcp_syn, tcp_max_seg_size}
use anp_netskeleton.Tcp.Packet.{create_tcp_packet, count_control, add_msg_to_arr, new_message}
use anp_netskeleton.Tcp.Packet.Fields.{packet-seq, packet-payload, packet-shape}
use anp_netskeleton.Tcp.Retransmit.{message_seq, message_block}
use anp_netskeleton.Tcp.Transmit.{send_segment, set_send_lock}

abbrev pub payload : Message → List ℕ
payload msg = bytes msg.sub.mem 54 msg.tcp_data_len

abbrev pub payloads : List Message → List ℕ
payloads [] = []
payloads (msg ∷ msgs) = payload msg ++ payloads msgs

-- The messages are segments of at most the maximal size, in order from `seq` on.
abbrev pub AreSegments : ℕ → List Message → Type 0
AreSegments seq [] = Unit
AreSegments seq (msg ∷ msgs) =
    (message_seq msg ≡ seq)
    × (msg.tcp_data_len ≤ tcp_max_seg_size)
    × AreSegments (u32 (seq + msg.tcp_data_len)) msgs

-- Across a wait the receiving thread moves the window, and leaves the sender's own fields alone.
abbrev pub KeepsQueue : (Conn → Conn) → Type 0
KeepsQueue wake =
    (c : Conn)
    → ((wake c).messages ≡ c.messages)
      × ((wake c).tcb.snd_nxt ≡ c.tcb.snd_nxt)
      × ((wake c).room ≡ c.room)

-- What one round does to the queue.
pub record Round (c c' : Conn) (source : Mem) (at n : ℕ) : Type 0 where
  pub msg : Message
  pub queue : c'.messages ≡ c.messages ++ (msg ∷ [])
  pub room : c'.room ≡ c.room - 1
  pub nxt : c'.tcb.snd_nxt ≡ u32 (c.tcb.snd_nxt + n)
  pub seq : message_seq msg ≡ c.tcb.snd_nxt
  pub size : msg.tcp_data_len ≡ n
  pub carried : payload msg ≡ bytes source at n

pub count_control-plain :
    (t : Tcb) (flags : ℕ)
    → has_flag flags tcp_syn ≡ false
    → has_flag flags tcp_fin ≡ false
    → count_control t flags ≡ t
unfolding count_control
count_control-plain t flags syn fin = rw (syn, fin)

pub create_tcp_packet-tcb :
    (t : Tcb) (source : Mem) (at n flags : ℕ)
    → (create_tcp_packet t source at n flags).1 ≡ count_control t flags
unfolding create_tcp_packet
create_tcp_packet-tcb t source at n flags = refl

new_message-seq :
    (t : Tcb) (source : Mem) (at n flags p retries : ℕ)
    → t.snd_nxt < 4294967296
    → n < 65536
    → message_seq (new_message p (create_tcp_packet t source at n flags).0 retries) ≡ t.snd_nxt
unfolding message_seq message_block new_message
new_message-seq t source at n flags p retries small short =
    rw ((packet-shape t source at n flags short).0) (packet-seq t source at n flags small)

new_message-payload :
    (t : Tcb) (source : Mem) (at n flags p retries : ℕ)
    → n < 65536
    → let msg = new_message p (create_tcp_packet t source at n flags).0 retries in
      (msg.tcp_data_len ≡ n) × (payload msg ≡ bytes source at n)
unfolding new_message
new_message-payload t source at n flags p retries short =
    let exact = (packet-shape t source at n flags short).2 in
    (exact, rw exact (packet-payload t source at n flags))

module _ (flags : ℕ) (syn : has_flag flags tcp_syn ≡ false)
    (fin : has_flag flags tcp_fin ≡ false) where
  -- The control block that the packet is built from, and the message.
  abbrev locked : Conn → Tcb
  locked c = record c.tcb { send_lock = true }

  segment : Conn → Mem → ℕ → ℕ → ℕ → Message
  segment c source at n retries =
      new_message c.ptr (create_tcp_packet (locked c) source at n flags).0 retries

  send_segment-queue :
      (c : Conn) (source : Mem) (at n retries : ℕ)
      → 0 < c.room
      → let c' = send_segment (set_send_lock true c) source at n flags retries in
        (c'.messages ≡ c.messages ++ (segment c source at n retries ∷ []))
        × (c'.room ≡ c.room - 1)
        × (c'.tcb.snd_nxt ≡ u32 (c.tcb.snd_nxt + n))
  unfolding segment send_segment add_msg_to_arr
  send_segment-queue c source at n retries room = ground (
    arith,
    create_tcp_packet-tcb (locked c) source at n flags,
    count_control-plain (locked c) flags syn fin,
  )

  pub send_segment-Round :
      (c : Conn) (source : Mem) (at n retries : ℕ)
      → c.tcb.snd_nxt < 4294967296
      → n < 65536
      → 0 < c.room
      → Round c (send_segment (set_send_lock true c) source at n flags retries) source at n
  unfolding segment
  send_segment-Round c source at n retries small short room =
      let (queue, left, nxt) = send_segment-queue c source at n retries room in
      let (size, carried) = new_message-payload (locked c) source at n flags c.ptr retries short in
      record {
        msg = segment c source at n retries;
        queue = queue;
        room = left;
        nxt = nxt;
        seq = new_message-seq (locked c) source at n flags c.ptr retries small short;
        size = size;
        carried = carried;
      }

-- From `c` to `c'` the queue has grown by segments that carry `n` bytes from `at` on.
pub record Queued (c c' : Conn) (source : Mem) (at n : ℕ) : Type 0 where
  pub msgs : List Message
  pub queue : c'.messages ≡ c.messages ++ msgs
  pub carried : payloads msgs ≡ bytes source at n
  pub segments : AreSegments c.tcb.snd_nxt msgs

pub Round-Queued :
    {c c' : Conn} {source : Mem} {at n : ℕ}
    → n ≤ tcp_max_seg_size
    → Round c c' source at n
    → Queued c c' source at n
Round-Queued short r = record {
  msgs = r.msg ∷ [];
  queue = r.queue;
  carried = append-nil (payload r.msg) ∙ r.carried;
  segments = (r.seq, rw r.size short, tt);
}

-- A round, a change that leaves the queue alone, and what follows.
pub Queued-cons :
    {c c1 c2 c' : Conn} {source : Mem} {at n rest : ℕ}
    → n ≤ tcp_max_seg_size
    → Round c c1 source at n
    → c2.messages ≡ c1.messages
    → c2.tcb.snd_nxt ≡ c1.tcb.snd_nxt
    → Queued c2 c' source (at + n) rest
    → Queued c c' source at (n + rest)
Queued-cons {c} {source = source} {at} {n} {rest} short r same nxt q = record {
  msgs = r.msg ∷ q.msgs;
  queue = q.queue ∙ rw (same, r.queue) (append_assoc c.messages (r.msg ∷ []) q.msgs);
  carried = rw (bytes-append source at n rest, q.carried, r.carried);
  segments = (r.seq, rw r.size short, rw (r.size, ← r.nxt, ← nxt) q.segments);
}
