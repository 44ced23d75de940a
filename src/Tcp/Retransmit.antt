-- ===== src/Tcp/Retransmit.antt =====
-- src/tcp.c, `stop_retransmit`, `close_connection` and `free_tcb`: the messages of a connection that
-- have been acknowledged are taken out of the list.
-- The C loop goes on reading a message and its buffer after it has freed them. Here freed memory
-- keeps its contents, which is what the loop sees as long as nothing is allocated in between.
pub mod Acked
use anp_netskeleton.Base.{
  ℕ, ◌+◌, ◌-◌, Option, none, some, List, [], ◌∷◌, ◌++◌, Bool, ◌==◌, ltb, if◌then◌else◌, u32, sub32,
  htonl,
}
use anp_netskeleton.Memory.{Mem, load32}
use anp_netskeleton.Subuff.{Subuff}
use anp_netskeleton.Tcp.{Tcb, Message, Conn, with_tcb, closed, max_uint32, tcp_ack}
use anp_netskeleton.Tcp.Packet.{create_tcp_packet}
use anp_netskeleton.Tcp.Buffer.{signal_tcb}

-- The block that `tcp_ptr` points into.
unfoldable pub message_block : Message → Mem
message_block msg = elim msg.stale [ none ↦ msg.sub.mem | some block ↦ block ]

unfoldable pub message_seq : Message → ℕ
message_seq msg = htonl (load32 (message_block msg) (msg.tcp_ptr + 4))

-- The rest of a partly acknowledged message gets a buffer of its own; `tcp_ptr`, `tcp_len` and
-- `tcp_data_len` stay as they were.
unfoldable pub replace_message : Tcb → Message → Message
replace_message tcb msg =
    let block : Mem = message_block msg in
    let bytes_acked : ℕ = sub32 tcb.snd_una (message_seq msg) in
    let new_size : ℕ = sub32 msg.tcp_data_len bytes_acked in
    let new_sub : Subuff =
      (create_tcp_packet tcb block (msg.tcp_ptr + 20 + bytes_acked) new_size tcp_ack).0 in
    record msg {
      sub = record new_sub { dlen = new_size; payload = new_sub.at + 20 };
      stale = some block;
    }

-- What becomes of one message.
unfoldable pub visit_message : ℕ → Tcb → Message → List Message
visit_message ptr tcb msg =
    if msg.tcb == ptr
    then if ltb (message_seq msg) tcb.snd_una
      then if ltb tcb.snd_una (u32 (message_seq msg + msg.tcp_data_len))
        then replace_message tcb msg ∷ []
        else []
      else msg ∷ []
    else msg ∷ []

unfoldable pub stop_messages : ℕ → Tcb → List Message → List Message
stop_messages ptr tcb [] = []
stop_messages ptr tcb (msg ∷ rest) = visit_message ptr tcb msg ++ stop_messages ptr tcb rest

unfoldable pub stop_retransmit : Conn → Conn
stop_retransmit c = record c { messages = stop_messages c.ptr c.tcb c.messages }

unfoldable pub close_conn : Conn → Conn
close_conn c =
    let stopped : Conn = stop_retransmit c in
    with_tcb stopped (signal_tcb (record stopped.tcb { state = closed; tcb_lock = Bool.false }))

-- The messages that are left once the control block has been freed.
unfoldable pub free_tcb : Conn → List Message
free_tcb c = (stop_retransmit (with_tcb c (record c.tcb { snd_nxt = max_uint32 }))).messages
