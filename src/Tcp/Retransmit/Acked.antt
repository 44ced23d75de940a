-- ===== src/Tcp/Retransmit/Acked.antt =====
-- src/tcp.c, `stop_retransmit` and `free_tcb`: what stays in the message list.
use anp_netskeleton.Base.{
  ℕ, ◌+◌, ◌<◌, ◌≤◌, ◌≡◌, ◌∙◌, sym, refl, Bool, List, [], ◌∷◌, ◌++◌, All, ltb, leb, ◌&&◌, ◌==◌,
  if◌then◌else◌, u32, arith,
}
use anp_netskeleton.Tcp.{Tcb, Message, Conn, max_uint32}
use anp_netskeleton.Tcp.Retransmit.{
  message_seq, message_block, replace_message, visit_message, stop_messages, stop_retransmit,
  free_tcb,
}

-- Acknowledged in full, by the comparisons of the code (with no regard for wrap-around).
abbrev pub IsAcked : ℕ → Message → Type 0
IsAcked una msg = (message_seq msg < una) × (u32 (message_seq msg + msg.tcp_data_len) ≤ una)

-- The messages of other connections.
abbrev pub others : ℕ → List Message → List Message
others ptr [] = []
others ptr (msg ∷ rest) = if msg.tcb == ptr then others ptr rest else msg ∷ others ptr rest

replace_message-fields :
    (t : Tcb) (msg : Message)
    → ((replace_message t msg).tcb ≡ msg.tcb)
      × ((replace_message t msg).tcp_data_len ≡ msg.tcp_data_len)
      × ((replace_message t msg).tcp_ptr ≡ msg.tcp_ptr)
      × (message_seq (replace_message t msg) ≡ message_seq msg)
unfolding replace_message message_seq message_block
replace_message-fields t msg = (refl, refl, refl, refl)

-- What `visit_message` keeps is not acknowledged in full.
visit-kept :
    (ptr : ℕ) (t : Tcb) (msg : Message)
    → All (λ m. m.tcb ≡ ptr → ¬ IsAcked t.snd_una m) (visit_message ptr t msg)
unfolding visit_message
visit-kept ptr t msg =
    let (owner, len, at, seq) = replace_message-fields t msg in ground (arith, owner, len, seq)

-- Every message that is dropped is one of this connection, acknowledged in full.
visit-dropped :
    (ptr : ℕ) (t : Tcb) (msg : Message)
    → visit_message ptr t msg ≡ []
    → (msg.tcb ≡ ptr) × IsAcked t.snd_una msg
unfolding visit_message
visit-dropped ptr t msg h = ground arith

visit-others :
    (ptr : ℕ) (t : Tcb) (msg : Message)
    → others ptr (visit_message ptr t msg) ≡ others ptr (msg ∷ [])
unfolding visit_message
visit-others ptr t msg = ground (arith, replace_message-fields t msg)

others-append :
    (ptr : ℕ) (xs ys : List Message) → others ptr (xs ++ ys) ≡ others ptr xs ++ others ptr ys
others-append ptr [] ys = refl
others-append ptr (x ∷ xs) ys = ground (arith, others-append ptr xs ys)

-- What identifies a message and decides how it goes on: its connection, where its segment stands and
-- how long it is, its sequence number and its counter.
abbrev pub Outline : Type 0
Outline = ℕ × ℕ × ℕ × ℕ × ℕ × ℕ

abbrev pub outline : Message → Outline
outline msg = (msg.tcb, msg.tcp_ptr, msg.tcp_len, msg.tcp_data_len, message_seq msg, msg.retries)

abbrev pub outlines : List Message → List Outline
outlines [] = []
outlines (msg ∷ rest) = outline msg ∷ outlines rest

abbrev pub acked : ℕ → ℕ → Message → Bool
acked ptr una msg =
    (msg.tcb == ptr)
    && (ltb (message_seq msg) una && leb (u32 (message_seq msg + msg.tcp_data_len)) una)

-- The reference: the messages with the acknowledged ones filtered out.
abbrev pub unacked : ℕ → ℕ → List Message → List Message
unacked ptr una [] = []
unacked ptr una (msg ∷ rest) =
    if acked ptr una msg then unacked ptr una rest else msg ∷ unacked ptr una rest

outlines-append : (xs ys : List Message) → outlines (xs ++ ys) ≡ outlines xs ++ outlines ys
outlines-append [] ys = refl
outlines-append (x ∷ xs) ys = rw (outlines-append xs ys)

replace_message-outline : (t : Tcb) (msg : Message) → outline (replace_message t msg) ≡ outline msg
unfolding replace_message message_seq message_block
replace_message-outline t msg = refl

visit-outline :
    (ptr : ℕ) (t : Tcb) (msg : Message)
    → outlines (visit_message ptr t msg) ≡ outlines (unacked ptr t.snd_una (msg ∷ []))
unfolding visit_message
visit-outline ptr t msg = ground (arith, replace_message-outline t msg)

unacked-cons :
    (ptr una : ℕ) (msg : Message) (rest : List Message)
    → unacked ptr una (msg ∷ rest) ≡ unacked ptr una (msg ∷ []) ++ unacked ptr una rest
unacked-cons ptr una msg rest = ground arith

stop_messages-unacked :
    (ptr : ℕ) (t : Tcb) (msgs : List Message)
    → outlines (stop_messages ptr t msgs) ≡ outlines (unacked ptr t.snd_una msgs)
unfolding stop_messages
stop_messages-unacked ptr t [] = refl
stop_messages-unacked ptr t (msg ∷ rest) =
    rw
      (
        outlines-append (visit_message ptr t msg) (stop_messages ptr t rest),
        visit-outline ptr t msg,
        stop_messages-unacked ptr t rest,
        unacked-cons ptr t.snd_una msg rest,
      )
      (sym (outlines-append (unacked ptr t.snd_una (msg ∷ [])) (unacked ptr t.snd_una rest)))

-- `stop_retransmit` takes out exactly the messages of this connection that begin before `snd_una` and
-- end (modulo 2 ^ 32) at or before it, and leaves the others in their order, each with its connection,
-- place, lengths, sequence number and counter.
pub stop_retransmit-unacked :
    (c : Conn)
    → outlines (stop_retransmit c).messages ≡ outlines (unacked c.ptr c.tcb.snd_una c.messages)
unfolding stop_retransmit
stop_retransmit-unacked c = stop_messages-unacked c.ptr c.tcb c.messages

stop_messages-others :
    (ptr : ℕ) (t : Tcb) (msgs : List Message)
    → others ptr (stop_messages ptr t msgs) ≡ others ptr msgs
unfolding stop_messages
stop_messages-others ptr t [] = refl
stop_messages-others ptr t (msg ∷ rest) =
    others-append ptr (visit_message ptr t msg) (stop_messages ptr t rest)
    ∙ ground (arith, visit-others ptr t msg, stop_messages-others ptr t rest)

-- The messages of other connections stay as they are, packet and all.
pub stop_retransmit-others :
    (c : Conn) → others c.ptr (stop_retransmit c).messages ≡ others c.ptr c.messages
unfolding stop_retransmit
stop_retransmit-others c = stop_messages-others c.ptr c.tcb c.messages

-- `free_tcb` sets `snd_nxt` to the largest number in order to stop all retransmissions of the
-- connection, but `stop_retransmit` looks at `snd_una`: the messages that are left are those that
-- `stop_retransmit` alone would leave.
pub free_tcb-stop_retransmit :
    (c : Conn) → outlines (free_tcb c) ≡ outlines (stop_retransmit c).messages
unfolding free_tcb stop_retransmit
free_tcb-stop_retransmit c =
    stop_messages-unacked c.ptr (record c.tcb { snd_nxt = max_uint32 }) c.messages
    ∙ sym (stop_messages-unacked c.ptr c.tcb c.messages)
