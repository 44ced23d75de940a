-- ===== src/Sender/Sweep.antt =====
-- src/tcp.c, `tcp_retransmit_handler`: which messages a sweep leaves in the list.
use anp_netskeleton.Base.{
  ℕ, ◌<◌, ◌≡◌, ◌∙◌, sym, ap, subst, refl, Bool, true, false, List, [], ◌∷◌, ◌++◌, All, ◌==◌, Option,
  none, some, if◌then◌else◌, sub32, arith,
}
use anp_netskeleton.Netdev.{ArpEntry, Net}
use anp_netskeleton.Ip.{is_eagain}
use anp_netskeleton.Tcp.{Tcb, Message, retries_infinite, retries_sendonce}
use anp_netskeleton.Sender.{
  Output, transmitted, spinning, try_message, output_message, count_try, Swept, swept, stuck,
  locked_out, sweep, keep_in_front, signal_at,
}

-- What the sender thread counts by: the connection, the size, and the tries that are left.
pub record Ticket : Type 0 where
  pub tcb : ℕ
  pub size : ℕ
  pub retries : ℕ

abbrev pub ticket_of : Message → Ticket
ticket_of msg = record { tcb = msg.tcb; size = msg.tcp_data_len; retries = msg.retries }

unfoldable pub tickets : List Message → List Ticket
tickets [] = []
tickets (msg ∷ rest) = ticket_of msg ∷ tickets rest

-- A ticket after one more transmission: none of a message that is sent once or whose last try it was,
-- the same of one that is sent for ever.
unfoldable pub after_try : Ticket → List Ticket
after_try t =
    if t.retries == retries_sendonce
    then []
    else if t.retries == retries_infinite
    then t ∷ []
    else if t.retries == 1
    then []
    else record t { retries = sub32 t.retries 1 } ∷ []

unfoldable pub after_sweep : List Ticket → List Ticket
after_sweep [] = []
after_sweep (t ∷ rest) = after_try t ++ after_sweep rest

tickets-append : (xs ys : List Message) → tickets (xs ++ ys) ≡ tickets xs ++ tickets ys
unfolding tickets
tickets-append [] ys = refl
tickets-append (x ∷ xs) ys = ap (λ l. ticket_of x ∷ l) (tickets-append xs ys)

-- The message that comes out of the repetition has the ticket `t`.
abbrev HasTicket : Ticket → Output → Type 0
HasTicket t (transmitted net msg later) = ticket_of msg ≡ t
HasTicket t (spinning net) = Unit

tried-HasTicket :
    (t : Ticket) (again : Bool) (msg : Message) (net : Net) (later : List (List ArpEntry))
    (more : Output)
    → ticket_of msg ≡ t
    → HasTicket t more
    → HasTicket t (if again then more else transmitted net msg later)
tried-HasTicket t true msg net later more h k = k
tried-HasTicket t false msg net later more h k = h

output_message-HasTicket :
    (caches : List (List ArpEntry)) (net : Net) (remote_ip : ℕ) (msg : Message)
    → HasTicket (ticket_of msg) (output_message net remote_ip msg caches)
unfolding output_message try_message
output_message-HasTicket [] net remote_ip msg =
    let (net', rc, msg') = try_message net remote_ip msg in
    tried-HasTicket (ticket_of msg) (is_eagain rc) msg' net' [] (spinning net') refl tt
output_message-HasTicket (cache ∷ later) net remote_ip msg =
    let (net', rc, msg') = try_message net remote_ip msg in
    tried-HasTicket (ticket_of msg) (is_eagain rc) msg' net' (cache ∷ later)
      (output_message (record net' { arp_cache = cache }) remote_ip msg' later) refl
      (output_message-HasTicket later (record net' { arp_cache = cache }) remote_ip msg')

count_try-tickets :
    (msg : Message)
    → msg.retries < 4294967296
    → tickets (count_try msg).0 ≡ after_try (ticket_of msg)
unfolding count_try after_try tickets
count_try-tickets msg h = ground arith

-- A sweep that ends leaves messages with these tickets.
abbrev pub Leaves : List Ticket → Swept → Type 0
Leaves ts (swept net tcbs kept) = tickets kept ≡ ts
Leaves ts (stuck net) = Unit
Leaves ts (locked_out net p) = Unit

keep_in_front-Leaves :
    (kept : List Message) (ts : List Ticket) (s : Swept)
    → Leaves ts s
    → Leaves (tickets kept ++ ts) (keep_in_front kept s)
keep_in_front-Leaves kept ts (swept net tcbs rest) h =
    tickets-append kept rest ∙ ap (λ l. tickets kept ++ l) h
keep_in_front-Leaves kept ts (stuck net) h = tt
keep_in_front-Leaves kept ts (locked_out net p) h = tt

-- The counters are `uint32_t`.
abbrev pub Counted : List Message → Type 0
Counted msgs = All (λ msg. msg.retries < 4294967296) msgs

-- Whatever the lower layers do meanwhile: a sweep that ends leaves, in their order, the messages that
-- are sent for ever and those that have a try left, with one try less.
pub sweep-Leaves :
    (msgs : List Message) (net : Net) (tcbs : ℕ → Tcb) (caches : List (List ArpEntry))
    → Counted msgs
    → Leaves (after_sweep (tickets msgs)) (sweep net tcbs caches msgs)
unfolding sweep tickets after_sweep
sweep-Leaves [] net tcbs caches h = refl
sweep-Leaves (msg ∷ rest) net tcbs caches (h, hs) =
    after_output (output_message net (tcbs msg.tcb).remote_ip msg caches)
      (output_message-HasTicket caches net (tcbs msg.tcb).remote_ip msg)
      (λ net' tcbs' later. sweep-Leaves rest net' tcbs' later hs)
  where
    signalled :
        (kept : List Message) (o : Option (ℕ → Tcb)) (net' : Net) (later : List (List ArpEntry))
        → tickets kept ≡ after_try (ticket_of msg)
        → ((tcbs' : ℕ → Tcb) → Leaves (after_sweep (tickets rest)) (sweep net' tcbs' later rest))
        → Leaves (after_try (ticket_of msg) ++ after_sweep (tickets rest)) (elim o [
          | none ↦ locked_out net' msg.tcb
          | some tcbs' ↦ keep_in_front kept (sweep net' tcbs' later rest)
        ])
    signalled kept none net' later same ih = tt
    signalled kept (some tcbs') net' later same ih =
        rw⁻¹ same (keep_in_front-Leaves kept _ _ (ih tcbs'))

    after_output :
        (o : Output)
        → HasTicket (ticket_of msg) o
        → ((net' : Net) (tcbs' : ℕ → Tcb) (later : List (List ArpEntry))
            → Leaves (after_sweep (tickets rest)) (sweep net' tcbs' later rest))
        → Leaves (after_try (ticket_of msg) ++ after_sweep (tickets rest)) (elim o [
          | spinning net' ↦ stuck net'
          | transmitted net' msg' later ↦
              let (kept, given_up) = count_try msg' in
              elim (signal_at tcbs msg.tcb given_up) [
                | none ↦ locked_out net' msg.tcb
                | some tcbs' ↦ keep_in_front kept (sweep net' tcbs' later rest)
              ]
        ])
    after_output (spinning net') k ih = tt
    after_output (transmitted net' msg' later) k ih =
        let (kept, given_up) = count_try msg' in
        let same : tickets kept ≡ after_try (ticket_of msg) =
          count_try-tickets msg' (subst (λ n. n < 4294967296) (sym (ap (λ t. t.retries) k)) h)
          ∙ ap after_try k in
        signalled kept (signal_at tcbs msg.tcb given_up) net' later same
          (λ tcbs'. ih net' tcbs' later)
