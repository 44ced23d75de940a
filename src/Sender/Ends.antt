-- ===== src/Sender/Ends.antt =====
-- src/tcp.c, `tcp_retransmit_handler`: the end of a sweep.
use anp_netskeleton.Base.{
  ℕ, ◌<◌, ◌≡◌, ◌≢◌, ◌⊎◌, inl, inr, some, update, sym, ap, subst, refl, Bool, true, false, List, [],
  ◌∷◌, ◌++◌, All, arith,
}
use anp_netskeleton.Netdev.{ArpEntry, Net}
use anp_netskeleton.Ip.{is_eagain}
use anp_netskeleton.Ip.Output.{Ready, SameTables, ip_output-Settled}
use anp_netskeleton.Tcp.{Tcb, Message}
use anp_netskeleton.Tcp.Buffer.{signal_tcb}
use anp_netskeleton.Sender.{
  transmitted, try_message, output_message, count_try, Swept, swept, sweep, keep_in_front,
  signal_at,
}
use anp_netskeleton.Sender.Sweep.{tickets, after_sweep, Counted, Leaves, sweep-Leaves}

output_message-transmitted :
    (caches : List (List ArpEntry)) (net : Net) (remote_ip : ℕ) (msg : Message)
    → is_eagain (try_message net remote_ip msg).1 ≡ false
    → output_message net remote_ip msg caches
      ≡ transmitted (try_message net remote_ip msg).0 (try_message net remote_ip msg).2 caches
unfolding output_message
output_message-transmitted [] net remote_ip msg h = rw h refl
output_message-transmitted (cache ∷ later) net remote_ip msg h = rw h refl

try_message-Settled :
    (net : Net) (remote_ip : ℕ) (msg : Message)
    → remote_ip < 4294967296
    → Ready net remote_ip
    → ((frame : List ℕ) → is_eagain (net.tap_write frame) ≡ false)
    → (is_eagain (try_message net remote_ip msg).1 ≡ false)
      × SameTables net (try_message net remote_ip msg).0
unfolding try_message
try_message-Settled net remote_ip msg small ready quiet =
    (ip_output-Settled net _ remote_ip small ready quiet).0

-- The device's write never fails with EAGAIN.
abbrev pub Quiet : Net → Type 0
Quiet net = (frame : List ℕ) → is_eagain (net.tap_write frame) ≡ false

-- Every message has a remote address that is ready.
abbrev pub AllReady : Net → (ℕ → Tcb) → List Message → Type 0
AllReady net tcbs msgs =
    All (λ msg. ((tcbs msg.tcb).remote_ip < 4294967296) × Ready net (tcbs msg.tcb).remote_ip) msgs

Ready-moved :
    (net net' : Net) (daddr : ℕ) → SameTables net net' → Ready net daddr → Ready net' daddr
Ready-moved net net' daddr same h = rw (same.routes, same.arp_cache) h

-- A message at its last try belongs to a connection whose `tcb_lock` is free.
abbrev pub LastFree : (ℕ → Tcb) → List Message → Type 0
LastFree tcbs msgs = All (λ msg. (msg.retries ≢ 1) ⊎ ((tcbs msg.tcb).tcb_lock ≡ false)) msgs

-- The signals change no address and no lock.
record Signalled (tcbs tcbs' : ℕ → Tcb) : Type 0 where
  remote_ip : (q : ℕ) → (tcbs' q).remote_ip ≡ (tcbs q).remote_ip
  tcb_lock : (q : ℕ) → (tcbs' q).tcb_lock ≡ (tcbs q).tcb_lock

signal_tcb-Signalled :
    (tcbs : ℕ → Tcb) (p : ℕ) → Signalled tcbs (update tcbs p (signal_tcb (tcbs p)))
signal_tcb-Signalled tcbs p = record { remote_ip = λ q. ground arith; tcb_lock = λ q. ground arith }

signal_at-free :
    (tcbs : ℕ → Tcb) (p : ℕ) (b : Bool)
    → (b ≡ false) ⊎ ((tcbs p).tcb_lock ≡ false)
    → (tcbs' : ℕ → Tcb) × (signal_at tcbs p b ≡ some tcbs') × Signalled tcbs tcbs'
unfolding signal_at
signal_at-free tcbs p false h = (tcbs, refl, record { remote_ip = λ q. refl; tcb_lock = λ q. refl })
signal_at-free tcbs p true (inl not_last) = cc
signal_at-free tcbs p true (inr free) =
    (update tcbs p (signal_tcb (tcbs p)), rw free refl, signal_tcb-Signalled tcbs p)

not_given_up :
    (msg : Message) → msg.retries < 4294967296 → msg.retries ≢ 1 → (count_try msg).1 ≡ false
unfolding count_try
not_given_up msg small other = ground arith

count_try-last :
    (msg : Message)
    → msg.retries < 4294967296
    → (tcbs : ℕ → Tcb) → (msg.retries ≢ 1) ⊎ ((tcbs msg.tcb).tcb_lock ≡ false)
    → ((count_try msg).1 ≡ false) ⊎ ((tcbs msg.tcb).tcb_lock ≡ false)
count_try-last msg small tcbs (inr free) = inr free
count_try-last msg small tcbs (inl other) = inl (not_given_up msg small other)

AllReady-moved :
    (net net' : Net) (tcbs tcbs' : ℕ → Tcb) (msgs : List Message)
    → SameTables net net'
    → Signalled tcbs tcbs'
    → AllReady net tcbs msgs
    → AllReady net' tcbs' msgs
AllReady-moved net net' tcbs tcbs' [] same sig h = tt
AllReady-moved net net' tcbs tcbs' (msg ∷ rest) same sig ((small, ready), hs) = (
  rw (sig.remote_ip msg.tcb) (small, Ready-moved net net' _ same ready),
  AllReady-moved net net' tcbs tcbs' rest same sig hs,
)

LastFree-moved :
    (tcbs tcbs' : ℕ → Tcb) (msgs : List Message)
    → Signalled tcbs tcbs'
    → LastFree tcbs msgs
    → LastFree tcbs' msgs
LastFree-moved tcbs tcbs' [] sig h = tt
LastFree-moved tcbs tcbs' (msg ∷ rest) sig (h, hs) =
    (rw (sig.tcb_lock msg.tcb) h, LastFree-moved tcbs tcbs' rest sig hs)

Quiet-moved : (net net' : Net) → SameTables net net' → Quiet net → Quiet net'
Quiet-moved net net' same quiet frame = rw same.tap_write (quiet frame)

abbrev Ended : Swept → Type 0
Ended s = (net : Net) × (tcbs : ℕ → Tcb) × (kept : List Message) × (s ≡ swept net tcbs kept)

keep_in_front-Ended : (kept : List Message) (s : Swept) → Ended s → Ended (keep_in_front kept s)
keep_in_front-Ended kept s (net, tcbs, rest, e) =
    (net, tcbs, kept ++ rest, ap (keep_in_front kept) e)

sweep-transmitted :
    (net net' : Net) (tcbs tcbs' : ℕ → Tcb) (caches later : List (List ArpEntry))
    (msg msg' : Message) (rest : List Message)
    → output_message net (tcbs msg.tcb).remote_ip msg caches ≡ transmitted net' msg' later
    → signal_at tcbs msg.tcb (count_try msg').1 ≡ some tcbs'
    → sweep net tcbs caches (msg ∷ rest)
      ≡ keep_in_front (count_try msg').0 (sweep net' tcbs' later rest)
unfolding sweep
sweep-transmitted net net' tcbs tcbs' caches later msg msg' rest e signal =
    rw (sweep, e, signal) refl

try_message-same :
    (net : Net) (remote_ip : ℕ) (msg : Message)
    → ((try_message net remote_ip msg).2.retries ≡ msg.retries)
      × ((try_message net remote_ip msg).2.tcb ≡ msg.tcb)
unfolding try_message
try_message-same net remote_ip msg = (refl, refl)

sweep-Ended :
    (msgs : List Message) (net : Net) (tcbs : ℕ → Tcb) (caches : List (List ArpEntry))
    → Counted msgs
    → Quiet net
    → AllReady net tcbs msgs
    → LastFree tcbs msgs
    → Ended (sweep net tcbs caches msgs)
unfolding sweep
sweep-Ended [] net tcbs caches counted quiet h last = (net, tcbs, [], refl)
sweep-Ended (msg ∷ rest) net tcbs caches (few, counted) quiet ((small, ready), hs) (last, lasts) =
    let remote_ip : ℕ = (tcbs msg.tcb).remote_ip in
    let (net', rc, msg') = try_message net remote_ip msg in
    let (settled, same) = try_message-Settled net remote_ip msg small ready quiet in
    let (retries, tcb) = try_message-same net remote_ip msg in
    let free : ((count_try msg').1 ≡ false) ⊎ ((tcbs msg.tcb).tcb_lock ≡ false) =
      subst (λ p. ((count_try msg').1 ≡ false) ⊎ ((tcbs p).tcb_lock ≡ false)) tcb
        (count_try-last msg' (omega (arith, few, retries)) tcbs (rw (retries, tcb) last)) in
    let (tcbs', signal, sig) = signal_at-free tcbs msg.tcb (count_try msg').1 free in
    subst Ended
      (sym (
        sweep-transmitted net net' tcbs tcbs' caches caches msg msg' rest
          (output_message-transmitted caches net remote_ip msg settled) signal))
      (keep_in_front-Ended (count_try msg').0 _ (
        sweep-Ended rest net' tcbs' caches counted (Quiet-moved net net' same quiet)
          (AllReady-moved net net' tcbs tcbs' rest same sig hs)
          (LastFree-moved tcbs tcbs' rest sig lasts)))

-- A sweep ends, and leaves the messages that are sent for ever and those that have a try left,
-- with one try less, on the condition that every message's address is ready, that the device's
-- write never fails with EAGAIN, and that no message at its last try belongs to a connection whose
-- tcb_lock is held.
pub sweep-ends :
    (msgs : List Message) (net : Net) (tcbs : ℕ → Tcb) (caches : List (List ArpEntry))
    → Counted msgs
    → Quiet net
    → AllReady net tcbs msgs
    → LastFree tcbs msgs
    → (net' : Net) × (tcbs' : ℕ → Tcb) × (kept : List Message) × (sweep net tcbs caches msgs
        ≡ swept net' tcbs' kept)
      × (tickets kept ≡ after_sweep (tickets msgs))
sweep-ends msgs net tcbs caches counted quiet ready last =
    let (net', tcbs', kept, e) = sweep-Ended msgs net tcbs caches counted quiet ready last in
    (
      net',
      tcbs',
      kept,
      e,
      subst (Leaves (after_sweep (tickets msgs))) e (sweep-Leaves msgs net tcbs caches counted),
    )
