-- ===== src/Tcp/Receive/Order.antt =====
-- src/tcp.c, `tcp_rx` and `read_bytes` in TCP_ESTABLISHED: a stream of bytes over a network that
-- loses, repeats and reorders segments.
use native.Mathlib.Nat.{add-zero, zero-add}
use mathlib.Core.List.{append_assoc, append-nil}
use anp_netskeleton.Base.{
  ℕ, zero, suc, ◌+◌, ◌<◌, ◌≤◌, ◌≡◌, ◌∙◌, ap, sym, subst, refl, false, List, [], ◌∷◌, ◌++◌, All, u32,
  arith,
}
use anp_netskeleton.Memory.{Mem, bytes}
use anp_netskeleton.Memory.Laws.{bytes-append}
use anp_netskeleton.Tcp.{TcpState, Tcb, established, Conn, with_tcb, has_flag, tcp_fin}
use anp_netskeleton.Tcp.Buffer.{read_bytes}
use anp_netskeleton.Tcp.Buffer.Queue.{contents, Fits, read_bytes-contents, read_bytes-Fits}
use anp_netskeleton.Tcp.Receive.{Segment, segment_arrives}
use anp_netskeleton.Tcp.Receive.Bounds.{segment_arrives-Fits}
use anp_netskeleton.Tcp.Receive.Diagram.{◌⟶◌, stay, segment_arrives-⟶}
use anp_netskeleton.Tcp.Receive.Progress.{room_for, still, taken, segment_arrives-Progress}

-- A segment of the stream: `offset` bytes of it come before its data, and the first byte of the
-- stream has the sequence number `base`.
pub record Genuine (stream : Mem) (base : ℕ) (s : Segment) : Type 0 where
  pub offset : ℕ
  pub number : s.seq_num ≡ u32 (base + offset)
  pub inside : offset + s.segment_len < 4294967296
  pub payload : bytes s.mem 54 s.segment_len ≡ bytes stream offset s.segment_len
  pub no_fin : has_flag s.flags tcp_fin ≡ false

-- What happens to the connection: a segment arrives, or the user reads.
pub data Event : Type 0 where
  arrival : Segment → Event
  reading : ℕ → Event

abbrev pub IsGenuine : Mem → ℕ → Event → Type 0
IsGenuine stream base (arrival s) = Genuine stream base s
IsGenuine stream base (reading count) = Unit

-- The bytes that the user has read, and the connection at the end.
unfoldable pub run_events : Conn → List Event → List ℕ × Conn
run_events c [] = ([], c)
run_events c (arrival s ∷ events) = run_events (segment_arrives c s) events
run_events c (reading count ∷ events) =
    let (out, t) = read_bytes c.tcb count in
    let (later, c') = run_events (with_tcb c t) events in (out ++ later, c')

-- The user has read `out`, and this and what waits in the buffer are the first `taken_bytes` bytes
-- of the stream.
pub record InOrder (stream : Mem) (base : ℕ) (out : List ℕ) (c : Conn) : Type 0 where
  pub taken_bytes : ℕ
  pub small : taken_bytes < 4294967296
  pub state : c.tcb.state ≡ established
  pub fits : Fits c.tcb
  pub number : c.tcb.rcv_nxt ≡ u32 (base + taken_bytes)
  pub prefix : out ++ contents c.tcb ≡ bytes stream 0 taken_bytes

pub bytes-prefix :
    (m m' : Mem) (a b n k : ℕ) → n ≤ k → bytes m a k ≡ bytes m' b k → bytes m a n ≡ bytes m' b n
bytes-prefix m m' a b zero k le h = refl
bytes-prefix m m' a b (suc n) zero le h = let no : ⊥ = omega (arith, le) in elim no [ ]
bytes-prefix m m' a b (suc n) (suc k) le h =
    let tails : bytes m (a + 1) n ≡ bytes m' (b + 1) n =
      bytes-prefix m m' (a + 1) (b + 1) n k (omega arith) cc in
    cc

pub same_offset :
    (base a b : ℕ) → a < 4294967296 → b < 4294967296 → u32 (base + a) ≡ u32 (base + b) → a ≡ b
same_offset base a b ha hb h = omega arith

⟶-established : {t : TcpState} → established ⟶ t → t ≡ established
⟶-established stay = refl

pub established_stays :
    (c : Conn) (s : Segment)
    → c.tcb.state ≡ established
    → (segment_arrives c s).tcb.state ≡ established
established_stays c s est =
    ⟶-established (subst (λ x. x ⟶ (segment_arrives c s).tcb.state) est (segment_arrives-⟶ c s))

-- A read moves bytes from the buffer to the user.
pub reading-kept :
    (out : List ℕ) (t : Tcb) (count : ℕ)
    → let (got, t') = read_bytes t count in (out ++ got) ++ contents t' ≡ out ++ contents t
reading-kept out t count =
    let (split, _, _) = read_bytes-contents t count in
    append_assoc out (read_bytes t count).0 _ ∙ ap (λ l. out ++ l) split

-- The data of a segment that starts where the stream goes on.
pub joined :
    (stream : Mem) (s : Segment) (at k n : ℕ)
    → at ≡ k
    → n ≤ s.segment_len
    → bytes s.mem 54 s.segment_len ≡ bytes stream at s.segment_len
    → bytes stream 0 k ++ bytes s.mem 54 n ≡ bytes stream 0 (k + n)
joined stream s at k n here less payload =
    let data_ : bytes s.mem 54 n ≡ bytes stream at n =
      bytes-prefix s.mem stream 54 at n s.segment_len less payload in
    let start : 0 + k ≡ k = zero-add k in
    rw (data_, here) (sym (bytes-append stream 0 k n ∙ rw start refl))

module _ (stream : Mem) (base : ℕ) where
  arrival-InOrder :
      (out : List ℕ) (c : Conn) (s : Segment)
      → Genuine stream base s
      → InOrder stream base out c
      → InOrder stream base out (segment_arrives c s)
  arrival-InOrder out c s g i =
      let fits' : Fits (segment_arrives c s).tcb = segment_arrives-Fits c s i.fits in
      let state' : (segment_arrives c s).tcb.state ≡ established = established_stays c s i.state in
      elim (segment_arrives-Progress c s i.state g.no_fin i.fits) [
        | still _ nxt same ↦ record {
          taken_bytes = i.taken_bytes;
          small = i.small;
          state = state';
          fits = fits';
          number = nxt ∙ i.number;
          prefix = ap (λ l. out ++ l) same ∙ i.prefix;
        }
        | taken next nxt grown ↦
            let n : ℕ = room_for c s in
            let here : g.offset ≡ i.taken_bytes =
              same_offset base g.offset i.taken_bytes (omega (arith, g.inside)) i.small
                (sym g.number ∙ next ∙ i.number) in
            let less : n ≤ s.segment_len = ground arith in
            record {
              taken_bytes = i.taken_bytes + n;
              small = omega (arith, g.inside, here, less);
              state = state';
              fits = fits';
              number = nxt ∙ omega (arith, i.number);
              prefix =
                  ap (λ l. out ++ l) grown
                  ∙ sym (append_assoc out (contents c.tcb) _)
                  ∙ ap (λ l. l ++ bytes s.mem 54 n) i.prefix
                  ∙ joined stream s g.offset i.taken_bytes n here less g.payload;
            }
      ]

  reading-InOrder :
      (out : List ℕ) (c : Conn) (count : ℕ)
      → InOrder stream base out c
      → let (got, t) = read_bytes c.tcb count in InOrder stream base (out ++ got) (with_tcb c t)
  unfolding read_bytes
  reading-InOrder out c count i = record {
    taken_bytes = i.taken_bytes;
    small = i.small;
    state = i.state;
    fits = read_bytes-Fits c.tcb count i.fits;
    number = i.number;
    prefix = reading-kept out c.tcb count ∙ i.prefix;
  }

  run_events-InOrder_from :
      (events : List Event) (out : List ℕ) (c : Conn)
      → All (IsGenuine stream base) events
      → InOrder stream base out c
      → let (more, c') = run_events c events in InOrder stream base (out ++ more) c'
  unfolding run_events
  run_events-InOrder_from [] out c genuine i =
      subst (λ l. InOrder stream base l c) (sym (append-nil out)) i
  run_events-InOrder_from (arrival s ∷ events) out c (g, genuine) i =
      run_events-InOrder_from events out (segment_arrives c s) genuine (arrival-InOrder out c s g i)
  run_events-InOrder_from (reading count ∷ events) out c (_, genuine) i =
      let c' : Conn = with_tcb c (read_bytes c.tcb count).1 in
      subst (λ l. InOrder stream base l (run_events c' events).1)
        (append_assoc out (read_bytes c.tcb count).0 (run_events c' events).0)
        (run_events-InOrder_from events (out ++ (read_bytes c.tcb count).0) c' genuine
          (reading-InOrder out c count i))

-- However segments of the peer's stream arrive at an open connection (lost, repeated, in any
-- order, cut in any way), and however the user reads in between: what the user has read, followed
-- by what waits in the buffer, is a prefix of the stream, and rcv_nxt is the number of the byte
-- behind it. The conditions are that the connection is in TCP_ESTABLISHED, with an empty buffer
-- and the number of the stream's first byte (modulo 2 ^ 32) as rcv_nxt, that no segment has FIN,
-- and that all end before byte 2 ^ 32 of the stream.
pub run_events-InOrder :
    (stream : Mem) (base : ℕ) (events : List Event) (c : Conn)
    → c.tcb.state ≡ established
    → c.tcb.rcv_nxt ≡ u32 base
    → c.tcb.rcv_buff_len ≡ 0
    → All (IsGenuine stream base) events
    → let (out, c') = run_events c events in InOrder stream base out c'
run_events-InOrder stream base events c est start none_waiting genuine =
    run_events-InOrder_from stream base events [] c genuine (record {
      taken_bytes = 0;
      small = omega arith;
      state = est;
      fits = rw none_waiting (omega arith);
      number = start ∙ rw add-zero refl;
      prefix = rw none_waiting refl;
    })
