-- ===== src/Tcp/Receive/Pieces.antt =====
-- src/tcp.c, `tcp_rx` and `read_bytes` in TCP_ESTABLISHED: a stream that is cut into segments once,
-- and the receiver as one that counts them.
use native.Mathlib.Nat.{add-zero}
use mathlib.Core.List.{append_assoc, append-nil}
use anp_netskeleton.Base.{
  ℕ, suc, ◌+◌, ◌<◌, ◌≤◌, ◌≡◌, ◌≢◌, ◌∙◌, ap, sym, subst, refl, Bool-cases, inl, inr, List, [], ◌∷◌,
  ◌++◌, map, All, length, length-append, ◌==◌, if◌then◌else◌, u32, arith,
}
use anp_netskeleton.Memory.{Mem, bytes}
use anp_netskeleton.Memory.Laws.{length-bytes}
use anp_netskeleton.Tcp.{established, Conn, with_tcb, tcp_rcv_max}
use anp_netskeleton.Tcp.Buffer.{read_bytes}
use anp_netskeleton.Tcp.Buffer.Queue.{contents, Fits, read_bytes-Fits}
use anp_netskeleton.Tcp.Receive.{Segment, segment_arrives}
use anp_netskeleton.Tcp.Receive.Bounds.{segment_arrives-Fits}
use anp_netskeleton.Tcp.Receive.Order.{
  Event, run_events, joined, same_offset, established_stays, reading-kept,
}
use anp_netskeleton.Tcp.Receive.GoBackN.{
  Delivery, deliver, user_reads, event_of, go_back_n, Cuts, Piece, OfStream, Offers, cut-bound,
  cut-injective, go_back_n-enough, go_back_n-le, accepted-le,
}
use anp_netskeleton.Tcp.Receive.Progress.{
  room_for, PassedBy, no_ack, no_data, elsewhere, still, taken, segment_arrives-Progress,
}

-- The first `j` pieces, and no more, have been read or wait in the buffer.
pub record HasPieces (stream : Mem) (base : ℕ) (cut : ℕ → ℕ) (j : ℕ) (out : List ℕ) (c : Conn)
    : Type 0 where
  pub state : c.tcb.state ≡ established
  pub fits : Fits c.tcb
  pub number : c.tcb.rcv_nxt ≡ u32 (base + cut j)
  pub prefix : out ++ contents c.tcb ≡ bytes stream 0 (cut j)

module _ (stream : Mem) (base : ℕ) (cut : ℕ → ℕ) (pieces : ℕ) (h : Cuts cut pieces) where
  -- What is in the buffer is part of what has been taken, so the next piece has room.
  piece_has_room :
      (j : ℕ) (out : List ℕ) (c : Conn) (s : Segment)
      → j < pieces
      → HasPieces stream base cut j out c
      → cut j + s.segment_len ≡ cut (suc j)
      → room_for c s ≡ s.segment_len
  piece_has_room j out c s less has size =
      let held : length out + c.tcb.rcv_buff_len ≡ cut j =
        ap (λ n. length out + n) (sym (length-bytes c.tcb.rcv_buff 0 c.tcb.rcv_buff_len))
        ∙ sym (length-append out (contents c.tcb))
        ∙ ap length has.prefix
        ∙ length-bytes stream 0 (cut j) in
      let bound : cut (suc j) ≤ tcp_rcv_max = cut-bound cut pieces h (suc j) less in ground arith

  deliver-next :
      (j : ℕ) (out : List ℕ) (c : Conn) (s : Segment)
      → j < pieces
      → Piece stream base cut j s
      → HasPieces stream base cut j out c
      → HasPieces stream base cut (suc j) out (segment_arrives c s)
  deliver-next j out c s less p has =
      elim (segment_arrives-Progress c s has.state p.no_fin has.fits) [
        | still why _ _ ↦ elim (not_passed why) [ ]
        | taken _ nxt grown ↦
            let room = piece_has_room j out c s less has p.size in
            let longer : bytes stream 0 (cut j) ++ bytes s.mem 54 (room_for c s)
                ≡ bytes stream 0 (cut j + room_for c s) =
              joined stream s (cut j) (cut j) (room_for c s) refl (omega (arith, room)) p.payload in
            let here : cut j + room_for c s ≡ cut (suc j) = omega (arith, room, p.size) in
            record {
              state = established_stays c s has.state;
              fits = segment_arrives-Fits c s has.fits;
              number = nxt ∙ omega (arith, here, has.number);
              prefix =
                  ap (λ l. out ++ l) grown
                  ∙ sym (append_assoc out (contents c.tcb) _)
                  ∙ ap (λ l. l ++ bytes s.mem 54 (room_for c s)) has.prefix
                  ∙ longer
                  ∙ ap (bytes stream 0) here;
            }
      ]
    where
      not_passed : PassedBy c s → ⊥
      not_passed (no_ack none) = cc (p.ack, none)
      not_passed (no_data none) = omega (arith, none, p.size, h.growing j less)
      not_passed (elsewhere other) = other (p.number ∙ sym has.number)

  deliver-other :
      (i j : ℕ) (out : List ℕ) (c : Conn) (s : Segment)
      → i < pieces
      → j ≤ pieces
      → i ≢ j
      → Piece stream base cut i s
      → HasPieces stream base cut j out c
      → HasPieces stream base cut j out (segment_arrives c s)
  deliver-other i j out c s hi hj other p has =
      elim (segment_arrives-Progress c s has.state p.no_fin has.fits) [
        | still _ nxt same ↦ record {
          state = established_stays c s has.state;
          fits = segment_arrives-Fits c s has.fits;
          number = nxt ∙ has.number;
          prefix = ap (λ l. out ++ l) same ∙ has.prefix;
        }
        | taken next _ _ ↦
            let small = cut-bound cut pieces h i (omega (arith, hi)) in
            let small' = cut-bound cut pieces h j hj in
            elim (other (
              cut-injective cut pieces h i j hi hj (
                same_offset base (cut i) (cut j) (omega (arith, small)) (omega (arith, small'))
                  (sym p.number ∙ next ∙ has.number)))) [ ]
      ]

  user_reads-HasPieces :
      (j : ℕ) (out : List ℕ) (c : Conn) (count : ℕ)
      → HasPieces stream base cut j out c
      → let (got, t) = read_bytes c.tcb count in
        HasPieces stream base cut j (out ++ got) (with_tcb c t)
  unfolding read_bytes
  user_reads-HasPieces j out c count has = record {
    state = has.state;
    fits = read_bytes-Fits c.tcb count has.fits;
    number = has.number;
    prefix = reading-kept out c.tcb count ∙ has.prefix;
  }

  -- A delivery, as the receiver of go-back-N sees it.
  pub deliver-HasPieces :
      (i j : ℕ) (out : List ℕ) (c : Conn) (s : Segment)
      → i < pieces
      → j ≤ pieces
      → Piece stream base cut i s
      → HasPieces stream base cut j out c
      → HasPieces stream base cut (if i == j then suc j else j) out (segment_arrives c s)
  deliver-HasPieces i j out c s less le p has = elim (Bool-cases (i == j)) [
    | inl same ↦
        let e : i ≡ j = ground arith in
        let below : j < pieces = omega (arith, e, less) in
        let p' : Piece stream base cut j s = subst (λ k. Piece stream base cut k s) e p in
        rw same (deliver-next j out c s below p' has)
    | inr different ↦ rw different (deliver-other i j out c s less le (ground arith) p has)
  ]

  run_events-HasPieces_from :
      (ds : List Delivery) (j : ℕ) (out : List ℕ) (c : Conn)
      → j ≤ pieces
      → All (OfStream stream base cut pieces) ds
      → HasPieces stream base cut j out c
      → let (more, c') = run_events c (map event_of ds) in
        HasPieces stream base cut (go_back_n j ds) (out ++ more) c'
  unfolding run_events
  run_events-HasPieces_from [] j out c le genuine has =
      subst (λ l. HasPieces stream base cut j l c) (sym (append-nil out)) has
  run_events-HasPieces_from (deliver i s ∷ ds) j out c le ((less, p), genuine) has =
      run_events-HasPieces_from ds (if i == j then suc j else j) out (segment_arrives c s)
        (accepted-le i j pieces less le) genuine (deliver-HasPieces i j out c s less le p has)
  run_events-HasPieces_from (user_reads count ∷ ds) j out c le (_, genuine) has =
      let c' : Conn = with_tcb c (read_bytes c.tcb count).1 in
      let rest : List Event = map event_of ds in
      subst (λ l. HasPieces stream base cut (go_back_n j ds) l (run_events c' rest).1)
        (append_assoc out (read_bytes c.tcb count).0 (run_events c' rest).0)
        (run_events-HasPieces_from ds j (out ++ (read_bytes c.tcb count).0) c' le genuine
          (user_reads-HasPieces j out c count has))

-- A connection that is open and has received nothing.
pub HasPieces-start :
    (stream : Mem) (base : ℕ) (cut : ℕ → ℕ) (pieces : ℕ) (c : Conn)
    → Cuts cut pieces
    → c.tcb.state ≡ established
    → c.tcb.rcv_nxt ≡ u32 base
    → c.tcb.rcv_buff_len ≡ 0
    → HasPieces stream base cut 0 [] c
HasPieces-start stream base cut pieces c h est start none_waiting =
    let first : cut 0 ≡ 0 = h.from_start in
    record {
      state = est;
      fits = rw none_waiting (omega arith);
      number = start ∙ rw (first, add-zero) refl;
      prefix = rw (none_waiting, first) refl;
    }

-- The receiver refines that of go-back-N, which takes a piece if it is the next one and forgets
-- every other: for a stream that is cut once, into segments that are not empty (with ACK, without
-- FIN), and that has room in the receive buffer, whatever deliveries and reads there are, exactly
-- the pieces that the receiver of go-back-N has are what has been read or waits in the buffer. The
-- connection is in TCP_ESTABLISHED, with an empty buffer and the stream's first number as rcv_nxt.
pub run_events-HasPieces :
    (stream : Mem) (base : ℕ) (cut : ℕ → ℕ) (pieces : ℕ) (ds : List Delivery) (c : Conn)
    → Cuts cut pieces
    → c.tcb.state ≡ established
    → c.tcb.rcv_nxt ≡ u32 base
    → c.tcb.rcv_buff_len ≡ 0
    → All (OfStream stream base cut pieces) ds
    → let (out, c') = run_events c (map event_of ds) in
      HasPieces stream base cut (go_back_n 0 ds) out c'
run_events-HasPieces stream base cut pieces ds c h est start none_waiting genuine =
    run_events-HasPieces_from stream base cut pieces h ds 0 [] c (omega arith) genuine
      (HasPieces-start stream base cut pieces c h est start none_waiting)

-- If the deliveries of such a stream have all its pieces in order, with any other deliveries (of
-- any pieces, once more or too early) and reads between, then it arrives as a whole: what has been
-- read, followed by what waits in the buffer, is the stream, and rcv_nxt is the number behind it.
pub run_events_complete :
    (stream : Mem) (base : ℕ) (cut : ℕ → ℕ) (pieces : ℕ) (ds : List Delivery) (c : Conn)
    → Cuts cut pieces
    → c.tcb.state ≡ established
    → c.tcb.rcv_nxt ≡ u32 base
    → c.tcb.rcv_buff_len ≡ 0
    → All (OfStream stream base cut pieces) ds
    → Offers pieces 0 ds
    → let (out, c') = run_events c (map event_of ds) in
      (out ++ contents c'.tcb ≡ bytes stream 0 (cut pieces))
      × (c'.tcb.rcv_nxt ≡ u32 (base + cut pieces))
run_events_complete stream base cut pieces ds c h est start none_waiting genuine offers =
    let all_there : go_back_n 0 ds ≡ pieces = omega (
      arith,
      go_back_n-enough pieces ds 0 0 (omega arith) offers,
      go_back_n-le stream base cut pieces ds 0 genuine (omega arith),
    ) in
    let (out, c') = run_events c (map event_of ds) in
    let has : HasPieces stream base cut pieces out c' =
      subst (λ j. HasPieces stream base cut j out c') all_there
        (run_events-HasPieces stream base cut pieces ds c h est start none_waiting genuine) in
    (has.prefix, has.number)
