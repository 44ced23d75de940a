-- ===== src/Socket/Stream.antt =====
-- src/anpwrapper.c, `recv`, and src/anp_netdev.c, `netdev_rx_loop`: a call that waits for the frames of
-- a stream.
use anp_netskeleton.Base.{
  ℕ, ◌+◌, ◌<◌, ◌≡◌, ◌≢◌, ◌∙◌, sym, ap, subst, refl, true, false, Bool-cases, inl, inr, Option, none,
  some, List, [], ◌++◌, map, All, length, ◌==◌, if◌then◌else◌, u32, update, arith,
}
use anp_netskeleton.Memory.{Mem, bytes}
use anp_netskeleton.Memory.Laws.{length-bytes}
use anp_netskeleton.World.{World, ok, fault, AnpSocket, get_anp_socket, conn_at}
use anp_netskeleton.World.Update.{update-same}
use anp_netskeleton.Tcp.{Tcb, established}
use anp_netskeleton.Tcp.Transmit.{min}
use anp_netskeleton.Tcp.Buffer.{read_bytes}
use anp_netskeleton.Tcp.Buffer.Queue.{contents, read_bytes-out, read_bytes-contents}
use anp_netskeleton.Tcp.Receive.GoBackN.{Cuts, go_back_n}
use anp_netskeleton.Tcp.Receive.Order.{bytes-prefix}
use anp_netskeleton.Tcp.Receive.Pieces.{HasPieces-start}
use anp_netskeleton.Tcp.Receive.Signal.{signals}
use anp_netskeleton.Input.{netdev_rx_loop}
use anp_netskeleton.Input.Stream.{
  Shipment, Ends, IsShipment, Knows, frame_of, delivery_of, netdev_rx_loop-HasPieces,
}
use anp_netskeleton.Socket.{returns, hangs, recv, is_anp_sockfd, cond_wait, take_bytes}
use anp_netskeleton.Socket.Wait.{cond_wait-signalled, cond_wait-unheard}

-- What the receiving thread does with the reads while a call waits.
abbrev pub receiving : List (Option (List ℕ)) → World → World
receiving reads w = elim (netdev_rx_loop w reads) [ ok w' ↦ w' | fault _ ↦ w ]

-- A read of a buffer that holds the first bytes of a stream.
read_bytes-stream :
    (t : Tcb) (stream : Mem) (total count : ℕ)
    → contents t ≡ bytes stream 0 total
    → (read_bytes t count).0 ≡ bytes stream 0 (min count total)
read_bytes-stream t stream total count same =
    let held : t.rcv_buff_len ≡ total =
      sym (length-bytes t.rcv_buff 0 t.rcv_buff_len)
      ∙ ap length same
      ∙ length-bytes stream 0 total in
    let same' : bytes t.rcv_buff 0 total ≡ bytes stream 0 total =
      subst (λ n. bytes t.rcv_buff 0 n ≡ bytes stream 0 total) held same in
    read_bytes-out t count
    ∙ ap (λ n. bytes t.rcv_buff 0 (min count n)) held
    ∙ bytes-prefix t.rcv_buff stream 0 0 (min count total) total (ground arith) same'

-- A call that finds no data.
recv-waited :
    (w : World) (sockfd len : ℕ) (sock : AnpSocket) (wake : World → World)
    → is_anp_sockfd w sockfd ≡ true
    → get_anp_socket w.sockets sockfd ≡ some sock
    → sock.conn_info ≢ 0
    → (w.tcbs sock.conn_info).tcb_lock ≡ false
    → (w.tcbs sock.conn_info).rcv_buff_len ≡ 0
    → recv w sockfd len wake ≡ elim (cond_wait w sock.conn_info wake) [
      | none ↦ hangs (wake w)
      | some w2 ↦ take_bytes w2 sock.conn_info len
    ]
unfolding recv
recv-waited w sockfd len sock wake ours found connected free none_waiting =
    let not_null : (sock.conn_info == 0) ≡ false = ground arith in
    let no_data : ((w.tcbs sock.conn_info).rcv_buff_len == 0) ≡ true = ground arith in
    rw (ours, found, not_null, free, no_data) refl

-- The read behind the wait, from a buffer that holds the first bytes of a stream.
take_bytes-stream :
    (w : World) (p len : ℕ) (stream : Mem) (total : ℕ)
    → contents (w.tcbs p) ≡ bytes stream 0 total
    → len < 4294967296
    → let n = min len total in
      (w' : World) × (take_bytes w p len ≡ returns n (bytes stream 0 n) w')
      × (bytes stream 0 n ++ contents (w'.tcbs p) ≡ bytes stream 0 total)
unfolding take_bytes
take_bytes-stream w p len stream total whole small =
    let n : ℕ = min len total in
    let t : Tcb = (read_bytes (w.tcbs p) (u32 len)).1 in
    let w' : World = record w { tcbs = update w.tcbs p t } in
    let exact : u32 len ≡ len = omega (arith, small) in
    let out : (read_bytes (w.tcbs p) (u32 len)).0 ≡ bytes stream 0 n =
      read_bytes-stream (w.tcbs p) stream total (u32 len) whole
      ∙ ap (λ k. bytes stream 0 (min k total)) exact in
    let (split, _, _) = read_bytes-contents (w.tcbs p) (u32 len) in
    (
      w',
      ap (λ l. returns (length l) l w') out
          ∙ ap (λ k. returns k (bytes stream 0 n) w') (length-bytes stream 0 n),
      ap (λ u. bytes stream 0 n ++ contents u) (update-same w.tcbs p t)
          ∙ ap (λ l. l ++ contents t) (sym out)
          ∙ split
          ∙ whole,
    )

-- A call of recv that finds the buffer of its connection empty, and during whose wait frames of a
-- stream arrive: any of its segments in any order, some more than once, some not at all, up to the
-- time at which the waiting thread may run again. The stream has come as far as its segments came
-- in order, as the receiver of go-back-N counts them. If one of the segments counted has PSH, or
-- fills the buffer, the call returns the smaller of the length that is asked for and what has
-- come, with so many of the stream's first bytes, and the rest of what has come waits in the
-- buffer. If none has and none does, the condition variable is not signalled: the call waits for
-- ever, and all that has come waits in the buffer. The stream is cut once into segments (with ACK,
-- without FIN) that are not empty, have at most 1460 bytes and all together room in the receive
-- buffer, and each frame is what create_tcp_packet, ip_output and netdev_transmit of the client
-- device make of one of them, at the first try or at a later one. The descriptor is one of the
-- stack, its connection is in TCP_ESTABLISHED with tcb_lock free, is what get_tcb finds for the
-- frames, and has the stream's first number as rcv_nxt; the length is below 2 ^ 32.
pub recv_of_stream :
    (ends : Ends) (stream : Mem) (base : ℕ) (cut : ℕ → ℕ) (pieces : ℕ) (xs : List Shipment)
    (w : World) (sockfd len : ℕ) (sock : AnpSocket)
    → Cuts cut pieces
    → All (IsShipment ends stream base cut pieces) xs
    → is_anp_sockfd w sockfd ≡ true
    → get_anp_socket w.sockets sockfd ≡ some sock
    → sock.conn_info ≢ 0
    → Knows ends w sock.conn_info
    → (w.tcbs sock.conn_info).tcb_lock ≡ false
    → (w.tcbs sock.conn_info).state ≡ established
    → (w.tcbs sock.conn_info).rcv_nxt ≡ u32 base
    → (w.tcbs sock.conn_info).rcv_buff_len ≡ 0
    → len < 4294967296
    → let ds = map delivery_of xs in
      let total = cut (go_back_n 0 ds) in
      let n = min len total in
      let silent = signals cut 0 ds == 0 in
      (w' : World) × (recv w sockfd len (receiving (map (λ x. some (frame_of x)) xs))
        ≡ (if silent then hangs w' else returns n (bytes stream 0 n) w'))
      × ((if silent then [] else bytes stream 0 n) ++ contents (w'.tcbs sock.conn_info)
          ≡ bytes stream 0 total)
recv_of_stream ends stream base cut pieces xs w sockfd len sock cuts good ours found connected knows
      free est start none_waiting small =
    let p : ℕ = sock.conn_info in
    let wake : World → World = receiving (map (λ x. some (frame_of x)) xs) in
    let total : ℕ = cut (go_back_n 0 (map delivery_of xs)) in
    let (w1, run, has, count, free') =
      netdev_rx_loop-HasPieces ends stream base cut pieces xs w p 0 cuts (omega arith) good knows
        (HasPieces-start stream base cut pieces (conn_at w p) cuts est start none_waiting) free in
    let woken : wake w ≡ w1 = rw (receiving, run) refl in
    let counted : ((wake w).tcbs p).tcb_cond
        ≡ (w.tcbs p).tcb_cond + signals cut 0 (map delivery_of xs) =
      ap (λ v. (v.tcbs p).tcb_cond) woken ∙ count in
    let call = recv-waited w sockfd len sock wake ours found connected free none_waiting in
    elim (Bool-cases (signals cut 0 (map delivery_of xs) == 0)) [
      | inl silent ↦
          let none_ : signals cut 0 (map delivery_of xs) ≡ 0 = ground arith in
          let same : ((wake w).tcbs p).tcb_cond ≡ (w.tcbs p).tcb_cond =
            counted ∙ omega (arith, none_) in
          (
            w1,
            rw silent (call ∙ rw (cond_wait-unheard w p wake same, woken) refl),
            rw silent has.prefix,
          )
      | inr rung ↦
          let some_ : signals cut 0 (map delivery_of xs) ≢ 0 = ground arith in
          let more : ((wake w).tcbs p).tcb_cond ≢ (w.tcbs p).tcb_cond =
            λ same. some_ (omega (arith, counted, same)) in
          let (w2, got, left) = take_bytes-stream w1 p len stream total has.prefix small in
          (
            w2,
            rw rung (
                call
                ∙ rw
                    (
                      cond_wait-signalled w p wake more
                          (ap (λ v. (v.tcbs p).tcb_lock) woken ∙ free'),
                      woken,
                    )
                    got),
            rw rung left,
          )
    ]
