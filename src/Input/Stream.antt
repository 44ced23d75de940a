-- ===== src/Input/Stream.antt =====
-- src/anp_netdev.c, `netdev_rx_loop`, with src/ip_rx.c and `tcp_rx` of src/tcp.c: the frames of a
-- stream that another host sends with src/tcp.c and src/ip_tx.c.
use anp_netskeleton.Base.{
  ℕ, suc, ◌+◌, ◌<◌, ◌≤◌, ◌≡◌, ◌∙◌, sym, ap, subst, refl, Bool, true, false, inl, Option, some, List,
  [], ◌∷◌, map, All, ◌==◌, if◌then◌else◌, u8, u32, htonl, arith,
}
use anp_netskeleton.Memory.{Mem, bytes}
use anp_netskeleton.Subuff.{Subuff}
use anp_netskeleton.Netdev.{RtEntry, Net}
use anp_netskeleton.World.{World, ok, conn_at, put_conn, get_tcb}
use anp_netskeleton.World.Update.{conn_at-put_conn, get_tcb-put_conn}
use anp_netskeleton.Tcp.{Tcb, Conn, established, has_flag, tcp_ack, tcp_fin}
use anp_netskeleton.Tcp.Receive.{Segment, segment_of, segment_arrives}
use anp_netskeleton.Tcp.Receive.GoBackN.{
  Delivery, deliver, go_back_n, Cuts, Piece, OfStream, Offers, accepted-le, go_back_n-enough,
  go_back_n-le,
}
use anp_netskeleton.Tcp.Receive.Pieces.{HasPieces, deliver-HasPieces}
use anp_netskeleton.Tcp.Receive.Signal.{bell, signals, deliver-signals}
use anp_netskeleton.Tcp.Receive.Locks.{segment_arrives-Unlocked}
use anp_netskeleton.Tcp.Receive.Peer.{SameEnds, segment_arrives-SamePeer}
use anp_netskeleton.Input.{process_packet, netdev_rx_loop}
use anp_netskeleton.Input.Transfer.{Routed, frame, received}
use anp_netskeleton.Input.Arrival.{rx_buffer}
use anp_netskeleton.Input.Roundtrip.{
  ClientTcb, Holds, Carries, arriving-Carries, arriving-delivered,
}

-- A piece of the stream on its way: the control block that builds the packet, the place of the data,
-- and the tables and the buffer of the transmission.
pub record Shipment : Type 0 where
  pub number : ℕ
  pub tcb : Tcb
  pub at : ℕ
  pub size : ℕ
  pub flags : ℕ
  pub net : Net
  pub rt : RtEntry
  pub hw : Mem
  pub sub : Subuff

-- The frame that is written, and the segment that it is read as.
abbrev pub frame_of : Shipment → List ℕ
frame_of x = frame x.net x.tcb.remote_ip x.rt x.hw x.sub x.size

abbrev pub segment_in : Shipment → Segment
segment_in x = segment_of (received x.net x.tcb.remote_ip x.rt x.hw x.sub x.size)

abbrev pub delivery_of : Shipment → Delivery
delivery_of x = deliver x.number (segment_in x)

-- The ends of the connection, as the sender sees them.
pub record Ends : Type 0 where
  pub from_port : ℕ
  pub to_port : ℕ
  pub to_ip : ℕ

pub record IsShipment (ends : Ends) (stream : Mem) (base : ℕ) (cut : ℕ → ℕ) (pieces : ℕ)
    (x : Shipment) : Type 0 where
  pub client : ClientTcb x.tcb
  pub routed : Routed x.net x.tcb.remote_ip x.rt x.hw
  pub device : x.rt.dev.addr ≡ 0x0a000004
  pub holds : Holds x.tcb stream x.at x.size x.flags x.sub
  pub from_port : x.tcb.local_port ≡ ends.from_port
  pub to_port : x.tcb.remote_port ≡ ends.to_port
  pub to_ip : x.tcb.remote_ip ≡ ends.to_ip
  pub one_of : x.number < pieces
  pub seq_num : x.tcb.snd_nxt ≡ u32 (base + cut x.number)
  pub start : x.at ≡ cut x.number
  pub up_to : cut x.number + x.size ≡ cut (suc x.number)
  pub ack : has_flag (u8 x.flags) tcp_ack ≡ true
  pub no_fin : has_flag (u8 x.flags) tcp_fin ≡ false

-- The connection that the receiver finds.
abbrev pub Knows : Ends → World → ℕ → Type 0
Knows ends w p = get_tcb w ends.to_port (htonl ends.to_ip) ends.from_port 0x0a000004 ≡ some p

netdev_rx_loop-next :
    (w w' : World) (bytes_read : List ℕ) (reads : List (Option (List ℕ)))
    → process_packet w (rx_buffer bytes_read) ≡ ok w'
    → netdev_rx_loop w (some bytes_read ∷ reads) ≡ netdev_rx_loop w' reads
unfolding netdev_rx_loop
netdev_rx_loop-next w w' bytes_read reads e = rw (netdev_rx_loop, e) refl

module _ (ends : Ends) (stream : Mem) (base : ℕ) (cut : ℕ → ℕ) (pieces : ℕ) where
  Shipment-Piece :
      (x : Shipment)
      → IsShipment ends stream base cut pieces x
      → Piece stream base cut x.number (segment_in x)
  Shipment-Piece x h =
      let says : Carries x.tcb stream x.at x.size x.flags (segment_in x) =
        arriving-Carries x.tcb stream x.at x.size x.flags x.net x.rt x.hw x.sub h.client h.routed
          h.holds in
      let data_ : bytes (segment_in x).mem 54 x.size ≡ bytes stream (cut x.number) x.size =
        says.payload ∙ ap (λ a. bytes stream a x.size) h.start in
      record {
        number = says.seq_num ∙ h.seq_num;
        size = ap (λ n. cut x.number + n) says.segment_len ∙ h.up_to;
        payload =
            subst (λ n. bytes (segment_in x).mem 54 n ≡ bytes stream (cut x.number) n)
              (sym says.segment_len) data_;
        ack = ap (λ f. has_flag f tcp_ack) says.flags_ ∙ h.ack;
        no_fin = ap (λ f. has_flag f tcp_fin) says.flags_ ∙ h.no_fin;
      }

  process_packet-shipment :
      (w : World) (p : ℕ) (x : Shipment)
      → IsShipment ends stream base cut pieces x
      → Knows ends w p
      → process_packet w (rx_buffer (frame_of x))
        ≡ ok (put_conn w (segment_arrives (conn_at w p) (segment_in x)))
  process_packet-shipment w p x h knows =
      arriving-delivered x.tcb stream x.at x.size x.flags x.net x.rt x.hw x.sub h.client h.routed
        h.holds w p h.device (rw (h.to_port, h.to_ip, h.from_port, h.device) knows)

  -- The connection is found where it was, and is as `tcp_rx` left it.
  after_segment :
      (w : World) (p : ℕ) (s : Segment)
      → (w.tcbs p).state ≡ established
      → Knows ends w p
      → let w' = put_conn w (segment_arrives (conn_at w p) s) in
        Knows ends w' p × (conn_at w' p ≡ segment_arrives (conn_at w p) s)
  after_segment w p s est knows =
      let same = segment_arrives-SamePeer (conn_at w p) s est in
      let c' : Conn = segment_arrives (conn_at w p) s in
      let ends' : SameEnds (w.tcbs c'.ptr) c'.tcb =
        subst (λ q. SameEnds (w.tcbs q) c'.tcb) (sym same.ptr) same.ends in
      (
        get_tcb-put_conn w c' ends.to_port (htonl ends.to_ip) ends.from_port 0x0a000004 ends'
            ∙ knows,
        conn_at-put_conn w c' p same.ptr,
      )

  -- A frame of the stream, at the connection that has the first `j` pieces.
  process_packet-HasPieces :
      (x : Shipment) (w : World) (p j : ℕ)
      → Cuts cut pieces
      → j ≤ pieces
      → IsShipment ends stream base cut pieces x
      → Knows ends w p
      → HasPieces stream base cut j [] (conn_at w p)
      → (w' : World) × (process_packet w (rx_buffer (frame_of x)) ≡ ok w')
        × Knows ends w' p
        × HasPieces stream base cut (if x.number == j then suc j else j) [] (conn_at w' p)
        × ((w'.tcbs p).tcb_cond
            ≡ (w.tcbs p).tcb_cond
              + (if x.number == j then bell (cut (suc j)) (segment_in x).flags else 0))
        × ((w'.tcbs p).tcb_lock ≡ false)
  process_packet-HasPieces x w p j cuts le h knows has =
      let s : Segment = segment_in x in
      let c : Conn = conn_at w p in
      let piece : Piece stream base cut x.number s = Shipment-Piece x h in
      let (knows', here) = after_segment w p s has.state knows in
      let (free, _) = segment_arrives-Unlocked c s (inl piece.no_fin) in
      (
        put_conn w (segment_arrives c s),
        process_packet-shipment w p x h knows,
        knows',
        subst (HasPieces stream base cut (if x.number == j then suc j else j) []) (sym here)
            (deliver-HasPieces stream base cut pieces cuts x.number j [] c s h.one_of le piece has),
        ap (λ d. d.tcb.tcb_cond) here
            ∙ deliver-signals stream base cut pieces x.number j c s cuts h.one_of le piece has,
        ap (λ d. d.tcb.tcb_lock) here ∙ free,
      )

  -- The loop handles every frame; its connection has the pieces that the receiver of go-back-N has,
  -- and has been signalled as often.
  pub netdev_rx_loop-HasPieces :
      (xs : List Shipment) (w : World) (p j : ℕ)
      → Cuts cut pieces
      → j ≤ pieces
      → All (IsShipment ends stream base cut pieces) xs
      → Knows ends w p
      → HasPieces stream base cut j [] (conn_at w p)
      → (w.tcbs p).tcb_lock ≡ false
      → (w' : World) × (netdev_rx_loop w (map (λ x. some (frame_of x)) xs) ≡ ok w')
        × HasPieces stream base cut (go_back_n j (map delivery_of xs)) [] (conn_at w' p)
        × ((w'.tcbs p).tcb_cond ≡ (w.tcbs p).tcb_cond + signals cut j (map delivery_of xs))
        × ((w'.tcbs p).tcb_lock ≡ false)
  unfolding netdev_rx_loop
  netdev_rx_loop-HasPieces [] w p j cuts le good knows has free = (w, refl, has, omega arith, free)
  netdev_rx_loop-HasPieces (x ∷ xs) w p j cuts le (h, good) knows has free =
      let j' : ℕ = if x.number == j then suc j else j in
      let (w1, one, knows', has', count, free') =
        process_packet-HasPieces x w p j cuts le h knows has in
      let (w', run, final, counts, free'') =
        netdev_rx_loop-HasPieces xs w1 p j' cuts (accepted-le x.number j pieces h.one_of le) good
          knows' has' free' in
      (
        w',
        netdev_rx_loop-next w w1 (frame_of x) _ one ∙ run,
        final,
        counts
            ∙ ap (λ n. n + signals cut j' (map delivery_of xs)) count
            ∙ added (x.number == j) _ _ (λ k. signals cut k (map delivery_of xs)),
        free'',
      )
    where
      added :
          (b : Bool) (n a : ℕ) (rest : ℕ → ℕ)
          → n + (if b then a else 0) + rest (if b then suc j else j)
            ≡ n + (if b then a + rest (suc j) else rest j)
      added true n a rest = omega arith
      added false n a rest = omega arith

deliveries-OfStream :
    (ends : Ends) (stream : Mem) (base : ℕ) (cut : ℕ → ℕ) (pieces : ℕ) (xs : List Shipment)
    → All (IsShipment ends stream base cut pieces) xs
    → All (OfStream stream base cut pieces) (map delivery_of xs)
deliveries-OfStream ends stream base cut pieces [] good = tt
deliveries-OfStream ends stream base cut pieces (x ∷ xs) (h, good) = (
  (h.one_of, Shipment-Piece ends stream base cut pieces x h),
  deliveries-OfStream ends stream base cut pieces xs good,
)

-- Frames that have every segment in order, whatever is between, bring all pieces.
pub deliveries_complete :
    (ends : Ends) (stream : Mem) (base : ℕ) (cut : ℕ → ℕ) (pieces : ℕ) (xs : List Shipment)
    → All (IsShipment ends stream base cut pieces) xs
    → Offers pieces 0 (map delivery_of xs)
    → go_back_n 0 (map delivery_of xs) ≡ pieces
deliveries_complete ends stream base cut pieces xs good offers = omega (
  arith,
  go_back_n-enough pieces (map delivery_of xs) 0 0 (omega arith) offers,
  go_back_n-le stream base cut pieces (map delivery_of xs) 0
      (deliveries-OfStream ends stream base cut pieces xs good) (omega arith),
)
