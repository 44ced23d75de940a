-- ===== src/Tcp/Receive/GoBackN.antt =====
-- src/tcp.c, `tcp_rx` in TCP_ESTABLISHED: a stream that is cut into segments once, and the receiver of
-- go-back-N, that counts them.
use native.Mathlib.Nat.{add-zero}
use anp_netskeleton.Base.{
  ℕ, zero, suc, ◌+◌, ◌-◌, ◌<◌, ◌≤◌, ◌≡◌, subst, true, false, Bool-cases, inl, inr, List, [], ◌∷◌,
  All, ◌==◌, ltb, if◌then◌else◌, u32, arith,
}
use anp_netskeleton.Memory.{Mem, bytes}
use anp_netskeleton.Tcp.{has_flag, tcp_fin, tcp_ack, tcp_rcv_max}
use anp_netskeleton.Tcp.Receive.{Segment}
use anp_netskeleton.Tcp.Receive.Order.{Event, arrival, reading}

-- What the network and the user do: it delivers the piece with a number, in a segment, or the user
-- reads.
pub data Delivery : Type 0 where
  deliver : ℕ → Segment → Delivery
  user_reads : ℕ → Delivery

abbrev pub event_of : Delivery → Event
event_of (deliver i s) = arrival s
event_of (user_reads count) = reading count

-- The receiver of go-back-N, that has the first `j` pieces: it takes a piece if it is the next one,
-- and forgets every other.
abbrev pub go_back_n : ℕ → List Delivery → ℕ
go_back_n j [] = j
go_back_n j (deliver i s ∷ ds) = go_back_n (if i == j then suc j else j) ds
go_back_n j (user_reads count ∷ ds) = go_back_n j ds

-- The stream is cut at `cut 0`, `cut 1`, ..., `cut pieces`, from its start, into pieces that are not
-- empty, and all of it has room in a receive buffer.
pub record Cuts (cut : ℕ → ℕ) (pieces : ℕ) : Type 0 where
  pub from_start : cut 0 ≡ 0
  pub growing : (i : ℕ) → i < pieces → cut i < cut (suc i)
  pub has_room : cut pieces ≤ tcp_rcv_max

-- A segment with ACK and without FIN that carries piece `i`.
pub record Piece (stream : Mem) (base : ℕ) (cut : ℕ → ℕ) (i : ℕ) (s : Segment) : Type 0 where
  pub number : s.seq_num ≡ u32 (base + cut i)
  pub size : cut i + s.segment_len ≡ cut (suc i)
  pub payload : bytes s.mem 54 s.segment_len ≡ bytes stream (cut i) s.segment_len
  pub ack : has_flag s.flags tcp_ack ≡ true
  pub no_fin : has_flag s.flags tcp_fin ≡ false

abbrev pub OfStream : Mem → ℕ → (ℕ → ℕ) → ℕ → Delivery → Type 0
OfStream stream base cut pieces (deliver i s) = (i < pieces) × Piece stream base cut i s
OfStream stream base cut pieces (user_reads count) = Unit

-- Every piece from `j` up to `pieces` is among the deliveries, in this order, with any others between.
pub data Offers (pieces : ℕ) : ℕ → List Delivery → Type 0 where
  enough : {ds : List Delivery} → Offers pieces pieces ds
  now :
      {j : ℕ} {s : Segment} {ds : List Delivery}
      → Offers pieces (suc j) ds
      → Offers pieces j (deliver j s ∷ ds)
  later :
      {j : ℕ} {d : Delivery} {ds : List Delivery} → Offers pieces j ds → Offers pieces j (d ∷ ds)

module _ (cut : ℕ → ℕ) (pieces : ℕ) (h : Cuts cut pieces) where
  -- Later cuts are further on.
  cut-le : (i k : ℕ) → i + k ≤ pieces → cut i ≤ cut (i + k)
  cut-le i zero le = rw add-zero (omega arith)
  cut-le i (suc k) le =
      let step : i + suc k ≡ suc (i + k) = omega arith in
      let next = h.growing (i + k) (omega (arith, le)) in
      rw step (omega (arith, next, cut-le i k (omega (arith, le))))

  pub cut_mono : (i j : ℕ) → i ≤ j → j ≤ pieces → cut i ≤ cut j
  cut_mono i j le inside =
      let k : i + (j - i) ≡ j = omega (arith, le) in
      subst (λ n. cut i ≤ cut n) k (cut-le i (j - i) (omega (arith, k)))

  pub cut-bound : (i : ℕ) → i ≤ pieces → cut i ≤ tcp_rcv_max
  cut-bound i le = omega (arith, h.has_room, cut_mono i pieces le (omega arith))

  cut-less : (i j : ℕ) → i < j → j ≤ pieces → cut i < cut j
  cut-less i j less inside =
      omega (arith, h.growing i (omega (arith, less, inside)), cut_mono (suc i) j less inside)

  -- Two pieces that start at one place are the same.
  pub cut-injective : (i j : ℕ) → i < pieces → j ≤ pieces → cut i ≡ cut j → i ≡ j
  cut-injective i j hi hj e = elim (Bool-cases (ltb i j)) [
    | inl less ↦ let lower : i < j = ground arith in omega (arith, e, cut-less i j lower hj)
    | inr least ↦ elim (Bool-cases (ltb j i)) [
      | inl more ↦
          let higher : j < i = ground arith in
          omega (arith, e, cut-less j i higher (omega (arith, hi)))
      | inr most ↦ ground arith
    ]
  ]

-- One step of the receiver of go-back-N.
accepted-grows : (i k : ℕ) → k ≤ (if i == k then suc k else k)
accepted-grows i k = ground arith

accepted-next : (j k : ℕ) → j ≤ k → suc j ≤ (if j == k then suc k else k)
accepted-next j k le = ground arith

pub accepted-le :
    (i k pieces : ℕ) → i < pieces → k ≤ pieces → (if i == k then suc k else k) ≤ pieces
accepted-le i k pieces less le = ground arith

go_back_n-grows : (ds : List Delivery) (k : ℕ) → k ≤ go_back_n k ds
go_back_n-grows [] k = omega arith
go_back_n-grows (deliver i s ∷ ds) k =
    omega (arith, accepted-grows i k, go_back_n-grows ds (if i == k then suc k else k))
go_back_n-grows (user_reads count ∷ ds) k = go_back_n-grows ds k

pub go_back_n-enough :
    (pieces : ℕ) (ds : List Delivery) (j k : ℕ)
    → j ≤ k
    → Offers pieces j ds
    → pieces ≤ go_back_n k ds
go_back_n-enough pieces ds j k le enough = omega (arith, le, go_back_n-grows ds k)
go_back_n-enough pieces (deliver i s ∷ ds) j k le (now rest) =
    go_back_n-enough pieces ds (suc j) (if j == k then suc k else k) (accepted-next j k le) rest
go_back_n-enough pieces (deliver i s ∷ ds) j k le (later rest) =
    go_back_n-enough pieces ds j (if i == k then suc k else k)
      (omega (arith, le, accepted-grows i k)) rest
go_back_n-enough pieces (user_reads count ∷ ds) j k le (later rest) =
    go_back_n-enough pieces ds j k le rest

pub go_back_n-le :
    (stream : Mem) (base : ℕ) (cut : ℕ → ℕ) (pieces : ℕ) (ds : List Delivery) (k : ℕ)
    → All (OfStream stream base cut pieces) ds
    → k ≤ pieces
    → go_back_n k ds ≤ pieces
go_back_n-le stream base cut pieces [] k genuine le = le
go_back_n-le stream base cut pieces (deliver i s ∷ ds) k ((less, _), genuine) le =
    go_back_n-le stream base cut pieces ds (if i == k then suc k else k) genuine
      (accepted-le i k pieces less le)
go_back_n-le stream base cut pieces (user_reads count ∷ ds) k (_, genuine) le =
    go_back_n-le stream base cut pieces ds k genuine le
