-- ===== src/Tcp/Buffer/Queue.antt =====
-- src/tcp.c, `save_data_and_ack` and `read_bytes`: the receive buffer as a queue of bytes.
use native.Mathlib.Nat.{zero-add, add-zero}
use anp_netskeleton.Base.{
  ℕ, ◌+◌, ◌-◌, ◌≤◌, ◌≡◌, ◌∙◌, sym, ap, refl, List, [], ◌∷◌, ◌++◌, length, ltb, Bool-cases, inl, inr,
  if◌then◌else◌, u32, arith,
}
use mathlib.Core.List.{append_assoc, append-nil}
use anp_netskeleton.Memory.{Mem, memcpy, bytes}
use anp_netskeleton.Memory.Laws.{length-bytes, bytes_ext, bytes-append}
use anp_netskeleton.Tcp.{Tcb, tcp_rcv_max}
use anp_netskeleton.Tcp.Transmit.{min}
use anp_netskeleton.Tcp.Buffer.{final_copy_size, append_data, read_bytes}

-- The bytes that wait for the reader.
abbrev pub contents : Tcb → List ℕ
contents t = bytes t.rcv_buff 0 t.rcv_buff_len

abbrev pub Fits : Tcb → Type 0
Fits t = t.rcv_buff_len ≤ tcp_rcv_max

bytes-memcpy_before : (dst src : Mem) (b n k : ℕ) → bytes (memcpy dst k src b n) 0 k ≡ bytes dst 0 k
unfolding memcpy
bytes-memcpy_before dst src b n k = bytes_ext _ dst 0 0 k (λ i p. ground arith)

bytes-memcpy_inside : (dst src : Mem) (a b n : ℕ) → bytes (memcpy dst a src b n) a n ≡ bytes src b n
unfolding memcpy
bytes-memcpy_inside dst src a b n = bytes_ext _ src a b n (λ i p. ground arith)

bytes-memcpy_append :
    (dst src : Mem) (k b n : ℕ)
    → bytes (memcpy dst k src b n) 0 (k + n) ≡ bytes dst 0 k ++ bytes src b n
bytes-memcpy_append dst src k b n =
    bytes-append (memcpy dst k src b n) 0 k n
    ∙ rw (zero-add, bytes-memcpy_before, bytes-memcpy_inside)

final_copy_size-eq :
    (t : Tcb) (dlen : ℕ) → Fits t → final_copy_size t dlen ≡ min dlen (tcp_rcv_max - t.rcv_buff_len)
unfolding final_copy_size
final_copy_size-eq t dlen h = ground arith

-- Data that arrives goes behind what is there, as far as the buffer has room.
pub append_data-contents :
    (t : Tcb) (source : Mem) (payload dlen : ℕ)
    → Fits t
    → let n = min dlen (tcp_rcv_max - t.rcv_buff_len) in
      let t' = append_data t source payload dlen in
      (contents t' ≡ contents t ++ bytes source payload n)
      × Fits t'
      × (t'.rcv_nxt ≡ u32 (t.rcv_nxt + n))
unfolding append_data
append_data-contents t source payload dlen h =
    let n : ℕ = min dlen (tcp_rcv_max - t.rcv_buff_len) in
    let exact : u32 (t.rcv_buff_len + n) ≡ t.rcv_buff_len + n = ground arith in
    rw (final_copy_size-eq t dlen h, exact)
      (bytes-memcpy_append t.rcv_buff source t.rcv_buff_len payload n, ground arith, refl)

bytes-append_zero : (m : Mem) (n k : ℕ) → bytes m 0 (n + k) ≡ bytes m 0 n ++ bytes m n k
bytes-append_zero m n k = bytes-append m 0 n k ∙ rw zero-add

none_left : (m : Mem) (n left : ℕ) → left ≡ 0 → bytes m 0 n ++ bytes m 0 left ≡ bytes m 0 (n + left)
none_left m n left h = rw (h, append-nil, add-zero)

-- The bytes that are left move to the front.
shifted :
    (m : Mem) (n left : ℕ)
    → bytes m 0 n ++ bytes (if ltb 0 left then memcpy m 0 m n left else m) 0 left
      ≡ bytes m 0 (n + left)
shifted m n left = elim (Bool-cases (ltb 0 left)) [
  | inl more ↦ rw more (
      ap (λ l. bytes m 0 n ++ l) (bytes-memcpy_inside m m 0 n left)
      ∙ sym (bytes-append_zero m n left))
  | inr done ↦ rw done (none_left m n left (ground arith))
]

clipped : (count len : ℕ) → min (if ltb len count then len else count) len ≡ min count len
clipped count len = ground arith

-- A read takes the smaller of what is asked for and what is there, from the front.
pub read_bytes-contents :
    (t : Tcb) (count : ℕ)
    → let (out, t') = read_bytes t count in
      (out ++ contents t' ≡ contents t)
      × (length out ≡ min count t.rcv_buff_len)
      × (t'.rcv_buff_len ≡ t.rcv_buff_len - min count t.rcv_buff_len)
unfolding read_bytes
read_bytes-contents t count =
    let n : ℕ = min count t.rcv_buff_len in
    let whole : n + (t.rcv_buff_len - n) ≡ t.rcv_buff_len = ground arith in
    rw (clipped count t.rcv_buff_len) (
      shifted t.rcv_buff n (t.rcv_buff_len - n) ∙ ap (bytes t.rcv_buff 0) whole,
      length-bytes t.rcv_buff 0 n,
      refl,
    )

-- What the receiving thread and a reader do to the buffer, one after the other.
pub data BufferOp : Type 0 where
  arrive : (source : Mem) (payload dlen : ℕ) → BufferOp
  read : (count : ℕ) → BufferOp

-- The bytes that have been read, the bytes that were taken in, and the control block at the end.
pub record Traffic : Type 0 where
  pub out : List ℕ
  pub taken : List ℕ
  pub tcb : Tcb

unfoldable pub run_buffer : Tcb → List BufferOp → Traffic
run_buffer t [] = record { out = []; taken = []; tcb = t }
run_buffer t (arrive source payload dlen ∷ ops) =
    let rest : Traffic = run_buffer (append_data t source payload dlen) ops in
    record rest { taken = bytes source payload (final_copy_size t dlen) ++ rest.taken }
run_buffer t (read count ∷ ops) =
    let (out, t') = read_bytes t count in
    let rest : Traffic = run_buffer t' ops in record rest { out = out ++ rest.out }

pub read_bytes-Fits : (t : Tcb) (count : ℕ) → Fits t → Fits (read_bytes t count).1
read_bytes-Fits t count h = omega (arith, (read_bytes-contents t count).2)

-- However arrivals and reads interleave: the bytes that have been read, followed by those still in
-- the buffer, are the bytes that were in the buffer, followed by those that were taken in; and the
-- buffer never holds more than 65535 bytes. The condition is that it does not at the start.
pub run_buffer-fifo :
    (ops : List BufferOp) (t : Tcb)
    → Fits t
    → let r = run_buffer t ops in (r.out ++ contents r.tcb ≡ contents t ++ r.taken) × Fits r.tcb
unfolding run_buffer
run_buffer-fifo [] t h = (sym (append-nil (contents t)), h)
run_buffer-fifo (arrive source payload dlen ∷ ops) t h =
    let (grown, fits, _) = append_data-contents t source payload dlen h in
    let (ih, fits') = run_buffer-fifo ops (append_data t source payload dlen) fits in
    (rw (final_copy_size-eq t dlen h, ih, grown) (append_assoc (contents t) _ _), fits')
run_buffer-fifo (read count ∷ ops) t h =
    let (split, _, _) = read_bytes-contents t count in
    let (ih, fits') = run_buffer-fifo ops (read_bytes t count).1 (read_bytes-Fits t count h) in
    let r : Traffic = run_buffer (read_bytes t count).1 ops in
    (
      append_assoc (read_bytes t count).0 r.out (contents r.tcb)
          ∙ ap (λ l. (read_bytes t count).0 ++ l) ih
          ∙ sym (append_assoc (read_bytes t count).0 _ _)
          ∙ ap (λ l. l ++ r.taken) split,
      fits',
    )

-- The bytes that a read gives are the first ones of the buffer.
pub read_bytes-out :
    (t : Tcb) (count : ℕ) → (read_bytes t count).0 ≡ bytes t.rcv_buff 0 (min count t.rcv_buff_len)
unfolding read_bytes
read_bytes-out t count = rw (clipped count t.rcv_buff_len) refl
