-- ===== src/Programs/Reliable/Loops.antt =====
-- server-client/: the transfer loops over a reliable connection.
use mathlib.Core.List.{append_assoc, append-nil}
use native.Mathlib.Nat.{zero-add}
use anp_netskeleton.Base.{
  ℕ, zero, suc, ◌+◌, ◌-◌, ◌<◌, ◌≡◌, ap, sym, refl, ◌∙◌, List, [], ◌∷◌, ◌++◌, length, true, false,
  ◌&&◌, if◌then◌else◌, ltb, leb, ℤ, pos, u8, arith,
}
use anp_netskeleton.Memory.{Mem, store8, bytes}
use anp_netskeleton.Memory.Laws.{bytes-append, length-bytes, bytes_ext}
use anp_netskeleton.Programs.{Sockets}
use anp_netskeleton.Programs.Transfer.{complete, write_bytes, send_loop, recv_loop}
use anp_netskeleton.Programs.Reliable.{Reliable, take}

take-bytes : (m : Mem) (a n r : ℕ) → take n (bytes m a (n + r)) ≡ bytes m a n
take-bytes m a zero r = refl
take-bytes m a (suc n) r =
    let longer : suc n + r ≡ suc (n + r) = omega arith in
    rw longer (ap (λ l. u8 (m a) ∷ l) (take-bytes m (a + 1) n r))

bytes-split :
    (m : Mem) (a n : ℕ) (xs ys : List ℕ)
    → bytes m a n ≡ xs ++ ys
    → (n ≡ length xs + length ys)
      × (xs ≡ bytes m a (length xs))
      × (ys ≡ bytes m (a + length xs) (length ys))
bytes-split m a n [] ys e =
    let len : n ≡ length ys = sym (length-bytes m a n) ∙ ap length e in
    (
      omega (arith, len),
      refl,
      sym e ∙ ap (bytes m a) len ∙ ap (λ b. bytes m b (length ys)) (omega arith),
    )
bytes-split m a zero (x ∷ xs) ys e = absurd (cc e)
bytes-split m a (suc n) (x ∷ xs) ys e =
    let (len, left, right) = bytes-split m (a + 1) n xs ys (cc e) in
    (omega arith, cc (e, left), right ∙ ap (λ b. bytes m b (length ys)) (omega arith))

write_bytes-bytes :
    (m buf : Mem) (a n x : ℕ)
    → write_bytes buf a (bytes m a n) x ≡ (if leb a x && ltb x (a + n) then u8 (m x) else buf x)
unfolding write_bytes store8
write_bytes-bytes m buf a zero x = ground arith
write_bytes-bytes m buf a (suc n) x =
    ground (arith, write_bytes-bytes m (store8 buf a (u8 (m a))) (a + 1) n x)

module _ {S : Type 0} (k : Sockets S) (fd : ℤ) (peer : List ℕ → List ℕ)
    (r : Reliable k fd peer) where
  send_turn :
      (buf : Mem) (size fuel : ℕ) (s s' : S) (so_far n : ℕ)
      → ltb so_far size ≡ true
      → k.sys_send s fd (bytes buf so_far (size - so_far)) ≡ (s', pos n)
      → send_loop k fd buf size (suc fuel) s so_far ≡ send_loop k fd buf size fuel s' (so_far + n)
  unfolding send_loop
  send_turn buf size fuel s s' so_far n on e =
      rw (send_loop, on, ap (λ r. r.1) e, ap (λ r. r.0) e) refl

  recv_turn :
      (size fuel : ℕ) (s s' : S) (buf : Mem) (so_far n : ℕ) (got : List ℕ)
      → ltb so_far size ≡ true
      → k.sys_recv s fd (size - so_far) ≡ (s', pos n, got)
      → recv_loop k fd size (suc fuel) s buf so_far
        ≡ recv_loop k fd size fuel s' (write_bytes buf so_far got) (so_far + n)
  unfolding recv_loop
  recv_turn size fuel s s' buf so_far n got on e =
      rw (recv_loop, on, ap (λ r. r.1) e, ap (λ r. r.2) e, ap (λ r. r.0) e) refl

  -- The loop sends the buffer's bytes from `so_far` on, all of them and in order.
  pub send_loop-sent :
      (buf : Mem) (size fuel : ℕ) (s : S) (so_far left : ℕ)
      → size ≡ so_far + left
      → left < fuel
      → (s' : S) × (send_loop k fd buf size fuel s so_far ≡ complete s')
        × (r.sent s' ≡ r.sent s ++ bytes buf so_far left)
        × (r.received s' ≡ r.received s)
  unfolding send_loop
  send_loop-sent buf size zero s so_far left e enough = absurd (omega arith)
  send_loop-sent buf size (suc fuel) s so_far zero e enough =
      let over : ltb so_far size ≡ false = ground arith in
      (s, rw (send_loop, over) refl, sym (append-nil (r.sent s)), refl)
  send_loop-sent buf size (suc fuel) s so_far (suc more) e enough =
      let on : ltb so_far size ≡ true = ground arith in
      let amount : size - so_far ≡ suc more = omega arith in
      let todo = bytes buf so_far (suc more) in
      let step = r.sends s todo (omega (arith, length-bytes buf so_far (suc more))) in
      let left' = suc more - step.count in
      let all : suc more ≡ step.count + left' =
        omega (arith, step.not_more, length-bytes buf so_far (suc more)) in
      let (s', run, sent, received) =
        send_loop-sent buf size fuel step.after (so_far + step.count) left' (omega arith)
          (omega (arith, step.some_sent)) in
      let front : take step.count todo ≡ bytes buf so_far step.count =
        ap (λ n. take step.count (bytes buf so_far n)) all
        ∙ take-bytes buf so_far step.count left' in
      let whole : todo ≡ bytes buf so_far step.count ++ bytes buf (so_far + step.count) left' =
        ap (bytes buf so_far) all ∙ bytes-append buf so_far step.count left' in
      (
        s',
        send_turn buf size fuel s step.after so_far step.count on
              (ap (λ n. k.sys_send s fd (bytes buf so_far n)) amount ∙ step.result)
            ∙ run,
        cc (
          sent,
          step.sent_after,
          front,
          whole,
          append_assoc (r.sent s) (bytes buf so_far step.count)
              (bytes buf (so_far + step.count) left'),
        ),
        received ∙ step.received_after,
      )

  -- Where the other side's answer goes on with the bytes `m` has from `so_far` on, the loop brings them
  -- into the buffer.
  pub recv_loop-received :
      (m : Mem) (size fuel : ℕ) (s : S) (buf : Mem) (so_far left : ℕ)
      → size ≡ so_far + left
      → left < fuel
      → r.received s ++ bytes m so_far left ≡ peer (r.sent s)
      → ((x : ℕ) → x < so_far → u8 (buf x) ≡ u8 (m x))
      → (s' : S) × (buf' : Mem) × (recv_loop k fd size fuel s buf so_far ≡ complete (s', buf'))
        × (bytes buf' 0 size ≡ bytes m 0 size)
        × (r.sent s' ≡ r.sent s)
  unfolding recv_loop
  recv_loop-received m size zero s buf so_far left e enough answer inv = absurd (omega arith)
  recv_loop-received m size (suc fuel) s buf so_far zero e enough answer inv =
      let over : ltb so_far size ≡ false = ground arith in
      (
        s,
        buf,
        rw (recv_loop, over) refl,
        bytes_ext buf m 0 0 size (λ x h.
            ap u8 (ap buf (zero-add x)) ∙ inv x (omega arith) ∙ ap u8 (ap m (sym (zero-add x)))),
        refl,
      )
  recv_loop-received m size (suc fuel) s buf so_far (suc more) e enough answer inv =
      let on : ltb so_far size ≡ true = ground arith in
      let amount : size - so_far ≡ suc more = omega arith in
      let step =
        r.receives s (suc more) (bytes m so_far (suc more)) (omega arith)
          (omega (arith, length-bytes m so_far (suc more))) answer in
      let (len, front, behind) = bytes-split m so_far (suc more) step.got step.rest step.in_order in
      let buf1 = write_bytes buf so_far step.got in
      let cell : (x : ℕ)
          → buf1 x
            ≡ (if leb so_far x && ltb x (so_far + length step.got) then u8 (m x) else buf x) =
        λ x.
          ap (λ l. write_bytes buf so_far l x) front
          ∙ write_bytes-bytes m buf so_far (length step.got) x in
      let inv' : (x : ℕ) → x < so_far + length step.got → u8 (buf1 x) ≡ u8 (m x) =
        λ x h. ground (arith, cell x, inv x) in
      let answer' : r.received step.after ++ bytes m (so_far + length step.got) (length step.rest)
          ≡ peer (r.sent step.after) =
        cc (
          answer,
          step.in_order,
          behind,
          step.received_after,
          step.sent_after,
          append_assoc (r.received s) step.got step.rest,
        ) in
      let (s', buf', run, same, sent) =
        recv_loop-received m size fuel step.after buf1 (so_far + length step.got) (length step.rest)
          (omega arith) (omega (arith, step.some_received)) answer' inv' in
      (
        s',
        buf',
        recv_turn size fuel s step.after buf so_far (length step.got) step.got on
              (ap (k.sys_recv s fd) amount ∙ step.result)
            ∙ run,
        same,
        sent ∙ step.sent_after,
      )
