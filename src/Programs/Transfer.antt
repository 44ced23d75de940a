-- ===== src/Programs/Transfer.antt =====
-- server-client/tcp_client.c and server-client/tcp_server.c: the loops that send and receive a whole
-- buffer, which both programs have.
use anp_netskeleton.Base.{ℕ, zero, suc, ◌+◌, ◌-◌, List, [], ◌∷◌, true, false, ltb, ℤ, pos, negsuc}
use anp_netskeleton.Memory.{Mem, store8, bytes}
use anp_netskeleton.Programs.{Sockets}

-- How a loop ends: with all bytes transferred, with the code of the call that failed, or not within
-- the fuel.
pub data Transfer (A : Type 0) : Type 0 where
  complete : A → Transfer A
  failed : A → ℕ → Transfer A  -- the call returned -(n + 1)
  unfinished : Transfer A

-- The bytes that `recv` writes at an offset.
unfoldable pub write_bytes : Mem → ℕ → List ℕ → Mem
write_bytes m a [] = m
write_bytes m a (b ∷ bs) = write_bytes (store8 m a b) (a + 1) bs

module _ {S : Type 0} (k : Sockets S) (fd : ℤ) where
  -- `while (so_far < test_buffer_sz) { ret = send (...); ...; so_far += ret; }`
  unfoldable pub send_loop : Mem → ℕ → ℕ → S → ℕ → Transfer S
  send_loop buf size zero s so_far = unfinished
  send_loop buf size (suc fuel) s so_far = elim (ltb so_far size) [
    | false ↦ complete s
    | true ↦
        let (s', ret) = k.sys_send s fd (bytes buf so_far (size - so_far)) in
        elim ret [ negsuc e ↦ failed s' e | pos n ↦ send_loop buf size fuel s' (so_far + n) ]
  ]

  -- `while (so_far < test_buffer_sz) { ret = recv (...); ...; so_far += ret; }`
  unfoldable pub recv_loop : ℕ → ℕ → S → Mem → ℕ → Transfer (S × Mem)
  recv_loop size zero s buf so_far = unfinished
  recv_loop size (suc fuel) s buf so_far = elim (ltb so_far size) [
    | false ↦ complete (s, buf)
    | true ↦
        let (s', ret, got) = k.sys_recv s fd (size - so_far) in
        elim ret [
          | negsuc e ↦ failed (s', buf) e
          | pos n ↦ recv_loop size fuel s' (write_bytes buf so_far got) (so_far + n)
        ]
  ]
