-- ===== src/Programs/Client.antt =====
-- server-client/tcp_client.c: the test itself, and the thread that runs it.
use anp_netskeleton.Base.{
  int_is_zero, is_negative, minus, ℕ, zero, suc, Option, none, some, if◌then◌else◌, ℤ, pos, negsuc,
}
use anp_netskeleton.Memory.{Mem, zeroed}
use anp_netskeleton.Programs.{SockaddrIn, Sockets}
use anp_netskeleton.Programs.Pattern.{Verdict, write_pattern, match_pattern}
use anp_netskeleton.Programs.Transfer.{complete, failed, unfinished, send_loop, recv_loop}

abbrev pub small_buf : ℕ
small_buf = 4096

abbrev pub medium_buf : ℕ
medium_buf = 131072

abbrev pub large_buf : ℕ
large_buf = 1048576

-- What `run_test` returns, and the result of the pattern match where it prints one.
pub data TestEnd (S : Type 0) : Type 0 where
  returned : S → ℤ → Option Verdict → TestEnd S
  endless : TestEnd S  -- not within the fuel

module _ {S : Type 0} (k : Sockets S) (fuel : ℕ) (size : ℕ) where
  -- The socket is closed.
  unfoldable pub finish_test : ℤ → S → Mem → TestEnd S
  finish_test fd s rx =
      let (s', ret) = k.sys_close s fd in returned s' ret (some (match_pattern rx size))

  -- The buffer comes back.
  unfoldable pub receive_test : ℤ → S → TestEnd S
  receive_test fd s = elim (recv_loop k fd size fuel s zeroed 0) [
    | unfinished ↦ endless
    | failed (s', _) e ↦ returned s' (negsuc e) none
    | complete (s', rx) ↦ finish_test fd s' rx
  ]

  -- The buffer is sent.
  unfoldable pub send_test : ℤ → S → TestEnd S
  send_test fd s = elim (send_loop k fd (write_pattern zeroed size) size fuel s 0) [
    | unfinished ↦ endless
    | failed s' e ↦ returned s' (negsuc e) none
    | complete s' ↦ receive_test fd s'
  ]

  unfoldable pub connect_test : SockaddrIn → S → TestEnd S
  connect_test server_addr s =
      let (s', fd) = k.sys_socket s in
      if is_negative fd
      then returned s' (minus (pos (k.errno s'))) none
      else (let (s'', ret) = k.sys_connect s' fd server_addr in
          if int_is_zero ret
          then send_test fd s''
          else returned s'' (minus (pos (k.errno s''))) none)

  -- -ENOMEM where there is no memory for a buffer.
  unfoldable pub run_test : SockaddrIn → S → TestEnd S
  run_test server_addr s =
      let (s1, tx_ok) = k.calloc s size in
      let (s2, rx_ok) = k.calloc s1 size in
      if tx_ok
      then (if rx_ok then connect_test server_addr s2 else returned s2 (negsuc 11) none)
      else returned s1 (negsuc 11) none

-- The buffer that a configuration stands for.
unfoldable pub buffer_size : ℤ → Option ℕ
buffer_size (pos (suc zero)) = some small_buf
buffer_size (pos (suc (suc zero))) = some medium_buf
buffer_size (pos (suc (suc (suc zero)))) = some large_buf
buffer_size _ = none

pub data ThreadEnd (S : Type 0) : Type 0 where
  thread_returned : S → ThreadEnd S
  assertion_failed : S → ThreadEnd S
  exited : ThreadEnd S  -- with -1
  running : ThreadEnd S  -- not within the fuel

unfoldable pub check_ret : {S : Type 0} → TestEnd S → ThreadEnd S
check_ret (returned s ret _) = if int_is_zero ret then thread_returned s else assertion_failed s
check_ret endless = running

unfoldable pub thread_func : {S : Type 0} → Sockets S → ℕ → ℤ → SockaddrIn → S → ThreadEnd S
thread_func k fuel config server_addr s = elim (buffer_size config) [
  | none ↦ exited
  | some size ↦ check_ret (run_test k fuel size server_addr s)
]
