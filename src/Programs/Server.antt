-- ===== src/Programs/Server.antt =====
-- server-client/tcp_server.c: the thread that serves one connection.
use anp_netskeleton.Base.{int_is_zero, ℕ, if◌then◌else◌, ℤ}
use anp_netskeleton.Memory.{Mem, zeroed}
use anp_netskeleton.Programs.{Sockets}
use anp_netskeleton.Programs.Pattern.{Verdict, match_pattern}
use anp_netskeleton.Programs.Transfer.{complete, failed, unfinished, send_loop, recv_loop}

-- Where the function, which returns NULL everywhere, does so. The verdict is printed.
pub data ServerEnd (S : Type 0) : Type 0 where
  no_memory : S → ServerEnd S
  recv_failed : S → ServerEnd S
  send_failed : S → ServerEnd S
  unclean : S → Verdict → ServerEnd S
  closed : S → Verdict → ServerEnd S
  waiting : ServerEnd S  -- not within the fuel

module _ {S : Type 0} (k : Sockets S) (fuel : ℕ) (size : ℕ) (fd : ℤ) where
  -- It waits for the client to close, and closes.
  unfoldable pub finish_serving : S → Mem → ServerEnd S
  finish_serving s buf =
      let (s1, _, _) = k.sys_recv s fd size in
      let (s2, ret) = k.sys_close s1 fd in
      let verdict = match_pattern buf size in
      if int_is_zero ret then closed s2 verdict else unclean s2 verdict

  unfoldable pub echo_back : S → Mem → ServerEnd S
  echo_back s buf = elim (send_loop k fd buf size fuel s 0) [
    | unfinished ↦ waiting
    | failed s' _ ↦ send_failed s'
    | complete s' ↦ finish_serving s' buf
  ]

  unfoldable pub serve : S → ServerEnd S
  serve s = elim (recv_loop k fd size fuel s zeroed 0) [
    | unfinished ↦ waiting
    | failed (s', _) _ ↦ recv_failed s'
    | complete (s', buf) ↦ echo_back s' buf
  ]

  unfoldable pub run_test : S → ServerEnd S
  run_test s = let (s', ok) = k.calloc s size in if ok then serve s' else no_memory s'
