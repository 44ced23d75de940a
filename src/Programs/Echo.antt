-- ===== src/Programs/Echo.antt =====
-- server-client/tcp_client.c and server-client/tcp_server.c, `run_test` of either, over a reliable
-- connection to the other.
use native.Mathlib.Nat.{add-zero}
use anp_netskeleton.Base.{
  ℕ, zero, suc, ◌-◌, ◌<◌, ◌≡◌, ◌↔◌, ap, sym, refl, ◌∙◌, List, [], ◌++◌, true, some, ltb, ℤ, pos,
  arith,
}
use anp_netskeleton.Memory.{Mem, zeroed, bytes}
use anp_netskeleton.Programs.{SockaddrIn, Sockets}
use anp_netskeleton.Programs.Pattern.{
  Verdict, ok_matched, pattern, write_pattern, match_pattern, bytes-write_pattern,
  match_pattern-write_pattern,
}
use anp_netskeleton.Programs.Transfer.{unfinished, recv_loop, write_bytes}
use anp_netskeleton.Programs.Reliable.{Reliable}
use anp_netskeleton.Programs.Reliable.Loops.{send_loop-sent, recv_loop-received}
use anp_netskeleton.Programs.Client.{
  TestEnd, returned, finish_test, receive_test, send_test, connect_test,
}
use anp_netskeleton.Programs.Client
use anp_netskeleton.Programs.Server.{ServerEnd, closed, finish_serving, echo_back, serve}
use anp_netskeleton.Programs.Server

abbrev pub all_bytes-match :
    (buf : Mem) (size : ℕ) → bytes buf 0 size ≡ pattern 0 size → match_pattern buf size ≡ ok_matched
all_bytes-match buf size e =
    (match_pattern-write_pattern buf zeroed size).1 (e ∙ sym (bytes-write_pattern zeroed size))

-- Up to the connection.
run_test-connected :
    {S : Type 0} (k : Sockets S) (fuel size fd : ℕ) (addr : SockaddrIn) (s s1 s2 s3 s4 : S)
    → k.calloc s size ≡ (s1, true)
    → k.calloc s1 size ≡ (s2, true)
    → k.sys_socket s2 ≡ (s3, pos fd)
    → k.sys_connect s3 (pos fd) addr ≡ (s4, pos 0)
    → Client.run_test k fuel size addr s ≡ send_test k fuel size (pos fd) s4
unfolding Client.run_test connect_test
run_test-connected k fuel size fd addr s s1 s2 s3 s4 a1 a2 so co =
    rw
      (
        ap (λ p. p.0) a1,
        ap (λ p. p.1) a1,
        ap (λ p. p.0) a2,
        ap (λ p. p.1) a2,
        ap (λ p. p.1) so,
        ap (λ p. p.0) so,
        ap (λ p. p.1) co,
        ap (λ p. p.0) co,
      )
      refl

-- The client's run_test returns 0 and finds that the pattern matches, if memory is there, the
-- socket is made and connected, the connection is reliable, the other side answers the pattern
-- with the pattern, and close returns 0: however send and recv split the buffer, each taking or
-- giving at least one byte. The condition on the fuel is that it is more than the size of the
-- buffer.
pub client_run_test-matches :
    {S : Type 0} (k : Sockets S) (fuel size fd : ℕ) (addr : SockaddrIn) (s s1 s2 s3 s4 : S)
    (peer : List ℕ → List ℕ)
    → size < fuel
    → k.calloc s size ≡ (s1, true)
    → k.calloc s1 size ≡ (s2, true)
    → k.sys_socket s2 ≡ (s3, pos fd)
    → k.sys_connect s3 (pos fd) addr ≡ (s4, pos 0)
    → (r : Reliable k (pos fd) peer) → r.sent s4 ≡ []
    → r.received s4 ≡ []
    → peer (pattern 0 size) ≡ pattern 0 size
    → ((t : S) → (k.sys_close t (pos fd)).1 ≡ pos 0)
    → (s' : S) × (Client.run_test k fuel size addr s ≡ returned s' (pos 0) (some ok_matched))
unfolding send_test receive_test finish_test
client_run_test-matches k fuel size fd addr s s1 s2 s3 s4 peer enough a1 a2 so co r nothing_sent
      nothing_received echo closes =
    let tx = write_pattern zeroed size in
    let (s5, run5, sent5, received5) =
      send_loop-sent k (pos fd) peer r tx size fuel s4 0 size (omega arith) enough in
    let sent : r.sent s5 ≡ pattern 0 size =
      sent5 ∙ ap (λ l. l ++ bytes tx 0 size) nothing_sent ∙ bytes-write_pattern zeroed size in
    let answer : r.received s5 ++ bytes tx 0 size ≡ peer (r.sent s5) =
      ap (λ l. l ++ bytes tx 0 size) (received5 ∙ nothing_received)
      ∙ bytes-write_pattern zeroed size
      ∙ sym echo
      ∙ ap peer (sym sent) in
    let (s6, rx, run6, same, sent6) =
      recv_loop-received k (pos fd) peer r tx size fuel s5 zeroed 0 size (omega arith) enough answer
        (λ x h. absurd (omega arith)) in
    let matched : match_pattern rx size ≡ ok_matched =
      all_bytes-match rx size (same ∙ bytes-write_pattern zeroed size) in
    (
      (k.sys_close s6 (pos fd)).0,
      run_test-connected k fuel size fd addr s s1 s2 s3 s4 a1 a2 so co
          ∙ rw (send_test, run5, receive_test, run6, finish_test, closes s6, matched) refl,
    )

-- The server's run_test, on a reliable connection on which a request of the size of the buffer
-- arrives, has sent back the bytes of the request, in order, before it waits for the client's
-- close and closes; and it reports a match just where the request is the pattern. The conditions
-- are that memory is there, that close returns 0, and that the fuel is more than the size of the
-- buffer.
pub server_run_test-echoes :
    {S : Type 0} (k : Sockets S) (fuel size : ℕ) (fd : ℤ) (s s1 : S) (m : Mem)
    (peer : List ℕ → List ℕ)
    → size < fuel
    → k.calloc s size ≡ (s1, true)
    → (r : Reliable k fd peer) → r.sent s1 ≡ []
    → r.received s1 ≡ []
    → peer [] ≡ bytes m 0 size
    → ((t : S) → (k.sys_close t fd).1 ≡ pos 0)
    → (s' : S) × (verdict : Verdict) × (Server.run_test k fuel size fd s
        ≡ closed ((k.sys_close ((k.sys_recv s' fd size).0) fd).0) verdict)
      × (r.sent s' ≡ bytes m 0 size)
      × ((verdict ≡ ok_matched) ↔ (bytes m 0 size ≡ pattern 0 size))
unfolding Server.run_test serve echo_back finish_serving
server_run_test-echoes k fuel size fd s s1 m peer enough a1 r nothing_sent nothing_received request
      closes =
    let answer : r.received s1 ++ bytes m 0 size ≡ peer (r.sent s1) =
      ap (λ l. l ++ bytes m 0 size) nothing_received ∙ sym request ∙ ap peer (sym nothing_sent) in
    let (s2, buf, run2, same, sent2) =
      recv_loop-received k fd peer r m size fuel s1 zeroed 0 size (omega arith) enough answer
        (λ x h. absurd (omega arith)) in
    let (s3, run3, sent3, received3) =
      send_loop-sent k fd peer r buf size fuel s2 0 size (omega arith) enough in
    let iff = match_pattern-write_pattern buf zeroed size in
    (
      s3,
      match_pattern buf size,
      rw
          (
            ap (λ p. p.0) a1,
            ap (λ p. p.1) a1,
            serve,
            run2,
            echo_back,
            run3,
            finish_serving,
            closes ((k.sys_recv s3 fd size).0),
          )
          refl,
      cc (sent3, sent2, nothing_sent, same),
      (
        λ e. sym same ∙ iff.0 e ∙ bytes-write_pattern zeroed size,
        λ e. all_bytes-match buf size (same ∙ e),
      ),
    )

-- At the end of the stream, where recv returns 0, the receive loop of the test programs never
-- ends: with a byte missing, no fuel is enough.
pub recv_loop-eof :
    {S : Type 0} (k : Sockets S) (fd : ℤ) (size fuel : ℕ) (s : S) (buf : Mem) (so_far : ℕ)
    → so_far < size
    → ((room : ℕ) → k.sys_recv s fd room ≡ (s, pos 0, []))
    → recv_loop k fd size fuel s buf so_far ≡ unfinished
unfolding recv_loop write_bytes
recv_loop-eof k fd size zero s buf so_far more eof = refl
recv_loop-eof k fd size (suc fuel) s buf so_far more eof =
    let on : ltb so_far size ≡ true = ground arith in
    let e = eof (size - so_far) in
    rw (recv_loop, on, ap (λ r. r.1) e, ap (λ r. r.2) e, ap (λ r. r.0) e, add-zero so_far)
      (recv_loop-eof k fd size fuel s buf so_far more eof)
