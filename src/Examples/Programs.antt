-- ===== src/Examples/Programs.antt =====
-- The theorems on the test programs and on the start of the stack, applied to a loopback connection and
-- to a shell whose second command fails.
use anp_netskeleton.Base.{
  ℕ, ◌+◌, ◌<◌, ◌≡◌, ◌↔◌, ◌∙◌, ap, sym, refl, true, some, List, [], ◌∷◌, ◌++◌, length, ℤ, pos, arith,
}
use anp_netskeleton.Memory.{zeroed, bytes}
use anp_netskeleton.Programs.{SockaddrIn, Sockets}
use anp_netskeleton.Programs.Pattern.{
  Verdict, ok_matched, pattern, write_pattern, match_pattern, match_pattern-write_pattern,
}
use anp_netskeleton.Programs.Transfer.{unfinished, recv_loop}
use anp_netskeleton.Programs.Reliable.{Reliable, RecvStep, take}
use anp_netskeleton.Programs.Client.{returned}
use anp_netskeleton.Programs.Client
use anp_netskeleton.Programs.Server.{closed}
use anp_netskeleton.Programs.Server
use anp_netskeleton.Programs.Echo.{client_run_test-matches, server_run_test-echoes, recv_loop-eof}

-- The bytes sent and received on a connection. `send` takes all, and `recv` gives one byte.
abbrev Link : Type 0
Link = List ℕ × List ℕ

-- What is behind a part that has been received.
abbrev behind : List ℕ → List ℕ → List ℕ
behind [] ys = ys
behind (x ∷ xs) [] = []
behind (x ∷ xs) (y ∷ ys) = behind xs ys

behind-append : (xs ys : List ℕ) → behind xs (xs ++ ys) ≡ ys
behind-append [] ys = refl
behind-append (x ∷ xs) ys = behind-append xs ys

abbrev give_one : Link → List ℕ → Link × ℤ × List ℕ
give_one s [] = (s, pos 0, [])
give_one (sent, received) (b ∷ rest) = ((sent, received ++ (b ∷ [])), pos 1, b ∷ [])

module _ (peer : List ℕ → List ℕ) where
  abbrev loopback : Sockets Link
  loopback = record {
    calloc = λ s n. (s, true);
    sys_socket = λ s. (s, pos 3);
    sys_connect = λ s fd addr. (s, pos 0);
    sys_send = λ s fd bs. ((s.0 ++ bs, s.1), pos (length bs));
    sys_recv = λ s fd room. give_one s (behind s.1 (peer s.0));
    sys_close = λ s fd. (s, pos 0);
    errno = λ s. 0;
  }

  take-length : (bs : List ℕ) → take (length bs) bs ≡ bs
  take-length [] = refl
  take-length (b ∷ bs) = ap (λ l. b ∷ l) (take-length bs)

  loopback-receives :
      (fd : ℤ) (s : Link) (room : ℕ) (waiting : List ℕ)
      → 0 < room
      → 0 < length waiting
      → s.1 ++ waiting ≡ peer s.0
      → RecvStep loopback (λ t. t.0) (λ t. t.1) fd s room waiting
  loopback-receives fd s room [] space more e = absurd (omega arith)
  loopback-receives fd s room (b ∷ rest) space more e = record {
    after = (s.0, s.1 ++ (b ∷ []));
    got = b ∷ [];
    rest = rest;
    result =
        ap (λ l. give_one s (behind s.1 l)) (sym e)
        ∙ ap (give_one s) (behind-append s.1 (b ∷ rest));
    some_received = omega arith;
    not_more = space;
    in_order = refl;
    sent_after = refl;
    received_after = refl;
  }

  abbrev loopback-Reliable : (fd : ℤ) → Reliable loopback fd peer
  loopback-Reliable fd = record {
    sent = λ s. s.0;
    received = λ s. s.1;
    sends = λ s bs more. record {
      after = (s.0 ++ bs, s.1);
      count = length bs;
      result = refl;
      some_sent = more;
      not_more = omega arith;
      sent_after = ap (λ l. s.0 ++ l) (sym (take-length bs));
      received_after = refl;
    };
    receives = loopback-receives fd;
  }

match_pattern-write_pattern_example :
    (match_pattern zeroed 3 ≡ ok_matched) ↔ (bytes zeroed 0 3 ≡ bytes (write_pattern zeroed 3) 0 3)
match_pattern-write_pattern_example = match_pattern-write_pattern zeroed zeroed 3

abbrev server : SockaddrIn
server = record { sin_family = 2; sin_port = 0xcba8; sin_addr = 0x0500000a }

-- The peer of a client sends back what it has received; that of a server sends the request.
client_run_test-matches_example :
    (s' : Link) × (Client.run_test (loopback (λ bs. bs)) 5 4 server ([], [])
      ≡ returned s' (pos 0) (some ok_matched))
client_run_test-matches_example =
    client_run_test-matches (loopback (λ bs. bs)) 5 4 3 server ([], []) ([], []) ([], []) ([], [])
      ([], []) (λ bs. bs) (omega arith) refl refl refl refl (loopback-Reliable (λ bs. bs) (pos 3))
      refl refl refl (λ t. refl)

abbrev request : List ℕ → List ℕ
request _ = bytes (λ i. 7 + i) 0 4

server_run_test-echoes_example :
    (s' : Link) × (verdict : Verdict) × (Server.run_test (loopback request) 5 4 (pos 9) ([], [])
      ≡ closed
          ((loopback request).sys_close (((loopback request).sys_recv s' (pos 9) 4).0) (pos 9)).0
          verdict)
    × (s'.0 ≡ bytes (λ i. 7 + i) 0 4)
    × ((verdict ≡ ok_matched) ↔ (bytes (λ i. 7 + i) 0 4 ≡ pattern 0 4))
server_run_test-echoes_example =
    server_run_test-echoes (loopback request) 5 4 (pos 9) ([], []) ([], []) (λ i. 7 + i) request
      (omega arith) refl (loopback-Reliable request (pos 9)) refl refl refl (λ t. refl)

-- A peer that has closed without a byte.
abbrev silent : List ℕ → List ℕ
silent _ = []

recv_loop-eof_example : recv_loop (loopback silent) (pos 3) 4 100 ([], []) zeroed 0 ≡ unfinished
recv_loop-eof_example =
    recv_loop-eof (loopback silent) (pos 3) 4 100 ([], []) zeroed 0 (omega arith) (λ room. refl)
