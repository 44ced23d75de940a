-- ===== src/Programs/Reliable.antt =====
-- server-client/: what the two programs rely on in a connected socket.
pub mod Loops
use mathlib.Core.List.{append_assoc, append-nil}
use native.Mathlib.Nat.{zero-add}
use anp_netskeleton.Base.{
  ℕ, zero, suc, ◌+◌, ◌-◌, ◌<◌, ◌≤◌, ◌≡◌, ap, sym, refl, ◌∙◌, List, [], ◌∷◌, ◌++◌, length, true,
  false, ◌&&◌, if◌then◌else◌, ltb, leb, ℤ, pos, u8, arith,
}
use anp_netskeleton.Memory.{Mem, store8, bytes}
use anp_netskeleton.Memory.Laws.{bytes-append, bytes_ext}
use anp_netskeleton.Programs.{Sockets}
use anp_netskeleton.Programs.Transfer.{complete, write_bytes, send_loop, recv_loop}

abbrev pub take : ℕ → List ℕ → List ℕ
take zero xs = []
take (suc n) [] = []
take (suc n) (x ∷ xs) = x ∷ take n xs

-- How `send` has gone on `s`: it took at least one of the bytes, and perhaps not all.
pub record SendStep {S : Type 0} (k : Sockets S) (sent received : S → List ℕ) (fd : ℤ) (s : S)
    (bs : List ℕ) : Type 0 where
  pub after : S
  pub count : ℕ
  pub result : k.sys_send s fd bs ≡ (after, pos count)
  pub some_sent : 0 < count
  pub not_more : count ≤ length bs
  pub sent_after : sent after ≡ sent s ++ take count bs
  pub received_after : received after ≡ received s

-- How `recv` has gone on `s` where the bytes `waiting` are there: it gave some of them in order, and
-- perhaps not all.
pub record RecvStep {S : Type 0} (k : Sockets S) (sent received : S → List ℕ) (fd : ℤ) (s : S)
    (room : ℕ) (waiting : List ℕ) : Type 0 where
  pub after : S
  pub got : List ℕ
  pub rest : List ℕ
  pub result : k.sys_recv s fd room ≡ (after, pos (length got), got)
  pub some_received : 0 < length got
  pub not_more : length got ≤ room
  pub in_order : waiting ≡ got ++ rest
  pub sent_after : sent after ≡ sent s
  pub received_after : received after ≡ received s ++ got

-- A connected stream socket `fd`. The bytes sent and received so far are functions of the state, and
-- the other side answers to what has been sent to it with the bytes `peer` of that.
pub record Reliable {S : Type 0} (k : Sockets S) (fd : ℤ) (peer : List ℕ → List ℕ) : Type 0 where
  pub sent : S → List ℕ
  pub received : S → List ℕ
  pub sends : (s : S) (bs : List ℕ) → 0 < length bs → SendStep k sent received fd s bs
  pub receives :
      (s : S) (room : ℕ) (waiting : List ℕ)
      → 0 < room
      → 0 < length waiting
      → received s ++ waiting ≡ peer (sent s)
      → RecvStep k sent received fd s room waiting
