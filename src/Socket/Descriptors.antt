-- ===== src/Socket/Descriptors.antt =====
-- src/anpwrapper.c, `socket` and `get_next_fd`: the descriptors that are handed out.
use anp_netskeleton.Base.{
  ℕ, zero, suc, ◌+◌, ◌-◌, ◌<◌, ◌≤◌, ◌≡◌, ◌≢◌, ◌∙◌, sym, ap, refl, Bool, true, false, Bool-cases,
  inl, inr, none, some, List, [], ◌∷◌, ◌++◌, All, All-append, ◌==◌, update, arith,
}
use anp_netskeleton.World.{AnpSocket, World, get_anp_socket}
use anp_netskeleton.Socket.{
  failed, returns, socket, get_next_fd, find_free_fd, is_socket_supported, fd_start_val, fd_max_val,
  enomem, emfile,
}

-- The first descriptor that is free, if one of the `n` from `fd` on is.
data Search (in_use : ℕ → Bool) (n fd : ℕ) : Type 0 where
  full :
      find_free_fd in_use n fd ≡ none
      → ((i : ℕ) → fd ≤ i → i < fd + n → in_use i ≡ true)
      → Search in_use n fd
  free :
      (i : ℕ)
      → find_free_fd in_use n fd ≡ some i
      → fd ≤ i
      → i < fd + n
      → in_use i ≡ false
      → ((j : ℕ) → fd ≤ j → j < i → in_use j ≡ true)
      → Search in_use n fd

also_first :
    (in_use : ℕ → Bool) (fd end_ : ℕ)
    → in_use fd ≡ true
    → ((i : ℕ) → fd + 1 ≤ i → i < end_ → in_use i ≡ true)
    → (i : ℕ) → fd ≤ i
    → i < end_
    → in_use i ≡ true
also_first in_use fd end_ used all i low high = elim (Bool-cases (i == fd)) [
  | inl same ↦ (let e : i ≡ fd = ground arith in rw e used)
  | inr other ↦ all i (ground arith) high
]

find_free_fd-Search : (in_use : ℕ → Bool) (n fd : ℕ) → Search in_use n fd
unfolding find_free_fd
find_free_fd-Search in_use zero fd = full refl (λ i low high. ground arith)
find_free_fd-Search in_use (suc n) fd = elim (Bool-cases (in_use fd)) [
  | inr unused ↦
      free fd (rw unused refl) (omega arith) (omega arith) unused (λ j low high. ground arith)
  | inl used ↦ elim (find_free_fd-Search in_use n (fd + 1)) [
    | full e all ↦
        full (rw used e) (also_first in_use fd (fd + suc n) used (λ i l h. all i l (omega arith)))
    | free i e low high unused first ↦
        free i (rw used e) (omega arith) (omega arith) unused (also_first in_use fd i used first)
  ]
]

-- The descriptor of every socket in the list is in use.
abbrev pub FdsUsed : World → Type 0
FdsUsed w = All (λ sock. w.fd_in_use sock.fd ≡ true) w.sockets

-- A new socket `fd` in `w'`: the smallest descriptor that was free, found under its number, with every
-- other descriptor and lookup as before.
pub record Allocated (w w' : World) (fd domain sock_type protocol : ℕ) : Type 0 where
  pub low : fd_start_val ≤ fd
  pub high : fd < fd_max_val
  pub was_free : w.fd_in_use fd ≡ false
  pub first : (j : ℕ) → fd_start_val ≤ j → j < fd → w.fd_in_use j ≡ true
  pub others : (j : ℕ) → j ≢ fd → w'.fd_in_use j ≡ w.fd_in_use j
  pub found :
      get_anp_socket w'.sockets fd
      ≡ some (record {
        fd = fd;
        sock_type = sock_type;
        protocol = protocol;
        domain = domain;
        conn_info = 0;
      })
  pub lookups : (j : ℕ) → j ≢ fd → get_anp_socket w'.sockets j ≡ get_anp_socket w.sockets j
  pub used : FdsUsed w'

-- How `socket` ends for a stream socket of the Internet family.
pub data SocketOutcome (w : World) (domain sock_type protocol : ℕ) : Type 0 where
  no_memory :
      w.room ≡ 0
      → socket w domain sock_type protocol ≡ failed (record w { errno = enomem })
      → SocketOutcome w domain sock_type protocol
  no_descriptor :
      ((i : ℕ) → fd_start_val ≤ i → i < fd_max_val → w.fd_in_use i ≡ true)
      → socket w domain sock_type protocol ≡ failed (record w { room = w.room - 1; errno = emfile })
      → SocketOutcome w domain sock_type protocol
  allocated :
      (fd : ℕ) (w' : World)
      → socket w domain sock_type protocol ≡ returns fd [] w'
      → Allocated w w' fd domain sock_type protocol
      → SocketOutcome w domain sock_type protocol

-- A socket put at the end is found there, if no other has its descriptor.
last-found :
    (used : ℕ → Bool) (socks : List AnpSocket) (sock : AnpSocket)
    → All (λ s. used s.fd ≡ true) socks
    → used sock.fd ≡ false
    → get_anp_socket (socks ++ (sock ∷ [])) sock.fd ≡ some sock
unfolding get_anp_socket
last-found used [] sock h unused = ground arith
last-found used (s ∷ rest) sock (h, hs) unused =
    let ih = last-found used rest sock hs unused in
    elim (Bool-cases (s.fd == sock.fd)) [
      | inl same ↦ elim (true_not_false (used_twice used s.fd sock.fd (ground arith) h unused)) [ ]
      | inr other ↦ rw other ih
    ]
  where
    used_twice : (used : ℕ → Bool) (a b : ℕ) → a ≡ b → used a ≡ true → used b ≡ false → true ≡ false
    used_twice used a b e h k = sym h ∙ ap used e ∙ k

    true_not_false : true ≢ false
    true_not_false e = ground (arith, e)

last-passed :
    (socks : List AnpSocket) (sock : AnpSocket) (j : ℕ)
    → j ≢ sock.fd
    → get_anp_socket (socks ++ (sock ∷ [])) j ≡ get_anp_socket socks j
unfolding get_anp_socket
last-passed [] sock j other = ground arith
last-passed (s ∷ rest) sock j other = rw (last-passed rest sock j other) refl

still_used :
    (used : ℕ → Bool) (fd : ℕ) (socks : List AnpSocket)
    → All (λ s. used s.fd ≡ true) socks
    → All (λ s. update used fd true s.fd ≡ true) socks
still_used used fd [] h = tt
still_used used fd (s ∷ rest) (h, hs) = (ground arith, still_used used fd rest hs)

socket_taken :
    (w : World) (domain sock_type protocol fd : ℕ)
    → is_socket_supported domain sock_type protocol ≡ true
    → w.room ≢ 0
    → find_free_fd w.fd_in_use (fd_max_val - fd_start_val) fd_start_val ≡ some fd
    → socket w domain sock_type protocol
      ≡ returns fd [] (record w {
        room = w.room - 1;
        fd_in_use = update w.fd_in_use fd true;
        sockets =
            w.sockets
            ++ (record {
              fd = fd;
              sock_type = sock_type;
              protocol = protocol;
              domain = domain;
              conn_info = 0;
            }
                ∷ []);
      })
unfolding socket get_next_fd
socket_taken w domain sock_type protocol fd ok some_ e =
    let room : (w.room == 0) ≡ false = ground arith in rw (ok, room, e) refl

socket_full :
    (w : World) (domain sock_type protocol : ℕ)
    → is_socket_supported domain sock_type protocol ≡ true
    → w.room ≢ 0
    → find_free_fd w.fd_in_use (fd_max_val - fd_start_val) fd_start_val ≡ none
    → socket w domain sock_type protocol ≡ failed (record w { room = w.room - 1; errno = emfile })
unfolding socket get_next_fd
socket_full w domain sock_type protocol ok some_ e =
    let room : (w.room == 0) ≡ false = ground arith in rw (ok, room, e) refl

socket_no_memory :
    (w : World) (domain sock_type protocol : ℕ)
    → is_socket_supported domain sock_type protocol ≡ true
    → w.room ≡ 0
    → socket w domain sock_type protocol ≡ failed (record w { errno = enomem })
unfolding socket
socket_no_memory w domain sock_type protocol ok none_left = rw (ok, none_left) refl

-- A call of `socket` for a stream socket of the Internet family ends in one of three ways: there is no
-- memory; every descriptor is in use; or the smallest free descriptor is handed out, for a new socket
-- that is found under it, with every other descriptor and every other lookup as before, and the
-- descriptors of all sockets in use. The condition is that the descriptors of all sockets are in use.
pub socket-outcome :
    (w : World) (domain sock_type protocol : ℕ)
    → is_socket_supported domain sock_type protocol ≡ true
    → FdsUsed w
    → SocketOutcome w domain sock_type protocol
socket-outcome w domain sock_type protocol ok used = elim (Bool-cases (w.room == 0)) [
  | inl none_left ↦
      no_memory (ground arith) (socket_no_memory w domain sock_type protocol ok (ground arith))
  | inr some_ ↦ elim (find_free_fd-Search w.fd_in_use (fd_max_val - fd_start_val) fd_start_val) [
    | full e all ↦ no_descriptor all (socket_full w domain sock_type protocol ok (ground arith) e)
    | free fd e low high unused first ↦
        allocated fd _ (socket_taken w domain sock_type protocol fd ok (ground arith) e) (record {
          low = low;
          high = high;
          was_free = unused;
          first = first;
          others = λ j other. ground arith;
          found = last-found w.fd_in_use w.sockets _ used unused;
          lookups = λ j other. last-passed w.sockets _ j other;
          used =
              All-append (λ s. update w.fd_in_use fd true s.fd ≡ true) w.sockets _
                (still_used w.fd_in_use fd w.sockets used) (ground arith, tt);
        })
  ]
]
