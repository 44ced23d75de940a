-- ===== src/Programs/Main.antt =====
-- server-client/tcp_client.c and server-client/tcp_server.c, `main` after the command line: the threads.
use anp_netskeleton.Base.{
  int_is_zero, is_negative, minus, ℕ, zero, suc, ◌+◌, ◌≡◌, refl, All, All-append, List, [], ◌∷◌,
  ◌++◌, length, length-append, ◌⊎◌, inl, inr, Bool-cases, Option-cases, none, some, Bool, true,
  false, if◌then◌else◌, ℤ, pos, negsuc, arith,
}
use anp_netskeleton.Programs.Options.{Settings}
use anp_netskeleton.Programs.{SockaddrIn}
use anp_netskeleton.Programs.Client.{buffer_size}

-- How often `for (i = 0; i < n; i++)` turns, for an `int`.
abbrev pub turns : ℤ → ℕ
turns (pos n) = n
turns (negsuc _) = 0

-- The arguments of the client's threads, which all have the same.
pub record ClientArgs : Type 0 where
  pub config : ℤ
  pub server_addr : SockaddrIn

abbrev pub repeat : {A : Type 0} → ℕ → A → List A
repeat zero a = []
repeat (suc n) a = a ∷ repeat n a

unfoldable pub client_threads : Settings → List ClientArgs
client_threads s =
    repeat (turns s.num_threads) (record { config = s.config; server_addr = s.server_addr })

-- The calls of the server, on a state `S` of the outside world.
pub record ListenCalls (S : Type 0) : Type 0 where
  pub sys_socket : S → S × ℤ
  pub setsockopt : S → ℤ → S × ℤ
  pub bind : S → ℤ → SockaddrIn → S × ℤ
  pub listen : S → ℤ → ℤ → S × ℤ
  pub accept : S → ℤ → S × ℤ
  pub sys_close : S → ℤ → S × ℤ
  pub errno : S → ℕ

-- `struct thread_args`, without the client's address, which is only printed.
pub record ServerArgs : Type 0 where
  pub client_fd : ℤ
  pub test_buffer_sz : ℕ

-- `main` ends, with the threads it has made, by a return or an exit.
pub data MainEnd (S : Type 0) : Type 0 where
  main_returned : S → ℤ → List ServerArgs → MainEnd S
  main_exited : S → ℤ → List ServerArgs → MainEnd S

module _ {S : Type 0} (k : ListenCalls S) (settings : Settings) where
  -- `while (connections < num_threads)`, with the number of connections that are left.
  unfoldable pub accept_loop : ℤ → ℕ → S → List ServerArgs → MainEnd S
  accept_loop listen_fd zero s threads =
      let (s', _) = k.sys_close s listen_fd in main_returned s' (pos 0) threads
  accept_loop listen_fd (suc left) s threads = elim (buffer_size settings.config) [
    | none ↦ main_exited s (negsuc 0) threads
    | some size ↦
        let (s', fd) = k.accept s listen_fd in
        let rest =
          accept_loop listen_fd left s'
            (threads ++ (record { client_fd = fd; test_buffer_sz = size } ∷ [])) in
        if is_negative fd then main_exited s' (minus (pos (k.errno s'))) threads else rest
  ]

  unfoldable pub listen_main : ℤ → S → MainEnd S
  listen_main listen_fd s =
      let (s', ret) = k.listen s listen_fd settings.num_threads in
      if int_is_zero ret
      then accept_loop listen_fd (turns settings.num_threads) s' []
      else main_exited s' (minus (pos (k.errno s'))) []

  unfoldable pub bind_main : ℤ → S → MainEnd S
  bind_main listen_fd s =
      let (s1, _) = k.setsockopt s listen_fd in
      let (s2, ret) = k.bind s1 listen_fd settings.server_addr in
      if int_is_zero ret
      then listen_main listen_fd s2
      else main_exited s2 (minus (pos (k.errno s2))) []

  abbrev is_minus_one : ℤ → Bool
  is_minus_one (negsuc zero) = true
  is_minus_one _ = false

  unfoldable pub server_main : S → MainEnd S
  server_main s =
      let (s', listen_fd) = k.sys_socket s in
      if is_minus_one listen_fd
      then main_returned s' (minus (pos (k.errno s'))) []
      else bind_main listen_fd s'

  -- Every thread made serves a connection with the buffer of the configuration, and where `main`
  -- returns from its loop there is one for each connection that was asked for.
  abbrev pub Sized : ServerArgs → Type 0
  Sized t =
      (buffer_size settings.config ≡ some t.test_buffer_sz) × (is_negative t.client_fd ≡ false)

  abbrev pub Dispatched : MainEnd S → Type 0
  Dispatched (main_exited _ _ threads) = All Sized threads
  Dispatched (main_returned _ ret threads) =
      All Sized threads
      × (((ret ≡ pos 0) × (length threads ≡ turns settings.num_threads)) ⊎ (threads ≡ []))

  accept_loop-Dispatched :
      (listen_fd : ℤ) (left : ℕ) (s : S) (threads : List ServerArgs)
      → All Sized threads
      → length threads + left ≡ turns settings.num_threads
      → Dispatched (accept_loop listen_fd left s threads)
  unfolding accept_loop
  accept_loop-Dispatched listen_fd zero s threads sized count =
      (sized, inl (refl, omega (arith, count)))
  accept_loop-Dispatched listen_fd (suc left) s threads sized count =
      elim (Option-cases (buffer_size settings.config)) [
        | inl no_size ↦ rw (accept_loop, no_size) sized
        | inr (size, is_size) ↦
            let fd = (k.accept s listen_fd).1 in
            let t : ServerArgs = record { client_fd = fd; test_buffer_sz = size } in
            elim (Bool-cases (is_negative fd)) [
              | inl bad ↦ rw (accept_loop, is_size, bad) sized
              | inr good ↦
                  let rest =
                    accept_loop-Dispatched listen_fd left ((k.accept s listen_fd).0)
                      (threads ++ (t ∷ []))
                      (All-append Sized threads (t ∷ []) sized ((is_size, good), tt))
                      (omega (arith, count, length-append threads (t ∷ []))) in
                  rw (accept_loop, is_size, good) rest
            ]
      ]

  listen_main-Dispatched : (listen_fd : ℤ) (s : S) → Dispatched (listen_main listen_fd s)
  unfolding listen_main
  listen_main-Dispatched listen_fd s =
      let (s', ret) = k.listen s listen_fd settings.num_threads in
      elim (Bool-cases (int_is_zero ret)) [
        | inl holds ↦
            rw (listen_main, holds)
              (accept_loop-Dispatched listen_fd (turns settings.num_threads) s' [] tt (omega arith))
        | inr fails ↦ rw (listen_main, fails) tt
      ]

  bind_main-Dispatched : (listen_fd : ℤ) (s : S) → Dispatched (bind_main listen_fd s)
  unfolding bind_main
  bind_main-Dispatched listen_fd s =
      let (s1, _) = k.setsockopt s listen_fd in
      let (s2, ret) = k.bind s1 listen_fd settings.server_addr in
      elim (Bool-cases (int_is_zero ret)) [
        | inl holds ↦ rw (bind_main, holds) (listen_main-Dispatched listen_fd s2)
        | inr fails ↦ rw (bind_main, fails) tt
      ]

  -- Wherever the server's main ends, every thread that it has made serves an accepted connection
  -- with the buffer size of the configuration; and where it returns, it returns 0 with one thread
  -- for each connection that was asked for, or has made none.
  pub server_main-Dispatched : (s : S) → Dispatched (server_main s)
  unfolding server_main
  server_main-Dispatched s =
      let (s', listen_fd) = k.sys_socket s in
      elim (Bool-cases (is_minus_one listen_fd)) [
        | inl holds ↦ rw (server_main, holds) (tt, inr refl)
        | inr fails ↦ rw (server_main, fails) (bind_main-Dispatched listen_fd s')
      ]
