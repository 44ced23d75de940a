-- ===== src/Programs.antt =====
-- server-client/: the two test programs. What they call of the C library and of the kernel (or of the
-- library preloaded in their place) is the interface `Sockets`. Buffers are values; `free`, `sleep` and
-- `printf` have no part in the model.
pub mod Pattern
pub mod Transfer
pub mod Client
pub mod Options
pub mod Main
pub mod Server
pub mod Reliable
pub mod Echo
use anp_netskeleton.Base.{ℕ, ℤ, Bool, List}

-- `struct sockaddr_in`, its fields in network order.
pub record SockaddrIn : Type 0 where
  pub sin_family : ℕ
  pub sin_port : ℕ
  pub sin_addr : ℕ

-- The calls, on a state `S` of the outside world. `send` takes the bytes of the buffer, and `recv` the
-- room in it; `recv` gives the bytes that it has written there.
pub record Sockets (S : Type 0) : Type 0 where
  pub calloc : S → ℕ → S × Bool  -- whether there was memory
  pub sys_socket : S → S × ℤ
  pub sys_connect : S → ℤ → SockaddrIn → S × ℤ
  pub sys_send : S → ℤ → List ℕ → S × ℤ
  pub sys_recv : S → ℤ → ℕ → S × ℤ × List ℕ
  pub sys_close : S → ℤ → S × ℤ
  pub errno : S → ℕ
