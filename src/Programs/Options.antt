-- ===== src/Programs/Options.antt =====
-- server-client/tcp_client.c and server-client/tcp_server.c, `main`: the command line. The options are
-- given in the order in which `getopt` returns them; `strtol` and `getaddrinfo` are parameters.
pub mod Port
use anp_netskeleton.Base.{
  ℕ, suc, ◌+◌, ◌⊎◌, inl, inr, List, [], ◌∷◌, Bool, true, false, ℤ, pos, negsuc, htons, htonl,
  int_to_u16,
}
use anp_netskeleton.Programs.{SockaddrIn}

abbrev pub af_inet : ℕ
af_inet = 2

abbrev pub inaddr_loopback : ℕ
inaddr_loopback = 2130706433

abbrev pub inaddr_any : ℕ
inaddr_any = 0

abbrev pub default_port : ℕ
default_port = 43211

-- An option with its argument, of the type `T`.
pub data Opt (T : Type 0) : Type 0 where
  opt_h : Opt T
  opt_c : T → Opt T
  opt_a : T → Opt T
  opt_p : T → Opt T
  opt_w : Opt T
  opt_threads : T → Opt T  -- -P
  opt_other : Opt T

pub record Settings : Type 0 where
  pub config : ℤ
  pub port : ℤ
  pub server_addr : SockaddrIn
  pub wait : Bool
  pub num_threads : ℤ

-- `main` goes on, returns a code, or exits with one.
pub data Parsed : Type 0 where
  ready : Settings → Parsed
  returned : ℤ → Parsed
  exited : ℤ → Parsed

-- Both programs begin with these, but for the address.
unfoldable pub defaults : ℕ → Settings
defaults addr = record {
  config = pos 1;
  port = pos default_port;
  server_addr = record {
    sin_family = af_inet;
    sin_port = htons (int_to_u16 (pos default_port));
    sin_addr = htonl addr;
  };
  wait = false;
  num_threads = pos 1;
}

unfoldable pub client_defaults : Settings
client_defaults = defaults inaddr_loopback

unfoldable pub server_defaults : Settings
server_defaults = defaults inaddr_any

module _ {T : Type 0} (strtol : T → ℤ) (getaddrinfo : T → ℤ ⊎ SockaddrIn) where
  -- The code of a failure, or the address with all its fields.
  unfoldable pub get_addr : T → ℤ ⊎ SockaddrIn
  get_addr dst = getaddrinfo dst

  -- The whole address is overwritten, and then the port set again.
  unfoldable pub set_addr : Settings → ℤ ⊎ SockaddrIn → Parsed
  set_addr s (inl ret) = returned ret
  set_addr s (inr addr) =
      ready (record s { server_addr = record addr { sin_port = htons (int_to_u16 s.port) } })

  unfoldable pub set_port : Settings → ℤ → Settings
  set_port s n = record s {
    port = n;
    server_addr = record (s.server_addr) { sin_port = htons (int_to_u16 n) };
  }

  unfoldable pub client_option : Settings → Opt T → Parsed
  client_option s opt_h = exited (pos 0)
  client_option s (opt_c arg) = ready (record s { config = strtol arg })
  client_option s (opt_a arg) = set_addr s (get_addr arg)
  client_option s (opt_p arg) = ready (set_port s (strtol arg))
  client_option s opt_w = ready (record s { wait = true })
  client_option s (opt_threads arg) = ready (record s { num_threads = strtol arg })
  client_option s opt_other = exited (negsuc 0)

  unfoldable pub server_option : Settings → Opt T → Parsed
  server_option s opt_h = exited (pos 0)
  server_option s (opt_c arg) = ready (record s { config = strtol arg })
  server_option s (opt_a arg) = set_addr s (get_addr arg)
  server_option s (opt_p arg) = ready (set_port s (strtol arg))
  server_option s opt_w = exited (negsuc 0)
  server_option s (opt_threads arg) = ready (record s { num_threads = strtol arg })
  server_option s opt_other = exited (negsuc 0)

  -- `while ((c = getopt (...)) != -1)`
  unfoldable pub parse : (Settings → Opt T → Parsed) → Settings → List (Opt T) → Parsed
  parse option s [] = ready s
  parse option s (o ∷ os) = elim (option s o) [
    | returned ret ↦ returned ret
    | exited code ↦ exited code
    | ready s' ↦ parse option s' os
  ]
