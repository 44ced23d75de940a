-- ===== src/Examples/Start.antt =====
-- The theorems on command lines, on the server's `main` and on the start of the stack, applied to an
-- outside world that counts the calls.
use anp_netskeleton.Base.{
  ℕ, suc, ◌+◌, ◌≡◌, ◌⊎◌, inr, refl, true, false, some, List, [], ◌∷◌, ℤ, pos,
}
use anp_netskeleton.Memory.{zeroed}
use anp_netskeleton.Programs.{SockaddrIn}
use anp_netskeleton.Programs.Options.{Opt, opt_c, opt_a, opt_p, Settings}
use anp_netskeleton.Programs.Main.{ListenCalls}
use anp_netskeleton.Start.{
  Kernel, Command, ip_link_up, ip_route_add, ip_address_add, exited, going, exit_status, TapDev,
  tdev_init, tdev_alloc,
}
use anp_netskeleton.Start.Commands.{
  commands, run_all, outcome, tdev_init-run_all, tdev_init-exit_status,
}

-- An argument is its number, and every name is resolved to one address.
abbrev number : ℕ → ℤ
number n = pos n

abbrev resolve : ℕ → ℤ ⊎ SockaddrIn
resolve n = inr (record { sin_family = 2; sin_port = 0; sin_addr = n })

abbrev options : List (Opt ℕ)
options = opt_p 80 ∷ (opt_a 7 ∷ (opt_c 2 ∷ []))

-- The state counts the connections accepted.
abbrev listening : ListenCalls ℕ
listening = record {
  sys_socket = λ s. (s, pos 3);
  setsockopt = λ s fd. (s, pos 0);
  bind = λ s fd addr. (s, pos 0);
  listen = λ s fd n. (s, pos 0);
  accept = λ s fd. (suc s, pos (4 + s));
  sys_close = λ s fd. (s, pos 0);
  errno = λ s. 0;
}

abbrev two_threads : Settings
two_threads = record {
  config = pos 2;
  port = pos 80;
  server_addr = record { sin_family = 2; sin_port = 20480; sin_addr = 0 };
  wait = false;
  num_threads = pos 2;
}

-- The state counts the commands; the second one ends with the code 1.
abbrev status_of : Command ℕ → ℤ
status_of (ip_link_up name) = pos 0
status_of (ip_route_add name) = pos 256
status_of (ip_address_add name) = pos 0

abbrev shell : Kernel ℕ ℕ ℕ
shell = record {
  calloc = λ s. (s, true);
  open_tap = λ s. (s, pos 3);
  tun_set_iff = λ s fd. (s, pos 0, 7);
  sys_close = λ s fd. (s, pos 0);
  system = λ s cmd. (suc s, status_of cmd);
  pthread_create = λ s thread. (s, pos 0);
  errno = λ s. 0;
  inet_pton = λ c. some c;
  sscanf_mac = λ c. zeroed;
}

abbrev tap0 : TapDev ℕ
tap0 = record { devname = 7; tun_fd = pos 3 }

shell_alloc : tdev_alloc shell 0 true ≡ going 0 (pos 0, some tap0)
unfolding tdev_alloc
shell_alloc = refl

tdev_init-run_all_example : tdev_init shell 0 ≡ outcome shell tap0 (run_all shell 0 (commands 7))
tdev_init-run_all_example = tdev_init-run_all shell 0 0 0 0 true tap0 refl refl shell_alloc

tdev_init-exit_status_example :
    (code : ℤ) × (tdev_init shell 0 ≡ exited 2 code) × (exit_status code ≡ 0)
tdev_init-exit_status_example =
    tdev_init-exit_status shell 0 0 0 0 2 true tap0 0 refl refl shell_alloc refl
