-- ===== src/Start.antt =====
-- src/init.c, src/tap_netdev.c, src/anp_netdev.c and src/utilities.c: how the stack starts. What the
-- kernel and the C library do is the interface `Kernel`.
pub mod Commands
pub mod Mac
use mathlib.Core.Option
use anp_netskeleton.Base.{
  int_is_zero, is_negative, minus, ℕ, zero, suc, ◌%◌, ◌≡◌, Option, none, some, List, [], ◌∷◌, Bool,
  if◌then◌else◌, ℤ, pos, negsuc, htonl, int_to_u32,
}
use anp_netskeleton.Memory.{Mem}
use anp_netskeleton.Netdev.{NetDev, RtEntry}
use anp_netskeleton.Route.{route_init}

-- A command of `run_bash_command`, with the name of the device.
pub data Command (N : Type 0) : Type 0 where
  ip_link_up : N → Command N  -- ip link set dev %s up
  ip_route_add : N → Command N  -- ip route add dev %s 10.0.0.0/24
  ip_address_add : N → Command N  -- ip address add dev %s local 10.0.0.5

pub data Thread : Type 0 where
  rx_thread : Thread  -- netdev_rx_loop
  timer_thread : Thread  -- timers_start
  sender_thread : Thread  -- tcp_retransmit_handler

-- The calls, on a state `S` of the outside world; `N` are the names of devices, and `C` strings.
pub record Kernel (S N C : Type 0) : Type 0 where
  pub calloc : S → S × Bool
  pub open_tap : S → S × ℤ
  pub tun_set_iff : S → ℤ → S × ℤ × N  -- ioctl (TUNSETIFF), and the name it has filled in
  pub sys_close : S → ℤ → S × ℤ
  pub system : S → Command N → S × ℤ
  pub pthread_create : S → Thread → S × ℤ
  pub errno : S → ℕ
  pub inet_pton : C → Option ℕ  -- an address in network order, none where it is malformed
  pub sscanf_mac : C → Mem

-- The stack goes on, or the process exits with a code, or it has used a null pointer.
pub data Started (S A : Type 0) : Type 0 where
  going : S → A → Started S A
  exited : S → ℤ → Started S A
  crashed : S → Started S A

-- The addresses of config.h.
pub record Config (C : Type 0) : Type 0 where
  pub anp_ip_client_ext : C
  pub anp_ip_lo : C
  pub anp_mac_client_ext : C
  pub anp_mac_client_lo : C

infixl 5 ◌>>=◌
abbrev pub ◌>>=◌ : {S A B : Type 0} → Started S A → (S × A → Started S B) → Started S B
going s a >>= f = f (s, a)
exited s code >>= f = exited s code
crashed s >>= f = crashed s

abbrev pub anp_mtu_15 : ℕ
anp_mtu_15 = 1500

-- What the parent of a process sees of the code given to `exit`: its low 8 bits.
abbrev pub exit_status : ℤ → ℕ
exit_status code = int_to_u32 code % 256

-- `struct tap_netdev`
pub record TapDev (N : Type 0) : Type 0 where
  pub devname : N
  pub tun_fd : ℤ

-- What `_init_anp_netstack` leaves behind.
pub record Stack (N : Type 0) : Type 0 where
  pub tap : TapDev N
  pub cdev_ext : NetDev
  pub cdev_lo : NetDev
  pub routes : List RtEntry

module _ {S N C : Type 0} (k : Kernel S N C) where
  -- The device where there is one, and the code of the `ioctl`. `named` is whether there was memory for
  -- the name, which is copied at the end.
  unfoldable pub tdev_alloc : S → Bool → Started S (ℤ × Option (TapDev N))
  tdev_alloc s named =
      let (s', fd) = k.open_tap s in
      let (s'', err, name) = k.tun_set_iff s' fd in
      if is_negative fd
      then exited s' (pos 1)
      else if is_negative err
      then going ((k.sys_close s'' fd).0) (err, none)
      else if named
      then going s'' (err, some (record { devname = name; tun_fd = fd }))
      else crashed s''

  unfoldable pub run_bash_command : S → Command N → S × ℤ
  run_bash_command s cmd = k.system s cmd

  -- The end of `tdev_init`, from the back: the address, the route and the link.
  unfoldable pub set_address : S → TapDev N → Started S (TapDev N)
  set_address s dev =
      let (s', ret) = run_bash_command s (ip_address_add dev.devname) in
      if int_is_zero ret then going s' dev else exited s' (minus ret)

  unfoldable pub set_route : S → TapDev N → Started S (TapDev N)
  set_route s dev =
      let (s', ret) = run_bash_command s (ip_route_add dev.devname) in
      if int_is_zero ret then set_address s' dev else exited s' (minus ret)

  unfoldable pub bring_up : S → TapDev N → Started S (TapDev N)
  bring_up s dev =
      let (s', ret) = run_bash_command s (ip_link_up dev.devname) in
      if int_is_zero ret then set_route s' dev else exited s' (minus ret)

  -- `exit (-EINVAL)` where there is no memory. The name's own `calloc` is not checked.
  unfoldable pub tdev_init : S → Started S (TapDev N)
  tdev_init s =
      let (s1, ok) = k.calloc s in
      let (s2, named) = k.calloc s1 in
      if ok
      then elim (tdev_alloc s2 named) [
        | exited s3 code ↦ exited s3 code
        | crashed s3 ↦ crashed s3
        | going s3 (ret, none) ↦ exited s3 (minus ret)
        | going s3 (ret, some dev) ↦
            if int_is_zero ret then bring_up s3 dev else exited s3 (minus ret)
      ]
      else exited s1 (negsuc 21)

  -- `ip_str_to_n32` exits with 1 on a bad address.
  unfoldable pub ip_str_to_n32 : C → Option ℕ
  ip_str_to_n32 addr = k.inet_pton addr

  unfoldable pub ip_str_to_h32 : C → Option ℕ
  ip_str_to_h32 addr = Option.map htonl (ip_str_to_n32 addr)

  -- A device, or NULL.
  unfoldable pub netdev_alloc : S → C → C → ℕ → Started S (Option NetDev)
  netdev_alloc s addr hwaddr mtu =
      let (s', ok) = k.calloc s in
      if ok
      then elim (ip_str_to_h32 addr) [
        | none ↦ exited s' (pos 1)
        | some a ↦
            going s'
              (some (record { addr = a; addr_len = 6; hwaddr = k.sscanf_mac hwaddr; mtu = mtu }))
      ]
      else going s' none

  unfoldable pub create_thread : S → Thread → Started S Unit
  create_thread s thread =
      let (s', ret) = k.pthread_create s thread in
      if int_is_zero ret then going s' tt else exited s' (minus (pos (k.errno s')))

  unfoldable pub init_threads : S → Started S Unit
  init_threads s = do
    (s1, _) ← create_thread s rx_thread
    (s2, _) ← create_thread s1 timer_thread
    create_thread s2 sender_thread

  -- `cdev_ext` and `cdev_lo`.
  unfoldable pub client_netdev_init : Config C → S → Started S (Option NetDev × Option NetDev)
  client_netdev_init config s = do
    (s1, ext) ← netdev_alloc s config.anp_ip_client_ext config.anp_mac_client_ext anp_mtu_15
    (s2, lo) ← netdev_alloc s1 config.anp_ip_lo config.anp_mac_client_lo anp_mtu_15
    going s2 (ext, lo)

  -- The routes, which read both devices.
  unfoldable pub init_routes : S → TapDev N → Option NetDev × Option NetDev → Started S (Stack N)
  init_routes s tap (some ext, some lo) =
      going s (record { tap = tap; cdev_ext = ext; cdev_lo = lo; routes = route_init lo ext })
  init_routes s tap _ = crashed s

  unfoldable pub init_anp_netstack : Config C → S → Started S (Stack N)
  init_anp_netstack config s = do
    (s1, tap) ← tdev_init s
    (s2, devs) ← client_netdev_init config s1
    (s3, stack) ← init_routes s2 tap devs
    (s4, _) ← init_threads s3
    going s4 stack
