-- ===== src/Programs/Options/Port.antt =====
-- server-client/tcp_client.c and server-client/tcp_server.c, `main`: the port among the options.
use anp_netskeleton.Base.{◌≡◌, ◌⊎◌, inl, inr, refl, subst, List, [], ◌∷◌, ℤ, pos, htons, int_to_u16}
use anp_netskeleton.Programs.{SockaddrIn}
use anp_netskeleton.Programs.Options.{
  Opt, opt_h, opt_c, opt_a, opt_p, opt_w, opt_threads, opt_other, Settings, Parsed, ready, returned,
  exited, default_port, defaults, client_defaults, server_defaults, get_addr, set_addr, set_port,
  client_option, server_option, parse,
}

-- If the program goes on, `n` is its port, and the one in the address.
abbrev pub PortIs : ℤ → Parsed → Type 0
PortIs n (ready s) = (s.port ≡ n) × (s.server_addr.sin_port ≡ htons (int_to_u16 n))
PortIs n (returned _) = Unit
PortIs n (exited _) = Unit

module _ {T : Type 0} (strtol : T → ℤ) (getaddrinfo : T → ℤ ⊎ SockaddrIn) where
  -- The port of the last `-p`, wherever an `-a` stands.
  abbrev pub last_port : ℤ → List (Opt T) → ℤ
  last_port n [] = n
  last_port n (opt_p arg ∷ os) = last_port (strtol arg) os
  last_port n (_ ∷ os) = last_port n os

  abbrev pub port_after : ℤ → Opt T → ℤ
  port_after n o = last_port n (o ∷ [])

  set_addr-PortIs :
      (s : Settings) (found : ℤ ⊎ SockaddrIn) → PortIs s.port (set_addr strtol getaddrinfo s found)
  unfolding set_addr
  set_addr-PortIs s (inl ret) = tt
  set_addr-PortIs s (inr addr) = (refl, refl)

  client_option-PortIs :
      (s : Settings) (o : Opt T) (n : ℤ)
      → PortIs n (ready s)
      → PortIs (port_after n o) (client_option strtol getaddrinfo s o)
  unfolding client_option set_port
  client_option-PortIs s opt_h n h = tt
  client_option-PortIs s (opt_c arg) n h = h
  client_option-PortIs s (opt_a arg) n (p, _) =
      subst (λ q. PortIs q (set_addr strtol getaddrinfo s (get_addr strtol getaddrinfo arg))) p
        (set_addr-PortIs s (get_addr strtol getaddrinfo arg))
  client_option-PortIs s (opt_p arg) n h = (refl, refl)
  client_option-PortIs s opt_w n h = h
  client_option-PortIs s (opt_threads arg) n h = h
  client_option-PortIs s opt_other n h = tt

  server_option-PortIs :
      (s : Settings) (o : Opt T) (n : ℤ)
      → PortIs n (ready s)
      → PortIs (port_after n o) (server_option strtol getaddrinfo s o)
  unfolding server_option set_port
  server_option-PortIs s opt_h n h = tt
  server_option-PortIs s (opt_c arg) n h = h
  server_option-PortIs s (opt_a arg) n (p, _) =
      subst (λ q. PortIs q (set_addr strtol getaddrinfo s (get_addr strtol getaddrinfo arg))) p
        (set_addr-PortIs s (get_addr strtol getaddrinfo arg))
  server_option-PortIs s (opt_p arg) n h = (refl, refl)
  server_option-PortIs s opt_w n h = tt
  server_option-PortIs s (opt_threads arg) n h = h
  server_option-PortIs s opt_other n h = tt

  last_port-port_after :
      (n : ℤ) (o : Opt T) (os : List (Opt T)) → last_port (port_after n o) os ≡ last_port n (o ∷ os)
  last_port-port_after n opt_h os = refl
  last_port-port_after n (opt_c _) os = refl
  last_port-port_after n (opt_a _) os = refl
  last_port-port_after n (opt_p _) os = refl
  last_port-port_after n opt_w os = refl
  last_port-port_after n (opt_threads _) os = refl
  last_port-port_after n opt_other os = refl

  parse-PortIs :
      (option : Settings → Opt T → Parsed)
      → ((s : Settings) (o : Opt T) (n : ℤ)
          → PortIs n (ready s)
          → PortIs (port_after n o) (option s o))
      → (s : Settings) (os : List (Opt T)) (n : ℤ) → PortIs n (ready s)
      → PortIs (last_port n os) (parse strtol getaddrinfo option s os)
  unfolding parse
  parse-PortIs option step s [] n h = h
  parse-PortIs option step s (o ∷ os) n h =
      subst (λ q. PortIs q (parse strtol getaddrinfo option s (o ∷ os)))
        (last_port-port_after n o os)
        (go_on (option s o) (step s o n h)
          (λ s' h'. parse-PortIs option step s' os (port_after n o) h'))
    where
      go_on :
          (r : Parsed)
          → PortIs (port_after n o) r
          → ((s' : Settings)
              → PortIs (port_after n o) (ready s')
              → PortIs (last_port (port_after n o) os) (parse strtol getaddrinfo option s' os))
          → PortIs (last_port (port_after n o) os) (elim r [
            | returned ret ↦ returned ret
            | exited code ↦ exited code
            | ready s' ↦ parse strtol getaddrinfo option s' os
          ])
      go_on (returned _) h' rest = tt
      go_on (exited _) h' rest = tt
      go_on (ready s') h' rest = rest s' h'

  -- Whatever the options, if either program goes on, its port is that of the last -p, or 43211 if
  -- there is none, and the address has this port in network order, wherever an -a stands among
  -- the options.
  pub parse-last_port :
      (os : List (Opt T))
      → PortIs
          (last_port (pos default_port) os)
          (parse strtol getaddrinfo (client_option strtol getaddrinfo) client_defaults os)
        × PortIs
            (last_port (pos default_port) os)
            (parse strtol getaddrinfo (server_option strtol getaddrinfo) server_defaults os)
  unfolding client_defaults server_defaults defaults
  parse-last_port os = (
    parse-PortIs (client_option strtol getaddrinfo) client_option-PortIs client_defaults os
        (pos default_port) (refl, refl),
    parse-PortIs (server_option strtol getaddrinfo) server_option-PortIs server_defaults os
        (pos default_port) (refl, refl),
  )
