-- ===== src/Start/Commands.antt =====
-- src/tap_netdev.c, `tdev_init`: the commands that it has the shell run.
use anp_netskeleton.Base.{
  int_is_zero, minus, ℕ, zero, suc, ◌*◌, ◌≡◌, ◌∙◌, ◌+◌, ap, refl, some, List, [], ◌∷◌, Bool, true,
  if◌then◌else◌, ℤ, pos, negsuc, arith,
}
use anp_netskeleton.Start.{
  Kernel, Command, ip_link_up, ip_route_add, ip_address_add, Started, going, exited, exit_status,
  TapDev, tdev_alloc, run_bash_command, set_address, set_route, bring_up, tdev_init,
}

abbrev pub commands : {N : Type 0} → N → List (Command N)
commands name = ip_link_up name ∷ (ip_route_add name ∷ (ip_address_add name ∷ []))

module _ {S N C : Type 0} (k : Kernel S N C) where
  -- Commands one after another, up to the first with a status that is not 0.
  abbrev pub run_all : S → List (Command N) → S × ℤ
  run_all s [] = (s, pos 0)
  run_all s (c ∷ cs) =
      let (s', ret) = k.system s c in if int_is_zero ret then run_all s' cs else (s', ret)

  abbrev pub outcome : TapDev N → S × ℤ → Started S (TapDev N)
  outcome dev (s, ret) = if int_is_zero ret then going s dev else exited s (minus ret)

  outcome-if :
      (dev : TapDev N) (s : S) (ret : ℤ) (r : S × ℤ)
      → (if int_is_zero ret then outcome dev r else exited s (minus ret))
        ≡ outcome dev (if int_is_zero ret then r else (s, ret))
  outcome-if dev s (pos zero) r = refl
  outcome-if dev s (pos (suc n)) r = refl
  outcome-if dev s (negsuc n) r = refl

  set_address-run_all :
      (s : S) (dev : TapDev N)
      → set_address k s dev ≡ outcome dev (run_all s (ip_address_add dev.devname ∷ []))
  unfolding set_address run_bash_command
  set_address-run_all s dev =
      let (s', ret) = k.system s (ip_address_add dev.devname) in outcome-if dev s' ret (s', pos 0)

  set_route-run_all :
      (s : S) (dev : TapDev N)
      → set_route k s dev
        ≡ outcome dev (run_all s (ip_route_add dev.devname ∷ (ip_address_add dev.devname ∷ [])))
  unfolding set_route run_bash_command
  set_route-run_all s dev =
      let (s', ret) = k.system s (ip_route_add dev.devname) in
      ap (λ r. if int_is_zero ret then r else exited s' (minus ret)) (set_address-run_all s' dev)
      ∙ outcome-if dev s' ret (run_all s' (ip_address_add dev.devname ∷ []))

  bring_up-run_all :
      (s : S) (dev : TapDev N) → bring_up k s dev ≡ outcome dev (run_all s (commands dev.devname))
  unfolding bring_up run_bash_command
  bring_up-run_all s dev =
      let (s', ret) = k.system s (ip_link_up dev.devname) in
      ap (λ r. if int_is_zero ret then r else exited s' (minus ret)) (set_route-run_all s' dev)
      ∙ outcome-if dev s' ret
          (run_all s' (ip_route_add dev.devname ∷ (ip_address_add dev.devname ∷ [])))

  -- Once there is a device, tdev_init runs its three commands in order, up to the first whose
  -- status is not 0: the link, the route and the address. Where all have the status 0 it goes on
  -- with the device, else the process exits with the negated status.
  pub tdev_init-run_all :
      (s s1 s2 s3 : S) (ok : Bool) (dev : TapDev N)
      → k.calloc s ≡ (s1, true)
      → k.calloc s1 ≡ (s2, ok)
      → tdev_alloc k s2 ok ≡ going s3 (pos 0, some dev)
      → tdev_init k s ≡ outcome dev (run_all s3 (commands dev.devname))
  unfolding tdev_init
  tdev_init-run_all s s1 s2 s3 ok dev a1 a2 alloc =
      rw (tdev_init, ap (λ p. p.1) a1, ap (λ p. p.0) a1, ap (λ p. p.0) a2, ap (λ p. p.1) a2, alloc)
        (bring_up-run_all s3 dev)

  -- If the first command of tdev_init that fails ends with a code above 0, so that its status is
  -- 256 times this code, the process exits, but with the exit status 0, as if all was well:
  -- tdev_init negates the status and exit keeps its low eight bits.
  pub tdev_init-exit_status :
      (s s1 s2 s3 s4 : S) (ok : Bool) (dev : TapDev N) (c : ℕ)
      → k.calloc s ≡ (s1, true)
      → k.calloc s1 ≡ (s2, ok)
      → tdev_alloc k s2 ok ≡ going s3 (pos 0, some dev)
      → run_all s3 (commands dev.devname) ≡ (s4, pos (256 * suc c))
      → (code : ℤ) × (tdev_init k s ≡ exited s4 code) × (exit_status code ≡ 0)
  tdev_init-exit_status s s1 s2 s3 s4 ok dev c a1 a2 alloc failed =
      let more : 256 * suc c ≡ suc (256 * c + 255) = omega arith in
      (
        minus (pos (256 * suc c)),
        tdev_init-run_all s s1 s2 s3 ok dev a1 a2 alloc ∙ ap (outcome dev) failed ∙ rw more refl,
        rw more (omega arith),
      )
