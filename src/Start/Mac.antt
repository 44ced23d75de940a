-- ===== src/Start/Mac.antt =====
-- src/anp_netdev.c, `get_mac` and `free_netdev`.
use anp_netskeleton.Base.{
  ◌≡◌, ◌∙◌, sym, ap, refl, if-cases, inl, inr, Option, is_negative, if◌then◌else◌, ℤ, pos, negsuc,
}
use anp_netskeleton.Memory.{Mem, memcpy, bytes}
use anp_netskeleton.Netdev.{NetDev}
use anp_netskeleton.Start.{Started, going, exited}

-- The calls, on a state `S`; `N` are the names of interfaces.
pub record MacCalls (S N : Type 0) : Type 0 where
  pub dgram_socket : S → S × ℤ
  pub get_hwaddr : S → ℤ → N → S × ℤ × Mem  -- ioctl (SIOCGIFHWADDR), and `sa_data`
  pub sys_close : S → ℤ → S × ℤ

module _ {S N : Type 0} (k : MacCalls S N) where
  -- The array that is filled is `mac`.
  unfoldable pub get_mac : S → N → Mem → Started S Mem
  get_mac s iface mac =
      let (s1, fd) = k.dgram_socket s in
      if is_negative fd
      then exited s1 (negsuc 0)
      else (let (s2, ret, sa_data) = k.get_hwaddr s1 fd iface in
          if is_negative ret
          then exited s2 (pos 0)
          else (let (s3, _) = k.sys_close s2 fd in going s3 (memcpy mac 0 sa_data 0 6)))

-- `free` is given the address in a global variable, which may be NULL.
unfoldable pub free_netdev :
    {S : Type 0} → (S → Option NetDev → S) → S → Option NetDev → Option NetDev → S
free_netdev free s cdev_lo cdev_ext = free (free s cdev_lo) cdev_ext

module _ {S N : Type 0} (k : MacCalls S N) (s : S) (iface : N) (mac : Mem) where
  -- Where `get_mac` returns, the socket that it has made is closed, and the array has the six bytes of
  -- the answer.
  pub get_mac-closed :
      (s' : S) (filled : Mem)
      → get_mac k s iface mac ≡ going s' filled
      → let (s1, fd) = k.dgram_socket s in
        let (s2, _, sa_data) = k.get_hwaddr s1 fd iface in
        (s' ≡ (k.sys_close s2 fd).0) × (bytes filled 0 6 ≡ bytes sa_data 0 6)
  unfolding get_mac memcpy
  get_mac-closed s' filled h =
      let (s1, fd) = k.dgram_socket s in
      let (s2, ret, sa_data) = k.get_hwaddr s1 fd iface in
      let (s3, closed) = k.sys_close s2 fd in
      let copied : bytes (memcpy mac 0 sa_data 0 6) 0 6 ≡ bytes sa_data 0 6 = refl in
      let filled_mac : Mem = memcpy mac 0 sa_data 0 6 in
      let done : Started S Mem = going s3 filled_mac in
      let asked : Started S Mem = if is_negative ret then exited s2 (pos 0) else done in
      elim (if-cases (is_negative fd) (exited s1 (negsuc 0)) asked (going s' filled) h) [
        | inl (_, e) ↦ cc
        | inr (_, e) ↦
            elim (if-cases (is_negative ret) (exited s2 (pos 0)) done (going s' filled) e) [
              | inl (_, e') ↦ cc
              | inr (_, e') ↦
                  let state : s3 ≡ s' = cc in
                  let array : filled_mac ≡ filled = cc in
                  (sym state, ap (λ m. bytes m 0 6) (sym array) ∙ copied)
            ]
      ]
