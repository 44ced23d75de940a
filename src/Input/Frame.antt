-- ===== src/Input/Frame.antt =====
-- src/ip_tx.c, src/anp_netdev.c, src/ip_rx.c: the bytes of a frame, from the block that is sent to the
-- block in which it is received.
use native.Mathlib.Nat.{zero-add, add-zero}
use anp_netskeleton.Base.{ℕ, zero, suc, ◌+◌, ◌<◌, ◌≤◌, ◌≡◌, ◌∙◌, refl, u8, htons, htonl, arith}
use anp_netskeleton.Memory.{Mem, load8, load16, load32, store8, store16, store32, memcpy, bytes}
use anp_netskeleton.Memory.Agree.{Agree, Agree-refl, store8-Agree, store16-Agree, store32-Agree}
use anp_netskeleton.Netdev.{NetDev, put_eth_hdr}
use anp_netskeleton.Ip.{ip_send_check, put_ip_hdr}
use anp_netskeleton.Input.{frame_mem, ip_header_to_host}

frame_mem-byte : (k : ℕ) (m : Mem) (a i : ℕ) → i < k → frame_mem (bytes m a k) i ≡ u8 (m (a + i))
unfolding frame_mem
frame_mem-byte zero m a i h = absurd (omega (arith, h))
frame_mem-byte (suc k) m a zero h = rw add-zero (omega arith)
frame_mem-byte (suc k) m a (suc i) h =
    let further : a + suc i ≡ a + 1 + i = omega arith in
    rw further (frame_mem-byte k m (a + 1) i (omega (arith, h)))

-- The frame is received as it was sent.
pub frame_mem-Agree : (m : Mem) (k : ℕ) → Agree (frame_mem (bytes m 0 k)) m 0 k
frame_mem-Agree m k = record {
  byte = λ i low high.
      let e : frame_mem (bytes m 0 k) i ≡ u8 (m (0 + i)) = frame_mem-byte k m 0 i high in
      let e' : frame_mem (bytes m 0 k) i ≡ u8 (m i) = e ∙ rw zero-add refl in rw e' (omega arith);
}

pub put_eth_hdr-Agree :
    (m : Mem) (dev : NetDev) (hw : Mem) (type hi : ℕ)
    → dev.addr_len ≡ 6
    → Agree (put_eth_hdr m 0 dev hw type) m 14 hi
unfolding put_eth_hdr memcpy store16 store8
put_eth_hdr-Agree m dev hw type hi len = record { byte = λ i low high. ground arith }

pub put_eth_hdr-type :
    (m : Mem) (dev : NetDev) (hw : Mem) (type : ℕ)
    → type < 65536
    → load16 (put_eth_hdr m 0 dev hw type) 12 ≡ htons type
unfolding put_eth_hdr store16 store8 load16 load8 htons
put_eth_hdr-type m dev hw type small = ground arith

pub swap_type-Agree : (m : Mem) (v hi : ℕ) → Agree (store16 m 12 v) m 14 hi
unfolding store16 store8
swap_type-Agree m v hi = record { byte = λ i low high. ground arith }

put_ip_hdr-Agree :
    (m : Mem) (len protocol saddr daddr hi : ℕ)
    → Agree (put_ip_hdr m len protocol saddr daddr) m 34 hi
unfolding put_ip_hdr
put_ip_hdr-Agree m len protocol saddr daddr hi =
    let at_30 : 30 + 4 ≤ 34 = omega arith in
    let at_26 : 26 + 4 ≤ 34 = omega arith in
    let top : Agree (store16 (store8 (store8 m 14 0x45) 15 0) 16 len) m 34 hi =
      store16-Agree 16 len
        (store8-Agree 15 0 (store8-Agree 14 0x45 Agree-refl (omega arith)) (omega arith))
        (omega arith) in
    let middle =
      store8-Agree 23 protocol
        (store8-Agree 22 64 (store16-Agree 20 0x4000 top (omega arith)) (omega arith))
        (omega arith) in
    let addresses =
      store32-Agree 30 daddr (store32-Agree 26 saddr middle (omega arith)) (omega arith) in
    let lengths =
      store16-Agree 18 _
        (store16-Agree 16 _ (store16-Agree 24 0 addresses (omega arith)) (omega arith))
        (omega arith) in
    let swapped = store32-Agree 26 _ (store32-Agree 30 _ lengths at_30) at_26 in
    store16-Agree 20 _ (store16-Agree 24 _ swapped (omega arith)) (omega arith)

pub ip_output-Agree :
    (m : Mem) (len protocol saddr daddr hi : ℕ)
    → Agree (ip_send_check (put_ip_hdr m len protocol saddr daddr)) m 34 hi
unfolding ip_send_check
ip_output-Agree m len protocol saddr daddr hi =
    store16-Agree 24 _ (put_ip_hdr-Agree m len protocol saddr daddr hi) (omega arith)

pub ip_header_to_host-Agree : (m : Mem) (hi : ℕ) → Agree (ip_header_to_host m) m 34 hi
unfolding ip_header_to_host store32 store16 store8
ip_header_to_host-Agree m hi = record { byte = λ i low high. ground arith }

-- The fields of the header that `ip_output` writes.
module _ (m : Mem) (len protocol saddr daddr : ℕ) where
  abbrev pub header : Mem
  header = ip_send_check (put_ip_hdr m len protocol saddr daddr)

  pub header-version : load8 header 14 ≡ 69
  unfolding ip_send_check put_ip_hdr load8 store8 store16 store32
  header-version = refl

  pub header-len : len < 65536 → load16 header 16 ≡ htons len
  unfolding ip_send_check put_ip_hdr load16 load8 store8 store16 store32 htons
  header-len h = omega (arith, h)

  pub header-protocol : load8 header 23 ≡ u8 protocol
  unfolding ip_send_check put_ip_hdr load8 store8 store16 store32
  header-protocol = omega arith

  pub header-saddr : saddr < 4294967296 → load32 header 26 ≡ htonl saddr
  unfolding ip_send_check put_ip_hdr load32 load16 load8 store8 store16 store32 htonl
  header-saddr h = omega (arith, h)

  pub header-daddr : daddr < 4294967296 → load32 header 30 ≡ htonl daddr
  unfolding ip_send_check put_ip_hdr load32 load16 load8 store8 store16 store32 htonl
  header-daddr h = omega (arith, h)

-- What `ip_rx` makes of it.
module _ (m : Mem) where
  pub host-version : load8 (ip_header_to_host m) 14 ≡ load8 m 14
  unfolding ip_header_to_host load8 store16 store32 store8
  host-version = refl

  pub host-protocol : load8 (ip_header_to_host m) 23 ≡ load8 m 23
  unfolding ip_header_to_host load8 store16 store32 store8
  host-protocol = refl

  pub host-len : load16 (ip_header_to_host m) 16 ≡ htons (load16 m 16)
  unfolding ip_header_to_host load16 load8 store16 store32 store8 htons
  host-len = omega arith

  pub host-saddr : load32 (ip_header_to_host m) 26 ≡ htonl (load32 m 26)
  unfolding ip_header_to_host load32 load16 load8 store16 store32 store8 htonl
  host-saddr = omega arith

  pub host-daddr : load32 (ip_header_to_host m) 30 ≡ htonl (load32 m 30)
  unfolding ip_header_to_host load32 load16 load8 store16 store32 store8 htonl
  host-daddr = omega arith
