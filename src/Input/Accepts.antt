-- ===== src/Input/Accepts.antt =====
-- src/ip_tx.c, `ip_output`, against the checks of src/ip_rx.c, `ip_rx`.
use anp_netskeleton.Base.{ℕ, ◌≡◌, ◌∙◌, refl, subst, inr, htons, pos, arith}
use anp_netskeleton.Memory.{Mem, load8, load16, store8, store16, store32}
use anp_netskeleton.Memory.Laws.{load8-store16_ne}
use anp_netskeleton.Memory.Agree.{Agree, Agree-refl, load8-Agree}
use anp_netskeleton.Checksum.{do_csum}
use anp_netskeleton.Checksum.Agree.{do_csum-Agree}
use anp_netskeleton.Checksum.Verify.{do_csum-store16-do_csum}
use anp_netskeleton.Subuff.{Subuff}
use anp_netskeleton.Ip.{ip_send_check, put_ip_hdr}
use anp_netskeleton.World.{World}
use anp_netskeleton.Input.{ip_rx, ip_dispatch, ip_header_to_host}

module _ (m : Mem) (len protocol saddr daddr : ℕ) where
  unchecked : Mem
  unchecked = put_ip_hdr m len protocol saddr daddr

  first_byte : load8 unchecked 14 ≡ 69
  unfolding unchecked put_ip_hdr load8 store8 store16 store32
  first_byte = refl

  checksum_field : load16 unchecked 24 ≡ 0
  unfolding unchecked put_ip_hdr load16 store8 store16 store32 htons
  checksum_field = refl

  ttl_field : load8 unchecked 22 ≡ 64
  unfolding unchecked put_ip_hdr load8 store8 store16 store32
  ttl_field = refl

  checked : Mem
  checked = store16 unchecked 24 (do_csum unchecked 14 (pos 20) 0)

  ip_send_check-checked : ip_send_check unchecked ≡ checked
  unfolding ip_send_check checked
  ip_send_check-checked = rw first_byte refl

  checked_first_byte : load8 checked 14 ≡ 69
  unfolding checked
  checked_first_byte = load8-store16_ne unchecked 24 14 _ (inr (omega arith)) ∙ first_byte

  checked_ttl : load8 checked 22 ≡ 64
  unfolding checked
  checked_ttl = load8-store16_ne unchecked 24 22 _ (inr (omega arith)) ∙ ttl_field

  checked_csum : do_csum checked 14 (pos 20) 0 ≡ 0
  unfolding checked
  checked_csum =
      do_csum-store16-do_csum unchecked 5 14 20 0 0 (0, 0, refl) (omega arith) checksum_field
        (omega arith) (omega arith) (λ e. refl)

  pub ip_rx-checked :
      (w : World) (sub : Subuff)
      → Agree sub.mem (ip_send_check (put_ip_hdr m len protocol saddr daddr)) 14 34
      → ip_rx w sub ≡ ip_dispatch w (record sub { mem = ip_header_to_host sub.mem })
  unfolding ip_rx unchecked
  ip_rx-checked w sub same =
      let same' : Agree sub.mem checked 14 34 =
        subst (λ x. Agree sub.mem x 14 34) ip_send_check-checked same in
      let first = load8-Agree same' 14 (omega arith) (omega arith) ∙ checked_first_byte in
      let ttl = load8-Agree same' 22 (omega arith) (omega arith) ∙ checked_ttl in
      let csum = do_csum-Agree same' 14 20 0 (omega arith) (omega arith) ∙ checked_csum in
      rw (first, ttl, csum) refl

-- A packet whose header is one that `ip_output` writes, whatever the length, the protocol and the
-- addresses, passes all four checks of `ip_rx` (version, header length, time to live, checksum): it is
-- given to the handler of its protocol, with the header in host byte order.
pub ip_rx-accepts :
    (w : World) (sub : Subuff) (m : Mem) (len protocol saddr daddr : ℕ)
    → sub.mem ≡ ip_send_check (put_ip_hdr m len protocol saddr daddr)
    → ip_rx w sub ≡ ip_dispatch w (record sub { mem = ip_header_to_host sub.mem })
ip_rx-accepts w sub m len protocol saddr daddr e =
    ip_rx-checked m len protocol saddr daddr w sub (subst (λ x. Agree sub.mem x 14 34) e Agree-refl)
