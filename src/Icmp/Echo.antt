-- ===== src/Icmp/Echo.antt =====
-- src/icmp.c, `icmp_reply`: the checksum of the reply.
use anp_netskeleton.Base.{ℕ, ◌<◌, ◌≤◌, ◌≡◌, refl, pos, arith}
use anp_netskeleton.Memory.{Mem}
use anp_netskeleton.Memory.Laws.{load16-store16}
use anp_netskeleton.Checksum.{do_csum}
use anp_netskeleton.Checksum.Verify.{do_csum-store16-do_csum}
use anp_netskeleton.Icmp.{icmp_reply_mem}

-- The ICMP message of a reply, of at least four and less than 65536 bytes, has the checksum 0 over its
-- whole length, whatever the request was.
pub icmp_reply_mem-verified :
    (m : Mem) (icmp_len : ℕ)
    → 4 ≤ icmp_len
    → icmp_len < 65536
    → do_csum (icmp_reply_mem m icmp_len) 34 (pos icmp_len) 0 ≡ 0
unfolding icmp_reply_mem
icmp_reply_mem-verified m icmp_len long short =
    do_csum-store16-do_csum _ 1 34 icmp_len 0 0 (0, 0, refl) (omega arith) (load16-store16 _ 36 0)
      (omega arith) (omega arith) (λ e. refl)
