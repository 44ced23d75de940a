-- ===== src/Checksum/Agree.antt =====
-- src/utilities.c, `do_csum` and `do_tcp_csum`: they look at their range only.
use anp_netskeleton.Base.{ℕ, zero, suc, ◌+◌, ◌≤◌, ◌≡◌, refl, pos, arith}
use anp_netskeleton.Memory.{Mem}
use anp_netskeleton.Memory.Agree.{Agree, load8-Agree, load16-Agree}
use anp_netskeleton.Checksum.{sum_words, sum_every_16bits, do_csum, do_tcp_csum}

sum_words-Agree :
    {m m' : Mem} {lo hi : ℕ} (h : Agree m m' lo hi) (count sum ptr : ℕ)
    → lo ≤ ptr
    → ptr + count ≤ hi
    → sum_words m sum ptr count ≡ sum_words m' sum ptr count
unfolding sum_words
sum_words-Agree h zero sum ptr low high = refl
sum_words-Agree h (suc zero) sum ptr low high = rw (load8-Agree h ptr low high) refl
sum_words-Agree h (suc (suc count)) sum ptr low high =
    let word = load16-Agree h ptr low (omega (arith, high)) in
    rw word (sum_words-Agree h count _ (ptr + 2) (omega (arith, low)) (omega (arith, high)))

module _ {m m' : Mem} {lo hi : ℕ} (h : Agree m m' lo hi) where
  pub do_csum-Agree :
      (addr count start : ℕ)
      → lo ≤ addr
      → addr + count ≤ hi
      → do_csum m addr (pos count) start ≡ do_csum m' addr (pos count) start
  unfolding do_csum sum_every_16bits
  do_csum-Agree addr count start low high = rw (sum_words-Agree h count 0 addr low high) refl

  pub do_tcp_csum-Agree :
      (addr count protocol saddr daddr : ℕ)
      → lo ≤ addr
      → addr + count ≤ hi
      → do_tcp_csum m addr (pos count) protocol saddr daddr
        ≡ do_tcp_csum m' addr (pos count) protocol saddr daddr
  unfolding do_tcp_csum
  do_tcp_csum-Agree addr count protocol saddr daddr low high = do_csum-Agree addr count _ low high
