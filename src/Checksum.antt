-- ===== src/Checksum.antt =====
-- src/utilities.c: the Internet checksum over a block of memory, and that of a TCP segment with
-- its pseudo-header. All sums are `uint32_t`.
pub mod Fold
pub mod Sum
pub mod Verify
pub mod Agree
use anp_netskeleton.Base.{
  ℕ, zero, suc, ◌+◌, ◌-◌, ◌/◌, ◌%◌, ◌==◌, if◌then◌else◌, u16, u32, htons, ℤ, pos, negsuc,
  int_to_u16,
}
use anp_netskeleton.Memory.{Mem, load8, load16}

-- The two loops of `sum_every_16bits`: `count` bytes are left, at `ptr`.
unfoldable pub sum_words : Mem → ℕ → ℕ → ℕ → ℕ
sum_words m sum ptr zero = sum
sum_words m sum ptr (suc zero) = u32 (sum + load8 m ptr)
sum_words m sum ptr (suc (suc count)) = sum_words m (u32 (sum + load16 m ptr)) (ptr + 2) count

-- A negative count runs neither loop.
unfoldable pub sum_every_16bits : Mem → ℕ → ℤ → ℕ
unfolding sum_words
sum_every_16bits m addr (pos count) = sum_words m 0 addr count
sum_every_16bits m addr (negsuc n) = 0

-- `while (sum >> 16) sum = (sum & 0xffff) + (sum >> 16);`
unfoldable pub fold : ℕ → ℕ → ℕ
fold zero sum = sum
fold (suc fuel) sum =
    let rest = fold fuel (sum % 65536 + sum / 65536) in if sum / 65536 == 0 then sum else rest

-- Two rounds of the loop, and the test that ends it.
abbrev pub fold_fuel : ℕ
fold_fuel = 3

unfoldable pub do_csum : Mem → ℕ → ℤ → ℕ → ℕ
unfolding sum_every_16bits fold
do_csum m addr count start_sum =
    u16 (4294967295 - fold fold_fuel (u32 (start_sum + sum_every_16bits m addr count)))

-- The sum that `do_tcp_csum` starts from.
unfoldable pub pseudo_sum : ℤ → ℕ → ℕ → ℕ → ℕ
unfolding htons
pseudo_sum len protocol saddr daddr =
    u32 (u32 (u32 (saddr + daddr) + htons protocol) + htons (int_to_u16 len))

unfoldable pub do_tcp_csum : Mem → ℕ → ℤ → ℕ → ℕ → ℕ → ℕ
unfolding do_csum pseudo_sum
do_tcp_csum m addr len protocol saddr daddr =
    do_csum m addr len (pseudo_sum len protocol saddr daddr)
