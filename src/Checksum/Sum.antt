-- ===== src/Checksum/Sum.antt =====
-- src/utilities.c, `sum_every_16bits`: the sum of the words of a range, and stores into the range.
use anp_netskeleton.Base.{
  ℕ, zero, suc, ◌+◌, ◌*◌, ◌%◌, ◌<◌, ◌≤◌, ◌≡◌, inl, inr, refl, u32, arith, pos,
}
use anp_netskeleton.Memory.{Mem, load8, load16, store16}
use anp_netskeleton.Memory.Laws.{
  load8-lt, load16-lt, load16-store16, load16-store16_ne, load8-store16_ne,
}
use anp_netskeleton.Checksum.{sum_words, sum_every_16bits}

unfoldable pub word_sum : Mem → ℕ → ℕ → ℕ
word_sum m ptr zero = 0
word_sum m ptr (suc zero) = load8 m ptr
word_sum m ptr (suc (suc count)) = load16 m ptr + word_sum m (ptr + 2) count

sum_words-word_sum :
    (m : Mem) (sum ptr count : ℕ)
    → sum < 4294967296
    → sum_words m sum ptr count ≡ u32 (sum + word_sum m ptr count)
unfolding sum_words word_sum
sum_words-word_sum m sum ptr zero h = omega arith
sum_words-word_sum m sum ptr (suc zero) h = refl
sum_words-word_sum m sum ptr (suc (suc count)) h =
    omega (arith, sum_words-word_sum m (u32 (sum + load16 m ptr)) (ptr + 2) count (omega arith))

-- The C loop computes the word sum modulo 2 ^ 32.
pub sum_every_16bits-word_sum :
    (m : Mem) (ptr count : ℕ) → sum_every_16bits m ptr (pos count) ≡ u32 (word_sum m ptr count)
unfolding sum_every_16bits
sum_every_16bits-word_sum m ptr count =
    omega (arith, sum_words-word_sum m 0 ptr count (omega arith))

pub word_sum_bound : (m : Mem) (ptr count : ℕ) → word_sum m ptr count ≤ 32768 * count
unfolding word_sum
word_sum_bound m ptr zero = omega arith
word_sum_bound m ptr (suc zero) = omega (arith, load8-lt m ptr)
word_sum_bound m ptr (suc (suc count)) =
    omega (arith, load16-lt m ptr, word_sum_bound m (ptr + 2) count)

word_sum-store16_before :
    (m : Mem) (a v ptr count : ℕ)
    → a + 1 < ptr
    → word_sum (store16 m a v) ptr count ≡ word_sum m ptr count
unfolding word_sum
word_sum-store16_before m a v ptr zero h = refl
word_sum-store16_before m a v ptr (suc zero) h = load8-store16_ne m a ptr v (inl h)
word_sum-store16_before m a v ptr (suc (suc count)) h = omega (
  arith,
  load16-store16_ne m a ptr v (inl h),
  word_sum-store16_before m a v (ptr + 2) count (omega arith),
)

word_sum-store16_here :
    (m : Mem) (v ptr count : ℕ)
    → word_sum (store16 m ptr v) ptr (suc (suc count)) + load16 m ptr
      ≡ word_sum m ptr (suc (suc count)) + v % 65536
unfolding word_sum
word_sum-store16_here m v ptr count =
    omega
      (arith, load16-store16 m ptr v, word_sum-store16_before m ptr v (ptr + 2) count (omega arith))

word_sum-store16_first :
    (m : Mem) (v a ptr count : ℕ)
    → a ≡ ptr
    → word_sum (store16 m a v) ptr (suc (suc count)) + load16 m a
      ≡ word_sum m ptr (suc (suc count)) + v % 65536
word_sum-store16_first m v a ptr count e = rw e (word_sum-store16_here m v ptr count)

-- A store to the word `k` of the range exchanges that word in the sum.
pub word_sum-store16 :
    (k : ℕ) (m : Mem) (v a ptr count : ℕ)
    → a ≡ ptr + 2 * k
    → 2 * k + 2 ≤ count
    → word_sum (store16 m a v) ptr count + load16 m a ≡ word_sum m ptr count + v % 65536
unfolding word_sum
word_sum-store16 k m v a ptr zero e h = absurd (omega arith)
word_sum-store16 k m v a ptr (suc zero) e h = absurd (omega arith)
word_sum-store16 zero m v a ptr (suc (suc count)) e h =
    word_sum-store16_first m v a ptr count (omega arith)
word_sum-store16 (suc k) m v a ptr (suc (suc count)) e h = omega (
  arith,
  load16-store16_ne m a ptr v (inr (omega arith)),
  word_sum-store16 k m v a (ptr + 2) count (omega arith) (omega arith),
)
