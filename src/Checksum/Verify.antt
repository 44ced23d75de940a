-- ===== src/Checksum/Verify.antt =====
-- src/utilities.c, `do_csum`: the sender's checksum against the receiver's check.
use anp_netskeleton.Base.{ℕ, ◌+◌, ◌-◌, ◌*◌, ◌<◌, ◌≤◌, ◌≡◌, ◌∙◌, refl, u32, arith, pos}
use anp_netskeleton.Memory.{Mem, load16, store16}
use anp_netskeleton.Checksum.{fold, fold_fuel, do_csum}
use anp_netskeleton.Checksum.Fold.{IsFold, fold-IsFold}
use anp_netskeleton.Checksum.Sum.{
  word_sum, sum_every_16bits-word_sum, word_sum-store16, word_sum_bound,
}

-- What `do_csum` returns when the words and the start sum do not overflow 32 bits.
do_csum-word_sum :
    (m : Mem) (addr count start : ℕ)
    → start + word_sum m addr count < 4294967296
    → do_csum m addr (pos count) start ≡ 65535 - fold fold_fuel (start + word_sum m addr count)
unfolding do_csum
do_csum-word_sum m addr count start h =
    let small : u32 (start + u32 (word_sum m addr count)) ≡ start + word_sum m addr count =
      omega arith in
    rw (sum_every_16bits-word_sum m addr count, small)
      (omega (arith, (fold-IsFold (start + word_sum m addr count) h).fits))

-- Two start sums that are equal modulo 65535.
abbrev pub Congruent : ℕ → ℕ → Type 0
Congruent s s' = (a : ℕ) × (b : ℕ) × (s + 65535 * a ≡ s' + 65535 * b)

IsFold-complement :
    {s r s' r' : ℕ} (a b : ℕ)
    → IsFold s r
    → IsFold s' r'
    → s' + 65535 * b ≡ s + (65535 - r) + 65535 * a
    → 0 < s'
    → r' ≡ 65535
IsFold-complement a b f f' e h = omega (arith, f'.positive h)

fold_zero : fold fold_fuel 0 ≡ 0
unfolding fold
fold_zero = refl

module _ (m : Mem) (k addr count start start' : ℕ) (same : Congruent start start')
    (inside : 2 * k + 2 ≤ count) (empty : load16 m (addr + 2 * k) ≡ 0)
    (room : start + 32768 * count < 4294967296)
    (room' : start' + 32768 * count + 65535 < 4294967296)
    (nonzero : start' + word_sum m addr count ≡ 0 → start ≡ 0) where
  sent : ℕ
  sent = do_csum m addr (pos count) start

  sent-closed : sent ≡ 65535 - fold fold_fuel (start + word_sum m addr count)
  unfolding sent
  sent-closed = do_csum-word_sum m addr count start (omega (arith, word_sum_bound m addr count))

  filled : word_sum (store16 m (addr + 2 * k) sent) addr count ≡ word_sum m addr count + sent
  filled =
      omega (arith, sent-closed, word_sum-store16 k m sent (addr + 2 * k) addr count refl inside)

  -- The checksum of a block, stored at an even offset of the block where it had 0, makes the block's
  -- checksum 0, even if that starts from another sum, congruent modulo 65535. The conditions are that
  -- neither sum can overflow 32 bits and, if the other sum and the words of the block are all 0, that
  -- the first sum is 0 too.
  pub do_csum-store16-do_csum :
      do_csum (store16 m (addr + 2 * k) (do_csum m addr (pos count) start)) addr (pos count) start'
      ≡ 0
  unfolding sent
  do_csum-store16-do_csum =
      let m' : Mem = store16 m (addr + 2 * k) sent in
      let total : ℕ = start + word_sum m addr count in
      let total' : ℕ = start' + word_sum m' addr count in
      let bound : word_sum m addr count ≤ 32768 * count = word_sum_bound m addr count in
      let fits : total' < 4294967296 = omega (arith, filled, sent-closed) in
      let positive : 0 < total' =
        grind (
          arith,
          filled,
          sent-closed,
          nonzero,
          (fold-IsFold total (omega arith)).fits,
          fold_zero,
        ) in
      let full : fold fold_fuel total' ≡ 65535 =
        IsFold-complement (same.0) (same.1) (fold-IsFold total (omega arith))
          (fold-IsFold total' fits) (omega (arith, filled, sent-closed, same.2)) positive in
      do_csum-word_sum m' addr count start' fits ∙ omega (arith, full)
