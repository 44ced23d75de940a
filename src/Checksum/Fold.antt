-- ===== src/Checksum/Fold.antt =====
-- src/utilities.c, the folding loop of `do_csum`: its fuel and its value.
use anp_netskeleton.Base.{ℕ, zero, suc, ◌+◌, ◌*◌, ◌/◌, ◌%◌, ◌<◌, ◌≡◌, arith}
use anp_netskeleton.Checksum.{fold, fold_fuel}

-- What the fold of `sum` is: a 16-bit value, equal to `sum` modulo 65535, and 0 only for 0.
pub record IsFold (sum r : ℕ) : Type 0 where
  pub fits : r < 65536
  pub quotient : ℕ
  pub congruent : sum ≡ 65535 * quotient + r
  pub positive : 0 < sum → 0 < r

IsFold-step : (sum r : ℕ) → IsFold (sum % 65536 + sum / 65536) r → IsFold sum r
IsFold-step sum r f = record {
  fits = f.fits;
  quotient = f.quotient + sum / 65536;
  congruent = omega arith;
  positive = λ h. f.positive (omega arith);
}

IsFold-done : (sum : ℕ) → sum < 65536 → IsFold sum sum
IsFold-done sum h = record { fits = h; quotient = 0; congruent = omega arith; positive = λ p. p }

-- One round of the loop.
abbrev round : ℕ → ℕ
round sum = sum % 65536 + sum / 65536

fold-small : (k sum : ℕ) → sum < 65536 → fold k sum ≡ sum
unfolding fold
fold-small zero sum h = omega arith
fold-small (suc k) sum h = ground arith

fold-suc : (k sum : ℕ) → fold (suc k) sum ≡ fold k (round sum)
unfolding fold
fold-suc k sum = ground (arith, fold-small k sum)

fold_closed : (k sum : ℕ) → sum < 4294967296 → fold (suc (suc k)) sum ≡ round (round sum)
fold_closed k sum h =
    omega (arith, fold-suc (suc k) sum, fold-suc k (round sum), fold-small k (round (round sum)))

-- With the fuel of the model, or with any more, the loop has run to the end.
pub fold_enough :
    (k sum : ℕ)
    → sum < 4294967296
    → (fold (suc (suc (suc k))) sum ≡ fold fold_fuel sum) × (fold fold_fuel sum < 65536)
fold_enough k sum h = omega (arith, fold_closed (suc k) sum, fold_closed 1 sum)

pub fold-IsFold : (sum : ℕ) → sum < 4294967296 → IsFold sum (fold fold_fuel sum)
fold-IsFold sum h =
    rw (fold_closed 1 sum h)
      (IsFold-step sum _ (IsFold-step (round sum) _ (IsFold-done _ (omega arith))))
