-- ===== src/Memory/Laws.antt =====
-- Loads behind stores and copies.
use native.Mathlib.Nat.{add-zero, zero-add}
use anp_netskeleton.Base.{
  length, ℕ, zero, suc, ◌+◌, ◌%◌, ◌<◌, ◌≡◌, ◌⊎◌, u8, ap, refl, ◌∷◌, ◌++◌, arith,
}
use anp_netskeleton.Memory.{Mem, load8, load16, load32, store16, store32, bytes}

pub load8-lt : (m : Mem) (a : ℕ) → load8 m a < 256
unfolding load8
load8-lt m a = omega arith

pub load16-lt : (m : Mem) (a : ℕ) → load16 m a < 65536
unfolding load16
load16-lt m a = omega arith

pub load32-lt : (m : Mem) (a : ℕ) → load32 m a < 4294967296
unfolding load32
load32-lt m a = omega arith

pub load16-store16 : (m : Mem) (a v : ℕ) → load16 (store16 m a v) a ≡ v % 65536
unfolding load16 store16
load16-store16 m a v = ground arith

pub load16-store16_ne :
    (m : Mem) (a b v : ℕ) → (a + 1 < b) ⊎ (b + 1 < a) → load16 (store16 m a v) b ≡ load16 m b
unfolding load16 store16
load16-store16_ne m a b v h = ground arith

pub load8-store16_ne :
    (m : Mem) (a b v : ℕ) → (a + 1 < b) ⊎ (b < a) → load8 (store16 m a v) b ≡ load8 m b
unfolding load8 store16
load8-store16_ne m a b v h = ground arith

pub load32-store32 : (m : Mem) (a v : ℕ) → load32 (store32 m a v) a ≡ v % 4294967296
unfolding load32 store32
load32-store32 m a v = ground arith

pub load32-store16_ne :
    (m : Mem) (a b v : ℕ) → (a + 1 < b) ⊎ (b + 3 < a) → load32 (store16 m a v) b ≡ load32 m b
unfolding load32 store16
load32-store16_ne m a b v h = ground arith

pub load32-store32_ne :
    (m : Mem) (a b v : ℕ) → (a + 3 < b) ⊎ (b + 3 < a) → load32 (store32 m a v) b ≡ load32 m b
unfolding load32 store32
load32-store32_ne m a b v h = ground arith

pub bytes-append : (m : Mem) (a n k : ℕ) → bytes m a (n + k) ≡ bytes m a n ++ bytes m (a + n) k
bytes-append m a zero k = rw (zero-add, add-zero)
bytes-append m a (suc n) k =
    let longer : suc n + k ≡ suc (n + k) = omega arith in
    let further : a + suc n ≡ a + 1 + n = omega arith in
    rw (longer, further) (ap (λ l. u8 (m a) ∷ l) (bytes-append m (a + 1) n k))

pub length-bytes : (m : Mem) (a n : ℕ) → length (bytes m a n) ≡ n
length-bytes m a zero = refl
length-bytes m a (suc n) = ap suc (length-bytes m (a + 1) n)

-- Two blocks that agree on a range have the same bytes there.
pub bytes_ext :
    (m m' : Mem) (a b n : ℕ)
    → ((i : ℕ) → i < n → u8 (m (a + i)) ≡ u8 (m' (b + i)))
    → bytes m a n ≡ bytes m' b n
bytes_ext m m' a b zero h = refl
bytes_ext m m' a b (suc n) h = cc (
  h 0 (omega arith),
  add-zero a,
  add-zero b,
  bytes_ext m m' (a + 1) (b + 1) n (λ i p. cc (h (suc i) (omega arith), shift a i, shift b i)),
)
  where
    shift : (c i : ℕ) → c + suc i ≡ c + 1 + i
    shift c i = omega arith
