-- ===== src/Memory/Agree.antt =====
-- Two blocks with the same bytes on a range, and what is loaded from there.
use anp_netskeleton.Base.{ℕ, ◌+◌, ◌/◌, ◌<◌, ◌≤◌, ◌≡◌, ◌∙◌, refl, u8, ◌==◌, false, arith}
use anp_netskeleton.Memory.{Mem, load8, load16, load32, store8, store16, store32, bytes}
use anp_netskeleton.Memory.Laws.{bytes_ext}

-- The bytes from `lo` to before `hi`.
pub record Agree (m m' : Mem) (lo hi : ℕ) : Type 0 where
  pub byte : (i : ℕ) → lo ≤ i → i < hi → u8 (m i) ≡ u8 (m' i)

pub Agree-trans :
    {m m' m'' : Mem} {lo hi : ℕ} → Agree m m' lo hi → Agree m' m'' lo hi → Agree m m'' lo hi
Agree-trans h h' = record { byte = λ i a b. h.byte i a b ∙ h'.byte i a b }

pub Agree-within :
    {m m' : Mem} {lo hi : ℕ} (lo' hi' : ℕ)
    → lo ≤ lo'
    → hi' ≤ hi
    → Agree m m' lo hi
    → Agree m m' lo' hi'
Agree-within lo' hi' low high h = record {
  byte = λ i a b. h.byte i (omega (arith, low, a)) (omega (arith, high, b));
}

module _ {m m' : Mem} {lo hi : ℕ} (h : Agree m m' lo hi) where
  pub load8-Agree : (a : ℕ) → lo ≤ a → a + 1 ≤ hi → load8 m a ≡ load8 m' a
  unfolding load8
  load8-Agree a low high = h.byte a low (omega (arith, high))

  pub load16-Agree : (a : ℕ) → lo ≤ a → a + 2 ≤ hi → load16 m a ≡ load16 m' a
  unfolding load16
  load16-Agree a low high =
      let first = load8-Agree a low (omega (arith, high)) in
      let second = load8-Agree (a + 1) (omega (arith, low)) (omega (arith, high)) in
      rw (first, second) refl

  pub load32-Agree : (a : ℕ) → lo ≤ a → a + 4 ≤ hi → load32 m a ≡ load32 m' a
  unfolding load32
  load32-Agree a low high =
      let first = load16-Agree a low (omega (arith, high)) in
      let second = load16-Agree (a + 2) (omega (arith, low)) (omega (arith, high)) in
      rw (first, second) refl

  pub bytes-Agree : (a n : ℕ) → lo ≤ a → a + n ≤ hi → bytes m a n ≡ bytes m' a n
  bytes-Agree a n low high =
      bytes_ext m m' a a n (λ i p. h.byte (a + i) (omega (arith, low)) (omega (arith, high, p)))

-- Stores below the range.
module _ {x m : Mem} {lo hi : ℕ} (a v : ℕ) (h : Agree x m lo hi) where
  pub store8-Agree : a + 1 ≤ lo → Agree (store8 x a v) m lo hi
  unfolding store8
  store8-Agree below = record {
    byte =
        λ i low high. let other : (i == a) ≡ false = ground arith in rw other (h.byte i low high);
  }

pub store16-Agree :
    {x m : Mem} {lo hi : ℕ} (a v : ℕ) → Agree x m lo hi → a + 2 ≤ lo → Agree (store16 x a v) m lo hi
unfolding store16
store16-Agree a v h below =
    store8-Agree (a + 1) (v / 256) (store8-Agree a v h (omega (arith, below)))
      (omega (arith, below))

pub store32-Agree :
    {x m : Mem} {lo hi : ℕ} (a v : ℕ) → Agree x m lo hi → a + 4 ≤ lo → Agree (store32 x a v) m lo hi
unfolding store32
store32-Agree a v h below =
    store16-Agree (a + 2) (v / 65536) (store16-Agree a v h (omega (arith, below)))
      (omega (arith, below))

pub Agree-refl : {m : Mem} {lo hi : ℕ} → Agree m m lo hi
Agree-refl = record { byte = λ i low high. refl }
