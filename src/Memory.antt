-- ===== src/Memory.antt =====
-- A block of memory as the C code sees it through a `uint8_t *`: the byte at each offset from the
-- block's start. Loads and stores of wider fields are those of a little-endian host, and the
-- structs of the headers (packed) are read and written by offset.
pub mod Laws
pub mod Agree
use anp_netskeleton.Base.{
  ℕ, zero, suc, ◌+◌, ◌-◌, ◌*◌, ◌/◌, ◌<◌, Bool, ◌&&◌, List, [], ◌∷◌, ltb, leb, ◌==◌, if◌then◌else◌,
  u8,
}

abbrev pub Mem : Type 0
Mem = ℕ → ℕ

-- `calloc`
abbrev pub zeroed : Mem
zeroed _ = 0

unfoldable pub load8 : Mem → ℕ → ℕ
load8 m a = u8 (m a)

unfoldable pub load16 : Mem → ℕ → ℕ
unfolding load8
load16 m a = load8 m a + load8 m (a + 1) * 256

unfoldable pub load32 : Mem → ℕ → ℕ
unfolding load16
load32 m a = load16 m a + load16 m (a + 2) * 65536

unfoldable pub store8 : Mem → ℕ → ℕ → Mem
store8 m a v x = if x == a then u8 v else m x

unfoldable pub store16 : Mem → ℕ → ℕ → Mem
unfolding store8
store16 m a v = store8 (store8 m a v) (a + 1) (v / 256)

unfoldable pub store32 : Mem → ℕ → ℕ → Mem
unfolding store16
store32 m a v = store16 (store16 m a v) (a + 2) (v / 65536)

-- `memcpy (dst + a, src + b, n)`, and `memmove` within one block.
unfoldable pub memcpy : Mem → ℕ → Mem → ℕ → ℕ → Mem
memcpy dst a src b n x = if leb a x && ltb x (a + n) then src (b + (x - a)) else dst x

-- The bytes of a range, as they go to the device or to the user.
abbrev pub bytes : Mem → ℕ → ℕ → List ℕ
bytes m a zero = []
bytes m a (suc n) = u8 (m a) ∷ bytes m (a + 1) n
