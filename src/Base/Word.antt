-- ===== src/Base/Word.antt =====
-- Casts to the C widths, shifts, the byte swaps of htons and htonl, and `int`.
use mathlib.Core.Bool.{Bool, true, false}
use Prim.Native.Nat.{ℕ, zero, suc, ◌+◌, ◌-◌, ◌*◌, ◌/◌, ◌%◌, ◌<◌}
use mathlib.Core.Path.{◌≡◌}
use native.Mathlib.Omega.{arith}
use anp_netskeleton.Base.Tests.{leb, if◌then◌else◌}

abbrev pub u8 : ℕ → ℕ
u8 n = n % 256

abbrev pub u16 : ℕ → ℕ
u16 n = n % 65536

abbrev pub u32 : ℕ → ℕ
u32 n = n % 4294967296

abbrev pub u64 : ℕ → ℕ
u64 n = n % 18446744073709551616

-- `a - b` of two values of one unsigned type. `-` on ℕ stops at 0, so the modulus comes first.
abbrev pub sub32 : ℕ → ℕ → ℕ
sub32 a b = u32 (a + 4294967296 - u32 b)

abbrev pub sub64 : ℕ → ℕ → ℕ
sub64 a b = u64 (a + 18446744073709551616 - u64 b)

-- `htons` and `ntohs`, `htonl` and `ntohl` on a little-endian host.
unfoldable pub htons : ℕ → ℕ
htons x = x % 256 * 256 + x / 256 % 256

unfoldable pub htonl : ℕ → ℕ
htonl x = x % 256 * 16777216 + x / 256 % 256 * 65536 + x / 65536 % 256 * 256 + x / 16777216 % 256

pub htons-htons : (x : ℕ) → x < 65536 → htons (htons x) ≡ x
unfolding htons
htons-htons x h = omega arith

pub htonl-htonl : (x : ℕ) → x < 4294967296 → htonl (htonl x) ≡ x
unfolding htonl
htonl-htonl x h = omega arith

pub htons-lt : (x : ℕ) → htons x < 65536
unfolding htons
htons-lt x = omega arith

pub htonl-lt : (x : ℕ) → htonl x < 4294967296
unfolding htonl
htonl-lt x = omega arith

-- `int`: `negsuc n` is -(n + 1).
pub data ℤ : Type 0 where
  pos : ℕ → ℤ
  negsuc : ℕ → ℤ

abbrev pub sub_ℕ : ℕ → ℕ → ℤ
sub_ℕ a b = if leb b a then pos (a - b) else negsuc (b - a - 1)

-- The conversions of an `int` to `uint16_t`, `uint32_t` and `size_t`.
abbrev pub int_to_u16 : ℤ → ℕ
int_to_u16 (pos n) = u16 n
int_to_u16 (negsuc n) = 65535 - n % 65536

abbrev pub int_to_u32 : ℤ → ℕ
int_to_u32 (pos n) = u32 n
int_to_u32 (negsuc n) = 4294967295 - n % 4294967296

abbrev pub int_to_size : ℤ → ℕ
int_to_size (pos n) = u64 n
int_to_size (negsuc n) = 18446744073709551615 - n % 18446744073709551616

abbrev pub int_is_zero : ℤ → Bool
int_is_zero (pos zero) = true
int_is_zero _ = false

abbrev pub is_negative : ℤ → Bool
is_negative (pos _) = false
is_negative (negsuc _) = true

abbrev pub minus : ℤ → ℤ
minus (pos zero) = pos zero
minus (pos (suc n)) = negsuc n
minus (negsuc n) = pos (suc n)
