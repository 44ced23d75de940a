-- ===== src/Programs/Pattern.antt =====
-- server-client/common.c: the pattern that the client sends, and its check.
use anp_netskeleton.Base.{
  ℕ, zero, suc, ◌+◌, ◌<◌, ◌≡◌, ◌≢◌, ◌↔◌, ap, refl, ◌∙◌, List, [], ◌∷◌, Bool-cases, inl, inr,
  if◌then◌else◌, ◌==◌, u8, u32, arith,
}
use anp_netskeleton.Memory.{Mem, load8, store8, bytes}

abbrev pub pattern_start : ℕ
pattern_start = 170  -- PATTERN_START, 0xAA

-- `(start + i) & 0xFF`, in `unsigned int`.
unfoldable pub pattern_byte : ℕ → ℕ
pattern_byte i = u8 (u32 (pattern_start + i))

-- The loops from `i` on, with `n` turns left. The size is an `int` that is not negative.
unfoldable pub write_from : Mem → ℕ → ℕ → Mem
write_from buf i zero = buf
write_from buf i (suc n) = write_from (store8 buf i (pattern_byte i)) (i + 1) n

unfoldable pub write_pattern : Mem → ℕ → Mem
write_pattern buf size = write_from buf 0 size

-- The text that `match_pattern` returns.
pub data Verdict : Type 0 where
  ok_matched : Verdict
  do_not_match : Verdict

unfoldable pub match_from : Mem → ℕ → ℕ → Verdict
match_from buf i zero = ok_matched
match_from buf i (suc n) =
    let rest = match_from buf (i + 1) n in
    if load8 buf i == pattern_byte i then rest else do_not_match

unfoldable pub match_pattern : Mem → ℕ → Verdict
match_pattern buf size = match_from buf 0 size

-- The pattern's bytes from `i` on.
abbrev pub pattern : ℕ → ℕ → List ℕ
pattern i zero = []
pattern i (suc n) = pattern_byte i ∷ pattern (i + 1) n

write_from-before : (buf : Mem) (i n p : ℕ) → p < i → write_from buf i n p ≡ buf p
unfolding write_from store8
write_from-before buf i zero p h = refl
write_from-before buf i (suc n) p h =
    ground (arith, write_from-before (store8 buf i (pattern_byte i)) (i + 1) n p)

pub bytes-write_from : (buf : Mem) (i n : ℕ) → bytes (write_from buf i n) i n ≡ pattern i n
unfolding write_from store8 pattern_byte
bytes-write_from buf i zero = refl
bytes-write_from buf i (suc n) =
    let buf' = store8 buf i (pattern_byte i) in
    let here = write_from-before buf' (i + 1) n i (omega arith) in
    ap (λ xs. u8 (write_from buf' (i + 1) n i) ∷ xs) (bytes-write_from buf' (i + 1) n)
    ∙ ap (λ b. b ∷ pattern (i + 1) n) (ground (arith, here))

pub bytes-write_pattern : (buf : Mem) (n : ℕ) → bytes (write_pattern buf n) 0 n ≡ pattern 0 n
unfolding write_pattern
bytes-write_pattern buf n = bytes-write_from buf 0 n

match_from-pattern :
    (buf : Mem) (i n : ℕ) → (match_from buf i n ≡ ok_matched) ↔ (bytes buf i n ≡ pattern i n)
unfolding match_from load8
match_from-pattern buf i zero = ground arith
match_from-pattern buf i (suc n) =
    let (sound, complete) = match_from-pattern buf (i + 1) n in
    elim (Bool-cases (u8 (buf i) == pattern_byte i)) [
      | inl same ↦
          let head : u8 (buf i) ≡ pattern_byte i = ground arith in
          rw (same, head) (λ e. ap (λ b. pattern_byte i ∷ b) (sound e), λ e. complete (cc e))
      | inr differ ↦
          let head : u8 (buf i) ≢ pattern_byte i = ground arith in
          rw differ (λ e. cc e, λ e. absurd (head (cc e)))
    ]

-- match_pattern accepts a buffer just when its bytes are those that write_pattern writes.
pub match_pattern-write_pattern :
    (buf other : Mem) (size : ℕ)
    → (match_pattern buf size ≡ ok_matched)
      ↔ (bytes buf 0 size ≡ bytes (write_pattern other size) 0 size)
unfolding match_pattern
match_pattern-write_pattern buf other size =
    rw (bytes-write_pattern other size) (match_from-pattern buf 0 size)
