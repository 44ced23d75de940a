-- ===== src/Subuff.antt =====
-- src/subuff.c: the packet buffer. `head` is the block `mem`, and offsets count from its start.
-- `data` can be made to point into another block (the retransmission of a partly acknowledged
-- segment does so): then `other` is that block.
pub mod Queue
pub mod Fifo
pub mod Free
use anp_netskeleton.Base.{ℕ, ◌+◌, Option, none, u32, u64, sub64}
use anp_netskeleton.Memory.{Mem, zeroed}

pub record Subuff : Type 0 where
  pub protocol : ℕ  -- uint16_t
  pub mem : Mem
  pub size : ℕ  -- end - head
  pub other : Option Mem
  pub at : ℕ  -- `data`, as an offset in its block; pointer arithmetic is modulo 2 ^ 64
  pub len : ℕ  -- uint32_t
  pub payload : ℕ  -- offset in `mem`
  pub dlen : ℕ  -- uint32_t

-- `calloc` clears both the struct and the buffer.
unfoldable pub alloc_sub : ℕ → Subuff
alloc_sub size = record {
  protocol = 0;
  mem = zeroed;
  size = size;
  other = none;
  at = 0;
  len = 0;
  payload = 0;
  dlen = 0;
}

unfoldable pub sub_reserve : Subuff → ℕ → Subuff
sub_reserve sub n = record sub { at = u64 (sub.at + n) }

unfoldable pub sub_push : Subuff → ℕ → Subuff
sub_push sub n = record sub { at = sub64 sub.at n; len = u32 (sub.len + n) }

abbrev pub eth_hdr_len : ℕ
eth_hdr_len = 14

abbrev pub ip_hdr_len : ℕ
ip_hdr_len = 20

abbrev pub tcp_hdr_len : ℕ
tcp_hdr_len = 20
