-- ===== src/Subuff/Queue.antt =====
-- src/subuff.h: the queue of packet buffers, on the heap of Linklist. The list node is the first
-- member of `struct subuff`, so that both have one address.
use anp_netskeleton.Base.{
  ℕ, zero, suc, ◌+◌, Bool, Option, none, some, ltb, if◌then◌else◌, u32, sub32,
}
use anp_netskeleton.Linklist.{
  Heap, ◌>>=◌, LoopResult, done, fault, out_of_fuel, list_init, list_add_tail, list_del, read_next,
  free_node,
}

-- `struct subuff_head` at the address `head`, and the heap.
pub record SubuffHead : Type 0 where
  pub heap : Heap
  pub head : ℕ
  pub queue_len : ℕ  -- uint32_t

unfoldable pub sub_queue_len : SubuffHead → ℕ
sub_queue_len list = list.queue_len

unfoldable pub sub_queue_init : SubuffHead → Option SubuffHead
sub_queue_init list = do
  h ← list_init list.heap list.head
  some (record list { heap = h; queue_len = 0 })

unfoldable pub sub_queue_add : SubuffHead → ℕ → ℕ → Option SubuffHead
sub_queue_add list new next = do
  h ← list_add_tail list.heap new next
  some (record list { heap = h; queue_len = u32 (list.queue_len + 1) })

unfoldable pub sub_queue_tail : SubuffHead → ℕ → Option SubuffHead
sub_queue_tail list new = do
  h ← list_add_tail list.heap new list.head
  some (record list { heap = h; queue_len = u32 (list.queue_len + 1) })

-- On an empty list the buffer returned is the list's own head, and the length wraps around.
unfoldable pub sub_dequeue : SubuffHead → Option (SubuffHead × ℕ)
sub_dequeue list = do
  skb ← read_next list.heap list.head
  h ← list_del list.heap skb
  some (record list { heap = h; queue_len = sub32 list.queue_len 1 }, skb)

unfoldable pub sub_queue_empty : SubuffHead → Bool
unfolding sub_queue_len
sub_queue_empty list = ltb (sub_queue_len list) 1

-- `NULL` is `some none`; `none` is a fault.
unfoldable pub sub_peek : SubuffHead → Option (Option ℕ)
sub_peek list =
    if sub_queue_empty list
    then some none
    else (do skb ← read_next list.heap list.head; some (some skb))

-- The packet's data, which is freed too, is not part of this heap.
unfoldable pub free_sub : SubuffHead → ℕ → SubuffHead
free_sub list skb = record list { heap = free_node list.heap skb }

-- What `sub_queue_free` does with the first buffer; `none` where there is none.
unfoldable pub free_first : SubuffHead → Option (Option SubuffHead)
free_first list = do
  first ← sub_peek list
  elim first [
    | none ↦ some none
    | some skb ↦ (do (list', _) ← sub_dequeue list; some (some (free_sub list' skb)))
  ]

unfoldable pub sub_queue_free : ℕ → SubuffHead → LoopResult SubuffHead
sub_queue_free zero list = out_of_fuel
sub_queue_free (suc fuel) list = elim (free_first list) [
  | none ↦ fault
  | some none ↦ done list
  | some (some list') ↦ sub_queue_free fuel list'
]
