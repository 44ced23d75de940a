-- ===== src/Linklist.antt =====
-- src/linklist.h: circular lists with links in both directions, on a heap of nodes. A node is an
-- address; `live` says which addresses are allocated. An access to a node that is not (it was freed)
-- is a fault, `none`.
pub mod Chain
pub mod Insert
pub mod Delete
pub mod Loops
use mathlib.Core.Option
use anp_netskeleton.Base.{
  ℕ, zero, suc, Bool, true, false, Option, none, some, List, [], ◌∷◌, ◌==◌, if◌then◌else◌, update,
}

-- `struct list_head` at every address.
pub record Heap : Type 0 where
  pub next : ℕ → ℕ
  pub prev : ℕ → ℕ
  pub live : ℕ → Bool

infixl 5 ◌>>=◌
abbrev pub ◌>>=◌ : {A B : Type 0} → Option A → (A → Option B) → Option B
none >>= f = none
some a >>= f = f a

unfoldable pub read_next : Heap → ℕ → Option ℕ
read_next h p = if h.live p then some (h.next p) else none

unfoldable pub read_prev : Heap → ℕ → Option ℕ
read_prev h p = if h.live p then some (h.prev p) else none

unfoldable pub write_next : Heap → ℕ → ℕ → Option Heap
write_next h p v = if h.live p then some (record h { next = update h.next p v }) else none

unfoldable pub write_prev : Heap → ℕ → ℕ → Option Heap
write_prev h p v = if h.live p then some (record h { prev = update h.prev p v }) else none

unfoldable pub list_init : Heap → ℕ → Option Heap
list_init h head = do h1 ← write_next h head head; write_prev h1 head head

unfoldable pub list_add : Heap → ℕ → ℕ → Option Heap
list_add h new head = do
  first ← read_next h head
  h1 ← write_prev h first new
  next ← read_next h1 head
  h2 ← write_next h1 new next
  h3 ← write_prev h2 new head
  write_next h3 head new

unfoldable pub list_add_tail : Heap → ℕ → ℕ → Option Heap
list_add_tail h new head = do
  last ← read_prev h head
  h1 ← write_next h last new
  prev ← read_prev h1 head
  h2 ← write_prev h1 new prev
  h3 ← write_next h2 new head
  write_prev h3 head new

unfoldable pub list_del : Heap → ℕ → Option Heap
list_del h elem = do
  prev ← read_prev h elem
  next ← read_next h elem
  h1 ← write_next h prev next
  write_prev h1 next prev

unfoldable pub list_empty : Heap → ℕ → Option Bool
list_empty h head = do next ← read_next h head; some (next == head)

-- `free` of the struct that holds the node.
unfoldable pub free_node : Heap → ℕ → Heap
free_node h p = record h { live = update h.live p false }

-- How a loop ends: with a state, with a fault, or not within the fuel.
pub data LoopResult (S : Type 0) : Type 0 where
  done : S → LoopResult S
  fault : LoopResult S
  out_of_fuel : LoopResult S

-- The body at `pos`, and then a read of the node behind `p`.
unfoldable pub step_body : (Heap → ℕ → Option Heap) → Heap → ℕ → ℕ → Option (Heap × ℕ)
step_body body h pos p = do h' ← body h pos; next ← read_next h' p; some (h', next)

-- `list_for_each (pos, head)`: the body runs, then `pos->next` is read.
unfoldable pub for_each : (Heap → ℕ → Option Heap) → ℕ → ℕ → Heap → ℕ → LoopResult Heap
for_each body head zero h pos = out_of_fuel
for_each body head (suc fuel) h pos = elim (pos == head) [
  | true ↦ done h
  | false ↦ elim (step_body body h pos pos) [
    | none ↦ fault
    | some (h', next) ↦ for_each body head fuel h' next
  ]
]

unfoldable pub list_for_each : (Heap → ℕ → Option Heap) → ℕ → Heap → ℕ → LoopResult Heap
list_for_each body fuel h head = elim (read_next h head) [
  | none ↦ fault
  | some pos ↦ for_each body head fuel h pos
]

-- `list_for_each_safe (pos, p, head)`: `p` is `pos->next`, read before the body runs.
unfoldable pub for_each_safe : (Heap → ℕ → Option Heap) → ℕ → ℕ → Heap → ℕ → ℕ → LoopResult Heap
for_each_safe body head zero h pos p = out_of_fuel
for_each_safe body head (suc fuel) h pos p = elim (pos == head) [
  | true ↦ done h
  | false ↦ elim (step_body body h pos p) [
    | none ↦ fault
    | some (h', next) ↦ for_each_safe body head fuel h' p next
  ]
]

unfoldable pub enter_safe : Heap → ℕ → Option (ℕ × ℕ)
enter_safe h head = do pos ← read_next h head; p ← read_next h pos; some (pos, p)

unfoldable pub list_for_each_safe : (Heap → ℕ → Option Heap) → ℕ → Heap → ℕ → LoopResult Heap
list_for_each_safe body fuel h head = elim (enter_safe h head) [
  | none ↦ fault
  | some (pos, p) ↦ for_each_safe body head fuel h pos p
]

-- The body of the loops that take nodes out of their list: a node that is to go is unlinked, and the
-- struct that holds it is freed.
unfoldable pub remove_if : (ℕ → Bool) → Heap → ℕ → Option Heap
remove_if gone h pos =
    if gone pos then (do h' ← list_del h pos; some (free_node h' pos)) else some h
