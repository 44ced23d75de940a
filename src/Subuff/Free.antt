-- ===== src/Subuff/Free.antt =====
-- src/subuff.h, `sub_queue_free`.
use anp_netskeleton.Base.{
  ℕ, zero, suc, ◌<◌, ◌≡◌, ap, refl, false, some, List, [], ◌∷◌, length, if◌then◌else◌, update,
  arith,
}
use anp_netskeleton.Linklist.{free_node, done}
use anp_netskeleton.Linklist.Chain.{has, ◌∉◌, free_node-IsList}
use anp_netskeleton.Subuff.Queue.{SubuffHead, sub_queue_free, free_sub, free_first}
use anp_netskeleton.Subuff.Fifo.{Holds, sub_dequeue-Kept, sub_peek-empty, sub_peek-first}

-- After `sub_queue_free` the queue is empty, and of the structs just those of its buffers are freed.
pub record Freed (q q' : SubuffHead) (xs : List ℕ) : Type 0 where
  pub empty : Holds q' []
  pub live : (p : ℕ) → q'.heap.live p ≡ (if has p xs then false else q.heap.live p)

free_first-Kept :
    (q : SubuffHead) (x : ℕ) (xs : List ℕ)
    → Holds q (x ∷ xs)
    → (q' : SubuffHead) × (free_first q ≡ some (some q'))
      × Holds q' xs
      × (q'.heap.live ≡ update q.heap.live x false)
unfolding free_first free_sub free_node
free_first-Kept q x xs hold =
    let (q1, e, kept) = sub_dequeue-Kept q x xs hold in
    let out : x ∉ (q1.head ∷ xs) =
      ground (arith, kept.head, hold.list.distinct.0, hold.list.distinct.1.0) in
    (
      free_sub q1 x,
      rw (sub_peek-first q x xs hold, e) refl,
      record {
        list = free_node-IsList q1.heap x q1.head xs out kept.holds.list;
        count = kept.holds.count;
        fits = kept.holds.fits;
      },
      ap (λ l. update l x false) kept.live,
    )

-- sub_queue_free ends, with the queue empty and of all structs just those of its buffers freed.
-- The condition is that the fuel is more than the length of the queue.
pub sub_queue_free-Freed :
    (fuel : ℕ) (q : SubuffHead) (xs : List ℕ)
    → Holds q xs
    → length xs < fuel
    → (q' : SubuffHead) × (sub_queue_free fuel q ≡ done q') × Freed q q' xs
unfolding sub_queue_free free_first
sub_queue_free-Freed zero q xs hold enough = absurd (omega arith)
sub_queue_free-Freed (suc fuel) q [] hold enough =
    (q, rw (sub_queue_free, sub_peek-empty q hold) refl, record { empty = hold; live = λ p. refl })
sub_queue_free-Freed (suc fuel) q (x ∷ xs) hold enough =
    let (q1, e, hold1, live1) = free_first-Kept q x xs hold in
    let (q2, run, freed) = sub_queue_free-Freed fuel q1 xs hold1 (omega arith) in
    (
      q2,
      rw (sub_queue_free, e) run,
      record { empty = freed.empty; live = λ p. ground (arith, freed.live p, ap (λ f. f p) live1) },
    )
