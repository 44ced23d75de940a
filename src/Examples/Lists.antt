-- ===== src/Examples/Lists.antt =====
-- The theorems on lists of nodes and on the queue of buffers, applied to a heap of a few nodes.
use anp_netskeleton.Base.{ℕ, ◌≡◌, refl, Bool, some, List, [], ◌∷◌, ◌==◌, ltb, if◌then◌else◌, arith}
use anp_netskeleton.Linklist.{Heap, done, fault, list_for_each, list_for_each_safe, remove_if}
use anp_netskeleton.Linklist.Chain.{IsList}
use anp_netskeleton.Linklist.Loops.{any, Cleared, list_for_each-verdict, list_for_each_safe-Cleared}
use anp_netskeleton.Subuff.Queue.{SubuffHead, sub_queue_free}
use anp_netskeleton.Subuff.Free.{Freed, sub_queue_free-Freed}
use anp_netskeleton.Subuff.Fifo.{
  Call, tail, dequeue, peek, queue_len, calls, specs, Holds, calls-specs,
}

-- The head 1 and the nodes 2 and 3 in a ring; the node 4 is in no list.
abbrev ring : Heap
ring = record {
  next = λ p. if p == 1 then 2 else if p == 2 then 3 else 1;
  prev = λ p. if p == 1 then 3 else if p == 3 then 2 else 1;
  live = λ p. ltb p 5;
}

abbrev two_nodes : List ℕ
two_nodes = 2 ∷ (3 ∷ [])

ring-IsList : IsList ring 1 two_nodes
ring-IsList = record {
  chain = (refl, refl, (refl, refl, (refl, refl)));
  distinct = (refl, (refl, (refl, tt)));
  live = (refl, (refl, (refl, tt)));
}

abbrev is_two : ℕ → Bool
is_two p = p == 2

list_for_each-verdict_example :
    list_for_each (remove_if is_two) 3 ring 1 ≡ (if any is_two two_nodes then fault else done ring)
list_for_each-verdict_example =
    list_for_each-verdict is_two 1 ring two_nodes 3 (omega arith) ring-IsList

list_for_each_safe-Cleared_example :
    (h' : Heap) × (list_for_each_safe (remove_if is_two) 3 ring 1 ≡ done h')
    × Cleared is_two ring h' 1 [] two_nodes
list_for_each_safe-Cleared_example =
    list_for_each_safe-Cleared is_two 1 ring two_nodes 3 (omega arith) ring-IsList

abbrev two_buffers : SubuffHead
two_buffers = record { heap = ring; head = 1; queue_len = 2 }

two_buffers-Holds : Holds two_buffers two_nodes
two_buffers-Holds = record { list = ring-IsList; count = refl; fits = omega arith }

abbrev some_calls : List Call
some_calls = peek ∷ (tail 4 ∷ (dequeue ∷ (queue_len ∷ [])))

calls-specs_example :
    (q' : SubuffHead) × (calls two_buffers some_calls ≡ some (q', (specs two_nodes some_calls).1))
    × Holds q' ((specs two_nodes some_calls).0)
calls-specs_example =
    calls-specs two_buffers two_nodes some_calls two_buffers-Holds
      (tt, ((refl, refl, omega arith), (omega arith, (tt, tt))))

sub_queue_free-Freed_example :
    (q' : SubuffHead) × (sub_queue_free 3 two_buffers ≡ done q') × Freed two_buffers q' two_nodes
sub_queue_free-Freed_example =
    sub_queue_free-Freed 3 two_buffers two_nodes two_buffers-Holds (omega arith)
