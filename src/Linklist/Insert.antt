-- ===== src/Linklist/Insert.antt =====
-- src/linklist.h, `list_add` and `list_add_tail`: what they make of a list.
use anp_netskeleton.Base.{ℕ, ◌≡◌, ◌≢◌, refl, true, some, List, [], ◌∷◌, ◌++◌, update, arith}
use anp_netskeleton.Linklist.{
  Heap, list_add, list_add_tail, read_next, read_prev, write_next, write_prev,
}
use anp_netskeleton.Linklist.Chain.{
  has-ne, ◌∉◌, Distinct, Chain, IsList, Chain-frame, AllLive-has, Became, Distinct-snoc,
  AllLive-snoc, prev-has, next-has,
}

-- The heap after `list_add`, and after `list_add_tail`.
abbrev added : Heap → ℕ → ℕ → Heap
added h new head = record h {
  next = update (update h.next new (h.next head)) head new;
  prev = update (update h.prev (h.next head) new) new head;
}

abbrev added_tail : Heap → ℕ → ℕ → Heap
added_tail h new head = record h {
  next = update (update h.next (h.prev head) new) new head;
  prev = update (update h.prev new (h.prev head)) head new;
}

list_add-added :
    (h : Heap) (new head : ℕ)
    → h.live head ≡ true
    → h.live (h.next head) ≡ true
    → h.live new ≡ true
    → list_add h new head ≡ some (added h new head)
unfolding list_add read_next write_next write_prev
list_add-added h new head lh lf ln = rw (lh, lf, lh, ln, ln, lh) refl

list_add_tail-added_tail :
    (h : Heap) (new head : ℕ)
    → h.live head ≡ true
    → h.live (h.prev head) ≡ true
    → h.live new ≡ true
    → list_add_tail h new head ≡ some (added_tail h new head)
unfolding list_add_tail read_prev write_next write_prev
list_add_tail-added_tail h new head lh ll ln = rw (lh, ll, lh, ln, ln, lh) refl

added-Chain :
    (h : Heap) (new head : ℕ) (xs : List ℕ)
    → Chain h head xs head
    → Distinct (head ∷ xs)
    → new ∉ (head ∷ xs)
    → Chain (added h new head) head (new ∷ xs) head
added-Chain h new head [] (n, p) d out = ground arith
added-Chain h new head (x ∷ xs) (n, p, c) (a, (o, d)) out =
    let rest : Chain (added h new head) x xs head =
      Chain-frame h (added h new head) x head xs (λ q i. ground arith)
        (λ q i. ground (arith, has-ne q x xs)) c in
    ground (arith, rest)

added_tail-Chain :
    (h : Heap) (new a b : ℕ) (xs : List ℕ)
    → Chain h a xs b
    → Distinct (a ∷ xs)
    → b ∉ xs
    → new ∉ (a ∷ xs)
    → new ≢ b
    → Chain (added_tail h new b) a (xs ++ (new ∷ [])) b
added_tail-Chain h new a b [] (n, p) d end_ out other = ground arith
added_tail-Chain h new a b (x ∷ xs) (n, p, c) (o, d) end_ out other =
    let rest = added_tail-Chain h new x b xs c d (ground arith) (ground arith) other in
    let apart : a ≢ h.prev b = has-ne (h.prev b) a (x ∷ xs) (prev-has h x b xs c) o in
    ground (arith, rest)

-- On a list list_add puts an allocated node that is not in it to the front: the heap then holds
-- the longer list, linked in both directions, and no link of another node outside the list has
-- changed.
pub list_add-Became :
    (h : Heap) (new head : ℕ) (xs : List ℕ)
    → IsList h head xs
    → new ∉ (head ∷ xs)
    → h.live new ≡ true
    → (h' : Heap) × (list_add h new head ≡ some h')
      × Became h h' (new ∷ (head ∷ xs)) head (new ∷ xs)
list_add-Became h new head xs l out ln =
    let first = next-has h head head xs l.chain in
    let lf : h.live (h.next head) ≡ true = AllLive-has h (head ∷ xs) (h.next head) l.live first in
    let apart : (p : ℕ) → p ∉ (head ∷ xs) → p ≢ h.next head =
      λ p o. has-ne (h.next head) p (head ∷ xs) first o in
    (
      added h new head,
      list_add-added h new head (l.live.0) lf ln,
      record {
        list = record {
          chain = added-Chain h new head xs l.chain l.distinct out;
          distinct = ground (arith, l.distinct);
          live = (l.live.0, (ln, l.live.1));
        };
        live = refl;
        next_outside = λ p o. ground arith;
        prev_outside = λ p o. ground (arith, apart p);
      },
    )

-- The same for `list_add_tail`, at the end of the list.
pub list_add_tail-Became :
    (h : Heap) (new head : ℕ) (xs : List ℕ)
    → IsList h head xs
    → new ∉ (head ∷ xs)
    → h.live new ≡ true
    → (h' : Heap) × (list_add_tail h new head ≡ some h')
      × Became h h' (new ∷ (head ∷ xs)) head (xs ++ (new ∷ []))
list_add_tail-Became h new head xs l out ln =
    let last = prev-has h head head xs l.chain in
    let ll : h.live (h.prev head) ≡ true = AllLive-has h (head ∷ xs) (h.prev head) l.live last in
    let apart : (p : ℕ) → p ∉ (head ∷ xs) → p ≢ h.prev head =
      λ p o. has-ne (h.prev head) p (head ∷ xs) last o in
    (
      added_tail h new head,
      list_add_tail-added_tail h new head (l.live.0) ll ln,
      record {
        list = record {
          chain =
              added_tail-Chain h new head head xs l.chain l.distinct (l.distinct.0) out
                (ground arith);
          distinct = Distinct-snoc new (head ∷ xs) l.distinct out;
          live = AllLive-snoc h new (head ∷ xs) l.live ln;
        };
        live = refl;
        next_outside = λ p o. ground (arith, apart p);
        prev_outside = λ p o. ground arith;
      },
    )
