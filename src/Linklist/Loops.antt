-- ===== src/Linklist/Loops.antt =====
-- src/linklist.h, `list_for_each` and `list_for_each_safe`, with a body that frees nodes: the loops of
-- `stop_retransmit` and `tcp_retransmit_handler` (src/tcp.c), `timers_tick` (src/timer.c),
-- `free_arp_cache` (src/arp.c) and `free_routes` (src/route.c).
use mathlib.Core.List.{append_assoc}
use anp_netskeleton.Base.{
  ℕ, zero, suc, ◌<◌, ◌≡◌, ◌∙◌, ap, sym, subst, refl, Bool, true, false, ◌&&◌, inl, inr, Bool-cases,
  ◌||◌, some, List, [], ◌∷◌, ◌++◌, length, ◌==◌, if◌then◌else◌, update, arith,
}
use anp_netskeleton.Linklist.{
  Heap, read_next, free_node, LoopResult, done, fault, for_each, list_for_each, for_each_safe,
  list_for_each_safe, enter_safe, step_body, remove_if,
}
use anp_netskeleton.Linklist.Chain.{
  has, has-append, ◌∉◌, IsList, AllLive-has, first_or, next-first_or, next-inside, Distinct-middle,
  free_node-IsList,
}
use anp_netskeleton.Linklist.Delete.{remove, list_del-Became}

-- The nodes that stay.
unfoldable pub keep : (ℕ → Bool) → List ℕ → List ℕ
keep gone [] = []
keep gone (x ∷ xs) = if gone x then keep gone xs else x ∷ keep gone xs

abbrev pub any : (ℕ → Bool) → List ℕ → Bool
any gone [] = false
any gone (x ∷ xs) = gone x || any gone xs

remove-middle : (x : ℕ) (xs ys : List ℕ) → x ∉ xs → remove x (xs ++ (x ∷ ys)) ≡ xs ++ ys
remove-middle x [] ys o = ground arith
remove-middle x (y ∷ xs) ys o = ground (arith, remove-middle x xs ys)

-- What the body does to the node `x` of a list: nothing, or the node is gone and its struct freed.
data Visited (gone : ℕ → Bool) (h : Heap) (head x : ℕ) (pre rest : List ℕ) : Type 0 where
  kept : gone x ≡ false → remove_if gone h x ≡ some h → Visited gone h head x pre rest
  freed :
      (h' : Heap)
      → gone x ≡ true
      → remove_if gone h x ≡ some h'
      → IsList h' head (pre ++ rest)
      → h'.live ≡ update h.live x false
      → Visited gone h head x pre rest

visit :
    (gone : ℕ → Bool) (h : Heap) (head x : ℕ) (pre rest : List ℕ)
    → IsList h head (pre ++ (x ∷ rest))
    → Visited gone h head x pre rest
unfolding remove_if free_node
visit gone h head x pre rest l = elim (Bool-cases (gone x)) [
  | inr stays ↦ kept stays (rw stays refl)
  | inl goes ↦
      let (apart, apart') = Distinct-middle x pre rest (l.distinct.1) in
      let inside : has x (pre ++ (x ∷ rest)) ≡ true = ground (arith, has-append x pre (x ∷ rest)) in
      let (h1, e, became) = list_del-Became h x head (pre ++ (x ∷ rest)) l inside in
      let list : IsList h1 head (pre ++ rest) =
        subst (IsList h1 head) (remove-middle x pre rest apart) became.list in
      let out : x ∉ (head ∷ (pre ++ rest)) =
        ground (arith, has-append x pre rest, has-append head pre (x ∷ rest), l.distinct.0) in
      freed (free_node h1 x) goes (rw (goes, e) refl)
        (free_node-IsList h1 x head (pre ++ rest) out list)
        (ap (λ live. update live x false) became.live)
]

-- How `list_for_each` with such a body ends: with the heap as it was, or with an access to freed memory.
verdict : Bool → Heap → LoopResult Heap
verdict faults h = if faults then fault else done h

for_each-verdict :
    (gone : ℕ → Bool) (head : ℕ) (h : Heap) (cur pre : List ℕ) (fuel : ℕ)
    → length cur < fuel
    → IsList h head (pre ++ cur)
    → for_each (remove_if gone) head fuel h (first_or head cur) ≡ verdict (any gone cur) h
unfolding for_each step_body read_next verdict
for_each-verdict gone head h cur pre zero enough l = absurd (omega arith)
for_each-verdict gone head h [] pre (suc fuel) enough l =
    let same : (head == head) ≡ true = ground arith in rw (for_each, same) refl
for_each-verdict gone head h (x ∷ rest) pre (suc fuel) enough l =
    let lx : h.live x ≡ true =
      AllLive-has h (pre ++ (x ∷ rest)) x (l.live.1)
        (ground (arith, has-append x pre (x ∷ rest))) in
    let not_head : (x == head) ≡ false =
      ground (arith, has-append head pre (x ∷ rest), l.distinct.0) in
    elim (visit gone h head x pre rest l) [
      | kept stays e ↦
          let next : h.next x ≡ first_or head rest = next-inside h head head x pre rest l.chain in
          let ih =
            for_each-verdict gone head h rest (pre ++ (x ∷ [])) fuel (omega arith)
              (subst (IsList h head) (sym (append_assoc pre (x ∷ []) rest)) l) in
          rw (for_each, not_head, e, lx, next, stays) ih
      | freed h' goes e list live ↦
          let dead : h'.live x ≡ false = ap (λ f. f x) live ∙ ground arith in
          rw (for_each, not_head, e, dead, goes) refl
    ]

-- list_for_each with the same body, as stop_retransmit and tcp_retransmit_handler use it: where
-- no node of the list is to go, it runs to the end and leaves the heap as it is; where one is, it
-- reads the link of a node that has been freed. The condition is that the fuel is more than the
-- length of the list.
pub list_for_each-verdict :
    (gone : ℕ → Bool) (head : ℕ) (h : Heap) (xs : List ℕ) (fuel : ℕ)
    → length xs < fuel
    → IsList h head xs
    → list_for_each (remove_if gone) fuel h head ≡ (if any gone xs then fault else done h)
unfolding list_for_each read_next verdict
list_for_each-verdict gone head h xs fuel enough l =
    let lh : h.live head ≡ true = l.live.0 in
    let next : h.next head ≡ first_or head xs = next-first_or h head head xs l.chain in
    rw (list_for_each, lh, next) (for_each-verdict gone head h xs [] fuel enough l)

-- From `h` to `h'` the nodes of `cur` that are to go have left the list, and their structs are freed.
pub record Cleared (gone : ℕ → Bool) (h h' : Heap) (head : ℕ) (pre cur : List ℕ) : Type 0 where
  pub list : IsList h' head (pre ++ keep gone cur)
  pub live : (p : ℕ) → h'.live p ≡ (if gone p && has p cur then false else h.live p)

first_or-live :
    (h : Heap) (head : ℕ) (pre rest : List ℕ)
    → IsList h head (pre ++ rest)
    → h.live (first_or head rest) ≡ true
first_or-live h head pre [] l = l.live.0
first_or-live h head pre (y ∷ rest) l =
    AllLive-has h (pre ++ (y ∷ rest)) y (l.live.1) (ground (arith, has-append y pre (y ∷ rest)))

for_each_safe-Cleared :
    (gone : ℕ → Bool) (head : ℕ) (h : Heap) (cur pre : List ℕ) (fuel pos : ℕ)
    → length cur < fuel
    → IsList h head (pre ++ cur)
    → pos ≡ first_or head cur
    → (h' : Heap) × (for_each_safe (remove_if gone) head fuel h pos (h.next pos) ≡ done h')
      × Cleared gone h h' head pre cur
unfolding for_each_safe step_body read_next keep
for_each_safe-Cleared gone head h cur pre zero pos enough l at = absurd (omega arith)
for_each_safe-Cleared gone head h [] pre (suc fuel) pos enough l at =
    let same : (pos == head) ≡ true = ground arith in
    (h, rw (for_each_safe, same) refl, record { list = l; live = λ q. ground arith })
for_each_safe-Cleared gone head h (x ∷ rest) pre (suc fuel) pos enough l at =
    let not_head : (pos == head) ≡ false =
      ground (arith, has-append head pre (x ∷ rest), l.distinct.0) in
    let next : h.next pos ≡ first_or head rest =
      ap h.next at ∙ next-inside h head head x pre rest l.chain in
    elim (visit gone h head x pre rest l) [
      | kept stays e ↦
          let l' : IsList h head ((pre ++ (x ∷ [])) ++ rest) =
            subst (IsList h head) (sym (append_assoc pre (x ∷ []) rest)) l in
          let lp : h.live (h.next pos) ≡ true =
            ap h.live next ∙ first_or-live h head (pre ++ (x ∷ [])) rest l' in
          let e' : remove_if gone h pos ≡ some h = ap (remove_if gone h) at ∙ e in
          let (h', run, swept) =
            for_each_safe-Cleared gone head h rest (pre ++ (x ∷ [])) fuel (h.next pos) (omega arith)
              l' next in
          (
            h',
            rw (for_each_safe, not_head, e', lp) run,
            record {
              list =
                  rw stays (
                    subst (IsList h' head) (append_assoc pre (x ∷ []) (keep gone rest)) swept.list);
              live = λ q. ground (arith, swept.live q, ap gone);
            },
          )
      | freed h1 goes e list live ↦
          let lp : h1.live (h.next pos) ≡ true =
            ap h1.live next ∙ first_or-live h1 head pre rest list in
          let e' : remove_if gone h pos ≡ some h1 = ap (remove_if gone h) at ∙ e in
          let (h', run, swept) =
            for_each_safe-Cleared gone head h1 rest pre fuel (h.next pos) (omega arith) list next in
          (
            h',
            rw (for_each_safe, not_head, e', lp) run,
            record {
              list = rw goes swept.list;
              live = λ q. ground (arith, swept.live q, ap (λ f. f q) live);
            },
          )
    ]

-- list_for_each_safe, with a body that unlinks and frees the nodes that are to go, runs to the
-- end of a list without an access to freed memory. Afterwards the heap holds the list of the
-- nodes that stay, in their order, and of the structs just those of the nodes that went are
-- freed. The condition is that the fuel is more than the length of the list.
pub list_for_each_safe-Cleared :
    (gone : ℕ → Bool) (head : ℕ) (h : Heap) (xs : List ℕ) (fuel : ℕ)
    → length xs < fuel
    → IsList h head xs
    → (h' : Heap) × (list_for_each_safe (remove_if gone) fuel h head ≡ done h')
      × Cleared gone h h' head [] xs
unfolding list_for_each_safe enter_safe read_next
list_for_each_safe-Cleared gone head h xs fuel enough l =
    let lh : h.live head ≡ true = l.live.0 in
    let next : h.next head ≡ first_or head xs = next-first_or h head head xs l.chain in
    let lp = first_or-live h head [] xs l in
    let (h', run, swept) =
      for_each_safe-Cleared gone head h xs [] fuel (first_or head xs) enough l refl in
    (h', rw (list_for_each_safe, lh, next, lp) run, swept)
