-- ===== src/Linklist/Delete.antt =====
-- src/linklist.h, `list_del`: what it makes of a list.
use anp_netskeleton.Base.{
  ℕ, ◌≡◌, ◌≢◌, subst, refl, true, inl, inr, Bool-cases, some, List, [], ◌∷◌, ◌==◌, if◌then◌else◌,
  update, arith,
}
use anp_netskeleton.Linklist.{Heap, list_del, read_next, read_prev, write_next, write_prev}
use anp_netskeleton.Linklist.Chain.{
  has, has-ne, ◌∉◌, Distinct, AllLive, Chain, IsList, Chain-frame, AllLive-has, Became, next-has,
}

-- The heap after `list_del`.
abbrev unlinked : Heap → ℕ → Heap
unlinked h e = record h {
  next = update h.next (h.prev e) (h.next e);
  prev = update h.prev (h.next e) (h.prev e);
}

-- The list without its node `e`.
abbrev pub remove : ℕ → List ℕ → List ℕ
remove e [] = []
remove e (x ∷ xs) = if x == e then xs else x ∷ remove e xs

list_del-unlinked :
    (h : Heap) (e : ℕ)
    → h.live e ≡ true
    → h.live (h.prev e) ≡ true
    → h.live (h.next e) ≡ true
    → list_del h e ≡ some (unlinked h e)
unfolding list_del read_prev read_next write_next write_prev
list_del-unlinked h e le lp ln = rw (le, lp, ln) refl

-- What the neighbours of a node of a chain are.
neighbours :
    (h : Heap) (a b e : ℕ) (xs : List ℕ)
    → Chain h a xs b
    → has e xs ≡ true
    → Distinct xs
    → (has (h.prev e) (a ∷ xs) ≡ true) × (has (h.next e) (b ∷ xs) ≡ true)
neighbours h a b e [] c i d = cc
neighbours h a b e (x ∷ xs) (n, p, c) i (o, d) = elim (Bool-cases (x == e)) [
  | inl here ↦ ground (arith, next-has h x b xs c)
  | inr there ↦ ground (arith, neighbours h x b e xs c (ground arith) d)
]

-- The front node of a chain, unlinked.
unlinked-front :
    (h : Heap) (a b e : ℕ) (xs : List ℕ)
    → Chain h a (e ∷ xs) b
    → Distinct (a ∷ (e ∷ xs))
    → b ∉ (e ∷ xs)
    → Chain (unlinked h e) a xs b
unlinked-front h a b e [] (n, p, (n', p')) d end_ = ground arith
unlinked-front h a b e (y ∷ ys) (n, p, (n', p', c)) (o, (o', (o'', d))) end_ =
    let rest : Chain (unlinked h e) y ys b =
      Chain-frame h (unlinked h e) y b ys (λ q i. ground (arith, has-ne q a (y ∷ ys)))
        (λ q i. ground (arith, has-ne q y ys)) c in
    ground (arith, rest)

unlinked-Chain :
    (h : Heap) (a b e : ℕ) (xs : List ℕ)
    → Chain h a xs b
    → Distinct (a ∷ xs)
    → b ∉ xs
    → has e xs ≡ true
    → Chain (unlinked h e) a (remove e xs) b
unlinked-Chain h a b e [] c d end_ i = cc
unlinked-Chain h a b e (x ∷ xs) (n, p, c) (o, (o', d)) end_ i = elim (Bool-cases (x == e)) [
  | inl here ↦ rw here (
      subst (λ q. Chain (unlinked h q) a xs b) (ground arith)
        (unlinked-front h a b x xs (n, p, c) (o, (o', d)) end_))
  | inr there ↦
      let rest = unlinked-Chain h x b e xs c (o', d) (ground arith) (ground arith) in
      let (before, behind) = neighbours h x b e xs c (ground arith) d in
      let apart : a ≢ h.prev e = has-ne (h.prev e) a (x ∷ xs) before o in
      let apart' : x ≢ h.next e = has-ne (h.next e) x (b ∷ xs) behind (ground arith) in
      rw there (ground arith, ground arith, rest)
]

pub remove-out : (e p : ℕ) (xs : List ℕ) → p ∉ xs → p ∉ remove e xs
remove-out e p [] o = refl
remove-out e p (x ∷ xs) o = ground (arith, remove-out e p xs)

pub remove-Distinct : (e : ℕ) (xs : List ℕ) → Distinct xs → Distinct (remove e xs)
remove-Distinct e [] d = tt
remove-Distinct e (x ∷ xs) (o, d) = elim (Bool-cases (x == e)) [
  | inl here ↦ rw here d
  | inr there ↦ rw there (remove-out e x xs o, remove-Distinct e xs d)
]

pub remove-AllLive : (h : Heap) (e : ℕ) (xs : List ℕ) → AllLive h xs → AllLive h (remove e xs)
remove-AllLive h e [] l = tt
remove-AllLive h e (x ∷ xs) (l, ls) = elim (Bool-cases (x == e)) [
  | inl here ↦ rw here ls
  | inr there ↦ rw there (l, remove-AllLive h e xs ls)
]

-- On a list list_del takes out one of its nodes: the heap then holds the list without the node,
-- linked in both directions, and no link of a node outside the list has changed.
pub list_del-Became :
    (h : Heap) (e head : ℕ) (xs : List ℕ)
    → IsList h head xs
    → has e xs ≡ true
    → (h' : Heap) × (list_del h e ≡ some h') × Became h h' (head ∷ xs) head (remove e xs)
list_del-Became h e head xs l i =
    let (before, behind) = neighbours h head head e xs l.chain i (l.distinct.1) in
    (
      unlinked h e,
      list_del-unlinked h e (AllLive-has h xs e (l.live.1) i)
          (AllLive-has h (head ∷ xs) (h.prev e) l.live before)
          (AllLive-has h (head ∷ xs) (h.next e) l.live behind),
      record {
        list = record {
          chain = unlinked-Chain h head head e xs l.chain l.distinct (l.distinct.0) i;
          distinct = (remove-out e head xs (l.distinct.0), remove-Distinct e xs (l.distinct.1));
          live = (l.live.0, remove-AllLive h e xs (l.live.1));
        };
        live = refl;
        next_outside = λ p o. ground (arith, has-ne (h.prev e) p (head ∷ xs) before o);
        prev_outside = λ p o. ground (arith, has-ne (h.next e) p (head ∷ xs) behind o);
      },
    )
