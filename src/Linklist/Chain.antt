-- ===== src/Linklist/Chain.antt =====
-- What it means that a heap holds a list.
use anp_netskeleton.Base.{
  ℕ, ◌≡◌, ◌≢◌, ap, refl, Bool, true, false, ◌||◌, List, [], ◌∷◌, ◌++◌, ◌==◌, arith,
}
use mathlib.Core.Bool.{or_assoc}
use anp_netskeleton.Linklist.{Heap, free_node}

abbrev pub has : ℕ → List ℕ → Bool
has a [] = false
has a (x ∷ xs) = (a == x) || has a xs

infix 40 ◌∉◌
abbrev pub ◌∉◌ : ℕ → List ℕ → Type 0
a ∉ xs = has a xs ≡ false

pub has-append : (a : ℕ) (xs ys : List ℕ) → has a (xs ++ ys) ≡ (has a xs || has a ys)
has-append a [] ys = refl
has-append a (x ∷ xs) ys = rw (has-append a xs ys, or_assoc)

abbrev pub Distinct : List ℕ → Type 0
Distinct [] = Unit
Distinct (x ∷ xs) = (x ∉ xs) × Distinct xs

abbrev pub AllLive : Heap → List ℕ → Type 0
AllLive h [] = Unit
AllLive h (x ∷ xs) = (h.live x ≡ true) × AllLive h xs

-- The links lead from `a` through `xs` to `b`, and back.
abbrev pub Chain : Heap → ℕ → List ℕ → ℕ → Type 0
Chain h a [] b = (h.next a ≡ b) × (h.prev b ≡ a)
Chain h a (x ∷ xs) b = (h.next a ≡ x) × (h.prev x ≡ a) × Chain h x xs b

-- A list with the head `head` and the nodes `xs`.
pub record IsList (h : Heap) (head : ℕ) (xs : List ℕ) : Type 0 where
  pub chain : Chain h head xs head
  pub distinct : Distinct (head ∷ xs)
  pub live : AllLive h (head ∷ xs)

pub Chain-frame :
    (h h' : Heap) (a b : ℕ) (xs : List ℕ)
    → ((p : ℕ) → has p (a ∷ xs) ≡ true → h'.next p ≡ h.next p)
    → ((p : ℕ) → has p (b ∷ xs) ≡ true → h'.prev p ≡ h.prev p)
    → Chain h a xs b
    → Chain h' a xs b
Chain-frame h h' a b [] same_next same_prev (n, p) = ground (arith, same_next a, same_prev b)
Chain-frame h h' a b (x ∷ xs) same_next same_prev (n, p, c) =
    let rest =
      Chain-frame h h' x b xs (λ q i. same_next q (ground arith))
        (λ q i. same_prev q (ground arith)) c in
    ground (arith, same_next a, same_prev x, rest)

pub AllLive-frame :
    (h h' : Heap) (xs : List ℕ)
    → ((p : ℕ) → has p xs ≡ true → h'.live p ≡ h.live p)
    → AllLive h xs
    → AllLive h' xs
AllLive-frame h h' [] same l = tt
AllLive-frame h h' (x ∷ xs) same (l, ls) =
    (ground (arith, same x), AllLive-frame h h' xs (λ p i. same p (ground arith)) ls)

pub AllLive-has :
    (h : Heap) (xs : List ℕ) (p : ℕ) → AllLive h xs → has p xs ≡ true → h.live p ≡ true
AllLive-has h [] p l i = cc
AllLive-has h (x ∷ xs) p (l, ls) i = ground (arith, AllLive-has h xs p ls)

-- The node in front of the end of a chain, and the one behind its start.
pub prev-has : (h : Heap) (a b : ℕ) (xs : List ℕ) → Chain h a xs b → has (h.prev b) (a ∷ xs) ≡ true
prev-has h a b [] (n, p) = ground arith
prev-has h a b (x ∷ xs) (n, p, c) = ground (arith, prev-has h x b xs c)

pub prev-has_rest :
    (h : Heap) (a b x : ℕ) (xs : List ℕ) → Chain h a (x ∷ xs) b → has (h.prev b) (x ∷ xs) ≡ true
prev-has_rest h a b x xs (n, p, c) = prev-has h x b xs c

pub next-has : (h : Heap) (a b : ℕ) (xs : List ℕ) → Chain h a xs b → has (h.next a) (b ∷ xs) ≡ true
next-has h a b [] (n, p) = ground arith
next-has h a b (x ∷ xs) (n, p, c) = ground arith

pub has-ne : (p q : ℕ) (xs : List ℕ) → has p xs ≡ true → q ∉ xs → q ≢ p
has-ne p q xs i o e = cc (i, o, ap (λ r. has r xs) e)

pub Distinct-snoc : (x : ℕ) (xs : List ℕ) → Distinct xs → x ∉ xs → Distinct (xs ++ (x ∷ []))
Distinct-snoc x [] d o = ground arith
Distinct-snoc x (y ∷ xs) (p, d) o =
    (ground (arith, has-append y xs (x ∷ [])), Distinct-snoc x xs d (ground arith))

pub AllLive-snoc :
    (h : Heap) (x : ℕ) (xs : List ℕ) → AllLive h xs → h.live x ≡ true → AllLive h (xs ++ (x ∷ []))
AllLive-snoc h x [] l lx = (lx, tt)
AllLive-snoc h x (y ∷ xs) (p, l) lx = (p, AllLive-snoc h x xs l lx)

-- From `h` to `h'` the list at `head` has become `xs`. No node outside the list has changed: `owned`
-- are the head, the nodes that were in it, and the node that an operation was given.
pub record Became (h h' : Heap) (owned : List ℕ) (head : ℕ) (xs : List ℕ) : Type 0 where
  pub list : IsList h' head xs
  pub live : h'.live ≡ h.live
  pub next_outside : (p : ℕ) → p ∉ owned → h'.next p ≡ h.next p
  pub prev_outside : (p : ℕ) → p ∉ owned → h'.prev p ≡ h.prev p

-- The node at the front, or the end where there is none.
abbrev pub first_or : ℕ → List ℕ → ℕ
first_or b [] = b
first_or b (x ∷ xs) = x

pub next-first_or : (h : Heap) (a b : ℕ) (xs : List ℕ) → Chain h a xs b → h.next a ≡ first_or b xs
next-first_or h a b [] (n, p) = n
next-first_or h a b (x ∷ xs) (n, p, c) = n

-- The node behind `x`.
pub next-inside :
    (h : Heap) (a b x : ℕ) (xs ys : List ℕ)
    → Chain h a (xs ++ (x ∷ ys)) b
    → h.next x ≡ first_or b ys
next-inside h a b x [] ys (n, p, c) = next-first_or h x b ys c
next-inside h a b x (y ∷ xs) ys (n, p, c) = next-inside h y b x xs ys c

pub Distinct-middle : (x : ℕ) (xs ys : List ℕ) → Distinct (xs ++ (x ∷ ys)) → (x ∉ xs) × (x ∉ ys)
Distinct-middle x [] ys (o, d) = (refl, o)
Distinct-middle x (y ∷ xs) ys (o, d) =
    ground (arith, has-append y xs (x ∷ ys), Distinct-middle x xs ys d)

-- The struct of a node that is in no list is freed.
pub free_node-IsList :
    (h : Heap) (p head : ℕ) (xs : List ℕ)
    → p ∉ (head ∷ xs)
    → IsList h head xs
    → IsList (free_node h p) head xs
unfolding free_node
free_node-IsList h p head xs o l = record {
  chain = Chain-frame h (free_node h p) head head xs (λ q i. refl) (λ q i. refl) l.chain;
  distinct = l.distinct;
  live =
      AllLive-frame h (free_node h p) (head ∷ xs)
        (λ q i. ground (arith, has-ne q p (head ∷ xs) i o)) l.live;
}
