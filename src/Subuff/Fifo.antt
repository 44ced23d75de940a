-- ===== src/Subuff/Fifo.antt =====
-- src/subuff.h, the packet queue against a first-in first-out list of buffers.
use anp_netskeleton.Base.{
  ℕ, ◌+◌, ◌<◌, ◌≡◌, ◌∙◌, ap, sym, subst, refl, Bool, true, false, Option, none, some, List, [], ◌∷◌,
  ◌++◌, length, length-append, ◌==◌, ltb, if◌then◌else◌, u32, sub32, arith,
}
use anp_netskeleton.Linklist.{◌>>=◌, read_next}
use anp_netskeleton.Linklist.Chain.{◌∉◌, IsList, next-first_or}
use anp_netskeleton.Linklist.Insert.{list_add_tail-Became}
use anp_netskeleton.Linklist.Delete.{remove, list_del-Became}
use anp_netskeleton.Subuff.Queue.{
  SubuffHead, sub_queue_len, sub_queue_tail, sub_dequeue, sub_queue_empty, sub_peek,
}

-- The calls that the owner of a queue makes, and what they return.
pub data Call : Type 0 where
  tail : ℕ → Call
  dequeue : Call
  peek : Call
  queue_len : Call

pub data Answer : Type 0 where
  nothing : Answer
  buffer : ℕ → Answer
  null : Answer
  len : ℕ → Answer

abbrev pub answer_peek : Option ℕ → Answer
answer_peek none = null
answer_peek (some skb) = buffer skb

unfoldable pub call : SubuffHead → Call → Option (SubuffHead × Answer)
call q (tail new) = do q' ← sub_queue_tail q new; some (q', nothing)
call q dequeue = do (q', skb) ← sub_dequeue q; some (q', buffer skb)
call q peek = do first ← sub_peek q; some (q, answer_peek first)
call q queue_len = some (q, len (sub_queue_len q))

unfoldable pub calls : SubuffHead → List Call → Option (SubuffHead × List Answer)
calls q [] = some (q, [])
calls q (c ∷ cs) = do (q', a) ← call q c; (q'', answers) ← calls q' cs; some (q'', a ∷ answers)

-- The same calls on a list. `dequeue` is for a list that is not empty.
abbrev pub spec : List ℕ → Call → List ℕ × Answer
spec xs (tail new) = (xs ++ (new ∷ []), nothing)
spec [] dequeue = ([], null)
spec (x ∷ xs) dequeue = (xs, buffer x)
spec [] peek = ([], null)
spec (x ∷ xs) peek = (x ∷ xs, buffer x)
spec xs queue_len = (xs, len (length xs))

abbrev pub specs : List ℕ → List Call → List ℕ × List Answer
specs xs [] = (xs, [])
specs xs (c ∷ cs) =
    let (xs', a) = spec xs c in let (xs'', answers) = specs xs' cs in (xs'', a ∷ answers)

-- What the owner promises: a buffer added is allocated and not in the queue, the length fits its
-- field, and no buffer is taken from an empty queue.
abbrev pub Allowed : (ℕ → Bool) → ℕ → List ℕ → Call → Type 0
Allowed live head xs (tail new) =
    (new ∉ (head ∷ xs)) × (live new ≡ true) × (length xs + 1 < 4294967296)
Allowed live head xs dequeue = 0 < length xs
Allowed live head xs peek = Unit
Allowed live head xs queue_len = Unit

abbrev pub AllAllowed : (ℕ → Bool) → ℕ → List ℕ → List Call → Type 0
AllAllowed live head xs [] = Unit
AllAllowed live head xs (c ∷ cs) = Allowed live head xs c × AllAllowed live head ((spec xs c).0) cs

-- The queue holds the buffers `xs`, the oldest first.
pub record Holds (q : SubuffHead) (xs : List ℕ) : Type 0 where
  pub list : IsList q.heap q.head xs
  pub count : q.queue_len ≡ length xs
  pub fits : length xs < 4294967296

-- A call has led from `q` to `q'`.
pub record Kept (q q' : SubuffHead) (xs : List ℕ) : Type 0 where
  pub holds : Holds q' xs
  pub head : q'.head ≡ q.head
  pub live : q'.heap.live ≡ q.heap.live

sub_queue_tail-Kept :
    (q : SubuffHead) (xs : List ℕ) (new : ℕ)
    → Holds q xs
    → Allowed q.heap.live q.head xs (tail new)
    → (q' : SubuffHead) × (sub_queue_tail q new ≡ some q') × Kept q q' (xs ++ (new ∷ []))
unfolding sub_queue_tail
sub_queue_tail-Kept q xs new hold (out, ln, room) =
    let (h, e, became) = list_add_tail-Became q.heap new q.head xs hold.list out ln in
    (
      record q { heap = h; queue_len = u32 (q.queue_len + 1) },
      rw e refl,
      record {
        holds = record {
          list = became.list;
          count = ap (λ n. u32 (n + 1)) hold.count ∙ omega (arith, length-append xs (new ∷ []));
          fits = omega (arith, length-append xs (new ∷ []));
        };
        head = refl;
        live = became.live;
      },
    )

pub sub_dequeue-Kept :
    (q : SubuffHead) (x : ℕ) (xs : List ℕ)
    → Holds q (x ∷ xs)
    → (q' : SubuffHead) × (sub_dequeue q ≡ some (q', x)) × Kept q q' xs
unfolding sub_dequeue read_next
sub_dequeue-Kept q x xs hold =
    let lh : q.heap.live q.head ≡ true = hold.list.live.0 in
    let first : q.heap.next q.head ≡ x =
      next-first_or q.heap q.head q.head (x ∷ xs) hold.list.chain in
    let (h, e, became) = list_del-Became q.heap x q.head (x ∷ xs) hold.list (ground arith) in
    let same : (x == x) ≡ true = ground arith in
    let list : IsList h q.head xs =
      subst (λ b. IsList h q.head (if b then xs else (x ∷ remove x xs))) same became.list in
    (
      record q { heap = h; queue_len = sub32 q.queue_len 1 },
      rw (lh, first, e) refl,
      record {
        holds = record {
          list = list;
          count = ap (λ n. sub32 n 1) hold.count ∙ omega (arith, hold.fits);
          fits = omega (arith, hold.fits);
        };
        head = refl;
        live = became.live;
      },
    )

pub sub_peek-empty : (q : SubuffHead) → Holds q [] → sub_peek q ≡ some none
unfolding sub_peek sub_queue_empty sub_queue_len
sub_peek-empty q hold = rw hold.count refl

pub sub_peek-first :
    (q : SubuffHead) (x : ℕ) (xs : List ℕ) → Holds q (x ∷ xs) → sub_peek q ≡ some (some x)
unfolding sub_peek sub_queue_empty sub_queue_len read_next
sub_peek-first q x xs hold =
    let lh : q.heap.live q.head ≡ true = hold.list.live.0 in
    let first : q.heap.next q.head ≡ x =
      next-first_or q.heap q.head q.head (x ∷ xs) hold.list.chain in
    let some_len : ltb q.queue_len 1 ≡ false = ground (arith, hold.count) in
    rw (some_len, lh, first) refl

call-Kept :
    (q : SubuffHead) (xs : List ℕ) (c : Call)
    → Holds q xs
    → Allowed q.heap.live q.head xs c
    → (q' : SubuffHead) × (call q c ≡ some (q', (spec xs c).1)) × Kept q q' ((spec xs c).0)
unfolding call sub_queue_len
call-Kept q xs (tail new) hold ok =
    let (q', e, kept) = sub_queue_tail-Kept q xs new hold ok in (q', rw e refl, kept)
call-Kept q [] dequeue hold ok = absurd (omega arith)
call-Kept q (x ∷ xs) dequeue hold ok =
    let (q', e, kept) = sub_dequeue-Kept q x xs hold in (q', rw e refl, kept)
call-Kept q [] peek hold ok =
    (q, rw (sub_peek-empty q hold) refl, record { holds = hold; head = refl; live = refl })
call-Kept q (x ∷ xs) peek hold ok =
    (q, rw (sub_peek-first q x xs hold) refl, record { holds = hold; head = refl; live = refl })
call-Kept q [] queue_len hold ok =
    (q, rw hold.count refl, record { holds = hold; head = refl; live = refl })
call-Kept q (x ∷ xs) queue_len hold ok =
    (q, rw hold.count refl, record { holds = hold; head = refl; live = refl })

-- The queue of buffers refines a first-in first-out list: whatever calls of sub_queue_tail,
-- sub_dequeue, sub_peek and sub_queue_len its owner makes, none faults, each returns what it
-- returns on the list, and afterwards the queue holds the list, with the length in its field. The
-- conditions are that a buffer added is allocated and not in the queue, that the length stays
-- below 2^32 and that nothing is taken from an empty queue.
pub calls-specs :
    (q : SubuffHead) (xs : List ℕ) (cs : List Call)
    → Holds q xs
    → AllAllowed q.heap.live q.head xs cs
    → (q' : SubuffHead) × (calls q cs ≡ some (q', (specs xs cs).1)) × Holds q' ((specs xs cs).0)
unfolding calls
calls-specs q xs [] hold ok = (q, refl, hold)
calls-specs q xs (c ∷ cs) hold (ok, oks) =
    let (q1, e, kept) = call-Kept q xs c hold ok in
    let oks' : AllAllowed q1.heap.live q1.head ((spec xs c).0) cs =
      subst (λ l. AllAllowed l q1.head ((spec xs c).0) cs) (sym kept.live)
        (subst (λ a. AllAllowed q.heap.live a ((spec xs c).0) cs) (sym kept.head) oks) in
    let (q2, e', hold') = calls-specs q1 ((spec xs c).0) cs kept.holds oks' in
    (q2, rw (e, e') refl, hold')
