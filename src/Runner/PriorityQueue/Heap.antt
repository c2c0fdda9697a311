-- ===== src/Runner/PriorityQueue/Heap.antt =====
-- What the operations leave in the heap, removed objects included.
use integration_queue.Prelude.{
  ℕ, ◌≡◌, Bool, true, false, List, [], ◌∷◌, none, some, inl, inr, arith, length, if◌then◌else◌,
  elem, discard, Distinct, All, suc, ◌≤◌, ◌==◌,
}
use integration_queue.Runner.PriorityQueue.{
  PriorityQueue, contains, pop_from, pop, peek_from, peek, add, remove,
}
use integration_queue.Runner.PriorityQueue.Laws.{
  IsValid, live, contains-live, pop-Pops, peek-live, pop-IsValid, Pops,
}
use mathlib.Core.List.{head?}
use integration_queue.Runner.PriorityQueue.Order.{All-heappush}

module _ {ℓ} (P : ℕ → Type ℓ) where
  pub All-add :
      (lt : ℕ → ℕ → Bool) (a : ℕ) (q : PriorityQueue) → P a → All P q.heap → All P (add lt a q).heap
  unfolding add
  All-add lt a q p all = ground (arith, All-heappush P lt a q.heap)

  pub All-remove : (a : ℕ) (q : PriorityQueue) → All P q.heap → All P (remove a q).heap
  unfolding remove
  All-remove a q all = ground arith

  All-pop_from :
      (heap known removed : List ℕ) → All P heap → All P (pop_from heap known removed).1.heap
  unfolding pop_from
  All-pop_from [] known removed all = tt
  All-pop_from (o ∷ heap) known removed all =
      ground (arith, All-pop_from heap (discard o known) (discard o removed) all.1)

  pub All-pop : (q : PriorityQueue) → All P q.heap → All P (pop q).1.heap
  unfolding pop
  All-pop q all = All-pop_from q.heap q.known q.removed all

  All-peek_from :
      (heap known removed : List ℕ) → All P heap → All P (peek_from heap known removed).1.heap
  unfolding peek_from
  All-peek_from [] known removed all = tt
  All-peek_from (o ∷ heap) known removed all =
      ground (arith, All-peek_from heap (discard o known) (discard o removed) all.1)

  pub All-peek : (q : PriorityQueue) → All P q.heap → All P (peek q).1.heap
  unfolding peek
  All-peek q all = All-peek_from q.heap q.known q.removed all

pop_from-absent :
    (heap known removed : List ℕ) {o : ℕ}
    → Distinct heap
    → (pop_from heap known removed).0 ≡ some o
    → elem o (pop_from heap known removed).1.heap ≡ false
unfolding pop_from
pop_from-absent [] known removed d e = ground arith
pop_from-absent (x ∷ heap) known removed {o} d e =
    ground (arith, pop_from-absent heap (discard x known) (discard x removed) {o = o} d.1)

-- The object that a pop gives back has left the heap.
pub pop-absent :
    (q : PriorityQueue) {o : ℕ} → IsValid q → (pop q).0 ≡ some o → elem o (pop q).1.heap ≡ false
unfolding pop
pop-absent q v e = pop_from-absent q.heap q.known q.removed v.heap_once e

pop_from-length :
    (heap known removed : List ℕ) → length (pop_from heap known removed).1.heap ≤ length heap
unfolding pop_from
pop_from-length [] known removed = omega arith
pop_from-length (o ∷ heap) known removed =
    ground (arith, pop_from-length heap (discard o known) (discard o removed))

pop_from-length-some :
    (heap known removed : List ℕ) {o : ℕ}
    → (pop_from heap known removed).0 ≡ some o
    → suc (length (pop_from heap known removed).1.heap) ≤ length heap
unfolding pop_from
pop_from-length-some [] known removed e = ground arith
pop_from-length-some (x ∷ heap) known removed {o} e =
    ground (arith, pop_from-length-some heap (discard x known) (discard x removed) {o = o})

-- A pop that gives an object back shortens the heap.
pub pop-length :
    (q : PriorityQueue) {o : ℕ} → (pop q).0 ≡ some o → suc (length (pop q).1.heap) ≤ length q.heap
unfolding pop
pop-length q e = pop_from-length-some q.heap q.known q.removed e

peek_from-length :
    (heap known removed : List ℕ) → length (peek_from heap known removed).1.heap ≤ length heap
unfolding peek_from
peek_from-length [] known removed = omega arith
peek_from-length (o ∷ heap) known removed =
    ground (arith, peek_from-length heap (discard o known) (discard o removed))

pub peek-length : (q : PriorityQueue) → length (peek q).1.heap ≤ length q.heap
unfolding peek
peek-length q = peek_from-length q.heap q.known q.removed

-- After a pop that gives `o` back, the queue holds what it held, without `o`.
pub contains-pop-some :
    (q : PriorityQueue) {o : ℕ} (a : ℕ)
    → IsValid q
    → (pop q).0 ≡ some o
    → contains a q ≡ (if o == a then true else contains a (pop q).1)
unfolding elem
contains-pop-some q {o} a v e =
    rw (contains-live a q v, contains-live a (pop q).1 (pop-IsValid q v))
      (ground (arith, pop-Pops q v))

pub contains-pop-none :
    (q : PriorityQueue) (a : ℕ)
    → IsValid q
    → (pop q).0 ≡ none
    → (contains a q ≡ false) × (contains a (pop q).1 ≡ false)
unfolding elem
contains-pop-none q a v e =
    rw (contains-live a q v, contains-live a (pop q).1 (pop-IsValid q v))
      (ground (arith, pop-Pops q v))

-- The popped object is gone from the queue.
pub contains-pop_self :
    (q : PriorityQueue) {o : ℕ}
    → IsValid q
    → (pop q).0 ≡ some o
    → (contains o q ≡ true) × (contains o (pop q).1 ≡ false)
unfolding contains
contains-pop_self q {o} v e =
    ground
      (arith, contains-pop-some q {o = o} o v e, pop-absent q {o = o} v e, (pop-IsValid q v).same o)

-- A pop gives back what `q[0]` showed.
pub pop-peek : (q : PriorityQueue) → IsValid q → (pop (peek q).1).0 ≡ (peek q).0
pop-peek q v =
    let (shown, same, valid) = peek-live q v in go (live q) (pop-Pops (peek q).1 valid) shown same
  where
    go :
        (xs : List ℕ)
        → Pops (live (peek q).1) (pop (peek q).1)
        → head? (live q) ≡ (peek q).0
        → live (peek q).1 ≡ live q
        → (pop (peek q).1).0 ≡ (peek q).0
    go xs (inl (e, n, _)) shown same = ground arith
    go xs (inr (o, e, split)) shown same = ground arith

pub pop-length-le : (q : PriorityQueue) → length (pop q).1.heap ≤ length q.heap
unfolding pop
pop-length-le q = pop_from-length q.heap q.known q.removed
