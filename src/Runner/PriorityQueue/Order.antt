-- ===== src/Runner/PriorityQueue/Order.antt =====
-- The length of the queue, and the order in which it gives its objects back.
use integration_queue.Prelude.{
  ℕ, ◌+◌, ◌≡◌, refl, Bool, true, false, List, [], ◌∷◌, inl, inr, arith, length, elem, discard,
  elem-discard, Distinct, ◌==◌, Bool-cases, subst, discard-Distinct, length-discard, All,
}
use integration_queue.Runner.PriorityQueue.{
  PriorityQueue, len, pop_from, peek_from, peek, pop, heappush, add, remove,
}
use integration_queue.Runner.PriorityQueue.Laws.{IsValid, live_of, live, live_of-discard}

length-same :
    (xs ys : List ℕ)
    → Distinct xs
    → Distinct ys
    → ((o : ℕ) → elem o xs ≡ elem o ys)
    → length xs ≡ length ys
unfolding elem
length-same [] [] d e h = refl
length-same [] (y ∷ ys) d e h = ground (arith, h y)
length-same (x ∷ xs) ys d e h = omega (
  arith,
  length-discard x ys e (ground (arith, h x)),
  length-same xs (discard x ys) d.1 (discard-Distinct x ys e)
      (λ o. ground (arith, h o, elem-discard x o ys)),
)

length-live_of :
    (heap removed : List ℕ)
    → Distinct heap
    → Distinct removed
    → ((o : ℕ) → elem o removed ≡ true → elem o heap ≡ true)
    → length (live_of heap removed) + length removed ≡ length heap
unfolding elem
length-live_of [] [] d e h = omega arith
length-live_of [] (x ∷ removed) d e h = ground (arith, h x)
length-live_of (o ∷ heap) removed d e h = elim (Bool-cases (elem o removed)) [
  | inl gone ↦
      rw (gone, ← live_of-discard o heap removed d.0)
        (omega (
          arith,
          length-discard o removed e gone,
          length-live_of heap (discard o removed) d.1 (discard-Distinct o removed e)
              (λ a. ground (arith, h a, elem-discard o a removed)),
        ))
  | inr here ↦ rw here (omega (arith, length-live_of heap removed d.1 e (λ a. ground (arith, h a))))
]

-- `len` counts the live objects.
pub len-live : (q : PriorityQueue) → IsValid q → len q ≡ length (live q)
unfolding len
len-live q v = omega (
  arith,
  length-same q.known q.heap v.known_once v.heap_once v.same,
  length-live_of q.heap q.removed v.heap_once v.removed_once v.within,
)

-- What `heapq` asks of `__lt__`.
pub record IsOrder (lt : ℕ → ℕ → Bool) : Type 0 where
  pub asym : (a b : ℕ) → lt a b ≡ true → lt b a ≡ false
  pub trans : (a b c : ℕ) → lt b a ≡ false → lt c b ≡ false → lt c a ≡ false

-- No object comes before one that stands earlier.
abbrev pub Sorted : (ℕ → ℕ → Bool) → List ℕ → Type 0
Sorted lt [] = Unit {0}
Sorted lt (x ∷ xs) = All (λ y. lt y x ≡ false) xs × Sorted lt xs

module _ {ℓ κ} {P : ℕ → Type ℓ} {Q : ℕ → Type κ} where
  pub All-mono : (xs : List ℕ) → ((o : ℕ) → P o → Q o) → All P xs → All Q xs
  All-mono [] h all = tt
  All-mono (x ∷ xs) h all = (h x all.0, All-mono xs h all.1)

module _ {ℓ} (P : ℕ → Type ℓ) where
  pub All-heappush :
      (lt : ℕ → ℕ → Bool) (a : ℕ) (heap : List ℕ) → P a → All P heap → All P (heappush lt a heap)
  unfolding heappush
  All-heappush lt a [] p all = (p, tt)
  All-heappush lt a (x ∷ heap) p all = elim (Bool-cases (lt a x)) [
    | inl first ↦ rw first (p, all)
    | inr later ↦ rw later (all.0, All-heappush lt a heap p all.1)
  ]

  pub All-live_of : (heap removed : List ℕ) → All P heap → All P (live_of heap removed)
  All-live_of [] removed all = tt
  All-live_of (x ∷ heap) removed all = elim (Bool-cases (elem x removed)) [
    | inl gone ↦ rw gone (All-live_of heap removed all.1)
    | inr here ↦ rw here (all.0, All-live_of heap removed all.1)
  ]

  pub All-elem : (xs : List ℕ) (o : ℕ) → All P xs → elem o xs ≡ true → P o
  unfolding elem
  All-elem [] o all h = absurd (ground arith)
  All-elem (x ∷ xs) o all h = elim (Bool-cases (x == o)) [
    | inl same ↦ subst P (ground arith) all.0
    | inr other ↦ All-elem xs o all.1 (ground arith)
  ]

module _ (lt : ℕ → ℕ → Bool) where
  heappush-Sorted :
      (a : ℕ) (heap : List ℕ) → IsOrder lt → Sorted lt heap → Sorted lt (heappush lt a heap)
  unfolding heappush
  heappush-Sorted a [] order s = (tt, tt)
  heappush-Sorted a (x ∷ heap) order s = elim (Bool-cases (lt a x)) [
    | inl first ↦ rw first (
      (order.asym a x first, All-mono heap (λ y h. order.trans a x y (order.asym a x first) h) s.0),
      s,
    )
    | inr later ↦
        rw later
          (All-heappush (λ y. lt y x ≡ false) lt a heap later s.0, heappush-Sorted a heap order s.1)
  ]

  pub add-Sorted :
      (a : ℕ) (q : PriorityQueue) → IsOrder lt → Sorted lt q.heap → Sorted lt (add lt a q).heap
  unfolding add
  add-Sorted a q order s = ground (arith, heappush-Sorted a q.heap order s)

  pub remove-Sorted : (a : ℕ) (q : PriorityQueue) → Sorted lt q.heap → Sorted lt (remove a q).heap
  unfolding remove
  remove-Sorted a q s = ground arith

  pop_from-Sorted :
      (heap known removed : List ℕ)
      → Sorted lt heap
      → Sorted lt (pop_from heap known removed).1.heap
  unfolding pop_from
  pop_from-Sorted [] known removed s = tt
  pop_from-Sorted (o ∷ heap) known removed s =
      ground (arith, pop_from-Sorted heap (discard o known) (discard o removed) s.1)

  pub pop-Sorted : (q : PriorityQueue) → Sorted lt q.heap → Sorted lt (pop q).1.heap
  unfolding pop
  pop-Sorted q s = pop_from-Sorted q.heap q.known q.removed s

  peek_from-Sorted :
      (heap known removed : List ℕ)
      → Sorted lt heap
      → Sorted lt (peek_from heap known removed).1.heap
  unfolding peek_from
  peek_from-Sorted [] known removed s = tt
  peek_from-Sorted (o ∷ heap) known removed s =
      ground (arith, peek_from-Sorted heap (discard o known) (discard o removed) s.1)

  pub peek-Sorted : (q : PriorityQueue) → Sorted lt q.heap → Sorted lt (peek q).1.heap
  unfolding peek
  peek-Sorted q s = peek_from-Sorted q.heap q.known q.removed s

  pub live_of-Sorted : (heap removed : List ℕ) → Sorted lt heap → Sorted lt (live_of heap removed)
  live_of-Sorted [] removed s = tt
  live_of-Sorted (x ∷ heap) removed s = elim (Bool-cases (elem x removed)) [
    | inl gone ↦ rw gone (live_of-Sorted heap removed s.1)
    | inr here ↦
        rw here
          (All-live_of (λ y. lt y x ≡ false) heap removed s.0, live_of-Sorted heap removed s.1)
  ]
