-- ===== src/Runner/PriorityQueue/Least.antt =====
-- The queue gives its least object back first, and shows the same one without a pop.
use integration_queue.Prelude.{
  ℕ, ◌≡◌, refl, Bool, true, false, List, [], ◌∷◌, Option, none, some, inl, inr, ◌⊎◌, arith, length,
  if◌then◌else◌, elem, Bool-cases, Distinct, ◌==◌, Option-cases, sym, ◌∙◌, ap,
}
use integration_queue.Runner.PriorityQueue.{PriorityQueue, contains, pop, peek, len, add, remove}
use integration_queue.Runner.PriorityQueue.Laws.{
  IsValid, live, contains-live, pop-Pops, peek-live, pop-IsValid, add-IsValid, remove-IsValid,
  contains-add, contains-remove, live_of-Distinct,
}
use integration_queue.Runner.PriorityQueue.Order.{
  IsOrder, Sorted, live_of-Sorted, All-elem, len-live, pop-Sorted, add-Sorted, remove-Sorted,
}
use integration_queue.Runner.PriorityQueue.Heap.{
  contains-pop-none, contains-pop-some, contains-pop_self,
}

-- `o` is in the queue, and nothing in the queue comes before it.
pub record IsFirst (lt : ℕ → ℕ → Bool) (q : PriorityQueue) (o : ℕ) : Type 0 where
  pub held : contains o q ≡ true
  pub least : (a : ℕ) → contains a q ≡ true → lt a o ≡ false

pub record IsEmpty (q : PriorityQueue) : Type 0 where
  pub nothing : (a : ℕ) → contains a q ≡ false

module _ (lt : ℕ → ℕ → Bool) (q : PriorityQueue) (order : IsOrder lt) (v : IsValid q)
    (s : Sorted lt q.heap) where
  IsFirst-of_live : (o : ℕ) (rest : List ℕ) → live q ≡ o ∷ rest → IsFirst lt q o
  unfolding elem
  IsFirst-of_live o rest e = record {
    held = ground (arith, contains-live o q v);
    least = λ a h. elim (Bool-cases (o == a)) [
      | inl same ↦ ground (arith, order.asym o o)
      | inr other ↦
          All-elem (λ y. lt y o ≡ false) rest a ((rw e at (live_of-Sorted lt q.heap q.removed s)).0)
            (ground (arith, contains-live a q v))
    ];
  }

  pub pop-IsFirst : {o : ℕ} → (pop q).0 ≡ some o → IsFirst lt q o
  pop-IsFirst {o} e = elim (pop-Pops q v) [
    | inl (_, n, _) ↦ absurd (ground arith)
    | inr (o', e', split) ↦ IsFirst-of_live o (live (pop q).1) (ground arith)
  ]

  pub peek-IsFirst : {o : ℕ} → (peek q).0 ≡ some o → IsFirst lt q o
  peek-IsFirst {o} e = go (live q) refl
    where
      go : (xs : List ℕ) → live q ≡ xs → IsFirst lt q o
      go [] h = absurd (ground (arith, (peek-live q v).0))
      go (x ∷ xs) h = IsFirst-of_live o xs (ground (arith, (peek-live q v).0))

pub contains-peek : (q : PriorityQueue) (a : ℕ) → IsValid q → contains a (peek q).1 ≡ contains a q
contains-peek q a v =
    contains-live a (peek q).1 (peek-live q v).2
    ∙ ap (elem a) (peek-live q v).1
    ∙ sym (contains-live a q v)

live_nil-IsEmpty : (q : PriorityQueue) → IsValid q → live q ≡ [] → IsEmpty q
unfolding elem
live_nil-IsEmpty q v e = record { nothing = λ a. rw (contains-live a q v, e) }

pub len-IsEmpty : (q : PriorityQueue) → IsValid q → (len q == 0) ≡ true → IsEmpty q
len-IsEmpty q v e = go (live q) refl
  where
    go : (xs : List ℕ) → live q ≡ xs → IsEmpty q
    go [] h = live_nil-IsEmpty q v h
    go (x ∷ xs) h = absurd (ground (arith, len-live q v, ap length h))

pub peek-IsEmpty : (q : PriorityQueue) → IsValid q → (peek q).0 ≡ none → IsEmpty q
peek-IsEmpty q v e = go (live q) refl
  where
    go : (xs : List ℕ) → live q ≡ xs → IsEmpty q
    go [] h = live_nil-IsEmpty q v h
    go (x ∷ xs) h = absurd (ground (arith, (peek-live q v).0))

pub pop-IsEmpty : (q : PriorityQueue) → IsValid q → (pop q).0 ≡ none → IsEmpty q
pop-IsEmpty q v e = elim (pop-Pops q v) [
  | inl (h, _, _) ↦ live_nil-IsEmpty q v h
  | inr (o', e', split) ↦ absurd (ground arith)
]

-- A pop gives back the least object and takes out that object alone, or the queue was empty.
pub record PopSpec (lt : ℕ → ℕ → Bool) (q : PriorityQueue) (r : Option ℕ × PriorityQueue)
    : Type 0 where
  pub valid : IsValid r.1
  pub sorted : Sorted lt r.1.heap
  pub result :
      ((r.0 ≡ none) × IsEmpty q × IsEmpty r.1)
      ⊎ ((o : ℕ) × (r.0 ≡ some o)
          × IsFirst lt q o
          × ((a : ℕ) → contains a r.1 ≡ (if o == a then false else contains a q)))

-- On a valid queue, sorted by an order, `pop` gives back an object that nothing in the queue comes
-- before, takes out that object alone and leaves a valid sorted queue; it gives nothing back only
-- if the queue holds nothing.
pub pop_least :
    (lt : ℕ → ℕ → Bool) (q : PriorityQueue)
    → IsOrder lt
    → IsValid q
    → Sorted lt q.heap
    → PopSpec lt q (pop q)
pop_least lt q order v s = record {
  valid = pop-IsValid q v;
  sorted = pop-Sorted lt q s;
  result = elim (Option-cases (pop q).0) [
    | inl e ↦ inl (e, pop-IsEmpty q v e, record { nothing = λ a. (contains-pop-none q a v e).1 })
    | inr (o, e) ↦ inr (
      o,
      e,
      pop-IsFirst lt q order v s e,
      λ a. ground (arith, contains-pop-some q {o = o} a v e, contains-pop_self q {o = o} v e),
    )
  ];
}

-- Adding an object, and removing one, keep the queue valid and sorted, and change nothing but
-- whether that object is held; adding one that is held and removing one that is not change nothing.
pub add-remove-contains :
    (lt : ℕ → ℕ → Bool) (a : ℕ) (q : PriorityQueue)
    → IsOrder lt
    → IsValid q
    → Sorted lt q.heap
    → (IsValid (add lt a q)
        × Sorted lt (add lt a q).heap
        × ((b : ℕ) → contains b (add lt a q) ≡ (if a == b then true else contains b q)))
      × (IsValid (remove a q)
          × Sorted lt (remove a q).heap
          × ((b : ℕ) → contains b (remove a q) ≡ (if a == b then false else contains b q)))
add-remove-contains lt a q order v s = (
  (add-IsValid lt a q v, add-Sorted lt a q order s, λ b. contains-add lt a b q v),
  (remove-IsValid a q v, remove-Sorted lt a q s, λ b. contains-remove a b q),
)

-- On a valid queue `len` is the number of objects that the queue holds, each counted once.
pub len-contains :
    (q : PriorityQueue)
    → IsValid q
    → (xs : List ℕ) × Distinct xs × ((a : ℕ) → elem a xs ≡ contains a q) × (len q ≡ length xs)
len-contains q v = (
  live q,
  live_of-Distinct q.heap q.removed v.heap_once,
  λ a. sym (contains-live a q v),
  len-live q v,
)
