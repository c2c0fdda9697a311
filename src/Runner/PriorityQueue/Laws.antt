-- ===== src/Runner/PriorityQueue/Laws.antt =====
-- The queue seen as the ordered list of its live objects.
use mathlib.Core.List.{head?}
use integration_queue.Prelude.{
  ℕ, ◌≡◌, refl, Bool, true, false, not, ◌&&◌, List, [], ◌∷◌, Option, none, some, inl, inr, ◌⊎◌,
  arith, if◌then◌else◌, elem, discard, elem-insert, elem-discard, Distinct, ◌==◌, Bool-cases,
  insert-Distinct, discard-Distinct,
}
use integration_queue.Runner.PriorityQueue.{
  PriorityQueue, empty, contains, peek_from, peek, pop_from, pop, heappush, add, remove,
}

-- The objects of a heap that have not been removed.
abbrev pub live_of : List ℕ → List ℕ → List ℕ
live_of [] removed = []
live_of (o ∷ heap) removed =
    if elem o removed then live_of heap removed else o ∷ live_of heap removed

abbrev pub live : PriorityQueue → List ℕ
live q = live_of q.heap q.removed

-- `known` is the content of the heap, and a removed object is still known.
pub record IsValid (q : PriorityQueue) : Type 0 where
  pub heap_once : Distinct q.heap
  pub known_once : Distinct q.known
  pub removed_once : Distinct q.removed
  pub same : (o : ℕ) → elem o q.known ≡ elem o q.heap
  pub within : (o : ℕ) → elem o q.removed ≡ true → elem o q.heap ≡ true

pub empty-IsValid : IsValid empty
unfolding empty elem
empty-IsValid = record {
  heap_once = tt;
  known_once = tt;
  removed_once = tt;
  same = λ o. refl;
  within = λ o h. h;
}

elem-live_of :
    (o : ℕ) (heap removed : List ℕ)
    → elem o (live_of heap removed) ≡ (elem o heap && not (elem o removed))
unfolding elem
elem-live_of o [] removed = refl
elem-live_of o (x ∷ heap) removed = ground (arith, elem-live_of o heap removed)

pub contains-live : (o : ℕ) (q : PriorityQueue) → IsValid q → contains o q ≡ elem o (live q)
unfolding contains
contains-live o q v = ground (arith, v.same o, elem-live_of o q.heap q.removed)

elem-heappush :
    (lt : ℕ → ℕ → Bool) (a b : ℕ) (heap : List ℕ)
    → elem b (heappush lt a heap) ≡ (if a == b then true else elem b heap)
unfolding elem heappush
elem-heappush lt a b [] = refl
elem-heappush lt a b (x ∷ heap) = ground (arith, elem-heappush lt a b heap)

heappush-Distinct :
    (lt : ℕ → ℕ → Bool) (a : ℕ) (heap : List ℕ)
    → elem a heap ≡ false
    → Distinct heap
    → Distinct (heappush lt a heap)
unfolding elem heappush
heappush-Distinct lt a [] h d = (refl, tt)
heappush-Distinct lt a (x ∷ heap) h d =
    ground (arith, elem-heappush lt a x heap, heappush-Distinct lt a heap)

pub contains-add :
    (lt : ℕ → ℕ → Bool) (a b : ℕ) (q : PriorityQueue)
    → IsValid q
    → contains b (add lt a q) ≡ (if a == b then true else contains b q)
unfolding contains add
contains-add lt a b q v =
    ground (arith, elem-insert a b q.known, elem-discard a b q.removed, v.same a, v.within a)

pub contains-remove :
    (a b : ℕ) (q : PriorityQueue)
    → contains b (remove a q) ≡ (if a == b then false else contains b q)
unfolding contains remove
contains-remove a b q = ground (arith, elem-insert a b q.removed)

pub add-IsValid : (lt : ℕ → ℕ → Bool) (a : ℕ) (q : PriorityQueue) → IsValid q → IsValid (add lt a q)
unfolding add
add-IsValid lt a q v = record {
  heap_once = ground (arith, v.heap_once, heappush-Distinct lt a q.heap, v.same a);
  known_once = ground (arith, v.known_once, insert-Distinct a q.known);
  removed_once = ground (arith, discard-Distinct a q.removed v.removed_once);
  same = λ o. ground (arith, v.same o, elem-insert a o q.known, elem-heappush lt a o q.heap);
  within = λ o. ground (arith, v.within o, elem-discard a o q.removed, elem-heappush lt a o q.heap);
}

pub remove-IsValid : (a : ℕ) (q : PriorityQueue) → IsValid q → IsValid (remove a q)
unfolding remove
remove-IsValid a q v = record {
  heap_once = ground (arith, v.heap_once);
  known_once = ground (arith, v.known_once);
  removed_once = ground (arith, insert-Distinct a q.removed v.removed_once);
  same = λ o. ground (arith, v.same o);
  within = λ o. ground (arith, v.same a, v.within o, elem-insert a o q.removed);
}

pub live_of-discard :
    (o : ℕ) (heap removed : List ℕ)
    → elem o heap ≡ false
    → live_of heap (discard o removed) ≡ live_of heap removed
unfolding elem
live_of-discard o [] removed h = refl
live_of-discard o (x ∷ heap) removed h =
    ground (arith, elem-discard o x removed, live_of-discard o heap removed)

-- What a pop does to the live objects: the first is given back, if there is one.
abbrev pub Pops : List ℕ → Option ℕ × PriorityQueue → Type 0
Pops xs r =
    ((xs ≡ []) × (r.0 ≡ none) × (live r.1 ≡ [])) ⊎ ((o : ℕ) × (r.0 ≡ some o) × (xs ≡ o ∷ live r.1))

-- A removed object that leaves the heap leaves the other two sets with it.
drop-IsValid :
    (o : ℕ) (heap known removed : List ℕ)
    → IsValid (record { heap = o ∷ heap; known = known; removed = removed })
    → IsValid (record { heap = heap; known = discard o known; removed = discard o removed })
unfolding elem
drop-IsValid o heap known removed v = record {
  heap_once = ground (arith, v.heap_once);
  known_once = discard-Distinct o known v.known_once;
  removed_once = discard-Distinct o removed v.removed_once;
  same = λ a. ground (arith, v.same a, v.heap_once, elem-discard o a known);
  within = λ a. ground (arith, v.within a, elem-discard o a removed);
}

take-IsValid :
    (o : ℕ) (heap known removed : List ℕ)
    → elem o removed ≡ false
    → IsValid (record { heap = o ∷ heap; known = known; removed = removed })
    → IsValid (record { heap = heap; known = discard o known; removed = removed })
unfolding elem
take-IsValid o heap known removed h v = record {
  heap_once = ground (arith, v.heap_once);
  known_once = discard-Distinct o known v.known_once;
  removed_once = v.removed_once;
  same = λ a. ground (arith, v.same a, v.heap_once, elem-discard o a known);
  within = λ a. ground (arith, v.within a);
}

pop_from-Pops :
    (heap known removed : List ℕ)
    → IsValid (record { heap = heap; known = known; removed = removed })
    → Pops (live_of heap removed) (pop_from heap known removed)
unfolding pop_from
pop_from-Pops [] known removed v = inl (refl, refl, refl)
pop_from-Pops (o ∷ heap) known removed v = elim (Bool-cases (elem o removed)) [
  | inl gone ↦
      rw (gone, ← live_of-discard o heap removed v.heap_once.0)
        (pop_from-Pops heap (discard o known) (discard o removed)
          (drop-IsValid o heap known removed v))
  | inr here ↦ rw here (inr (o, refl, refl))
]

pub pop-Pops : (q : PriorityQueue) → IsValid q → Pops (live q) (pop q)
unfolding pop
pop-Pops q v = pop_from-Pops q.heap q.known q.removed v

pop_from-IsValid :
    (heap known removed : List ℕ)
    → IsValid (record { heap = heap; known = known; removed = removed })
    → IsValid (pop_from heap known removed).1
unfolding pop_from
pop_from-IsValid [] known removed v = v
pop_from-IsValid (o ∷ heap) known removed v = elim (Bool-cases (elem o removed)) [
  | inl gone ↦ rw gone (
      pop_from-IsValid heap (discard o known) (discard o removed)
        (drop-IsValid o heap known removed v))
  | inr here ↦ rw here (take-IsValid o heap known removed here v)
]

pub pop-IsValid : (q : PriorityQueue) → IsValid q → IsValid (pop q).1
unfolding pop
pop-IsValid q v = pop_from-IsValid q.heap q.known q.removed v

peek_from-live :
    (heap known removed : List ℕ)
    → IsValid (record { heap = heap; known = known; removed = removed })
    → (head? (live_of heap removed) ≡ (peek_from heap known removed).0)
      × (live (peek_from heap known removed).1 ≡ live_of heap removed)
      × IsValid (peek_from heap known removed).1
unfolding peek_from
peek_from-live [] known removed v = (refl, refl, v)
peek_from-live (o ∷ heap) known removed v = elim (Bool-cases (elem o removed)) [
  | inl gone ↦
      rw (gone, ← live_of-discard o heap removed v.heap_once.0)
        (peek_from-live heap (discard o known) (discard o removed)
          (drop-IsValid o heap known removed v))
  | inr here ↦ rw here (refl, rw here, v)
]

-- `q[0]` is the first live object, and changes no live object.
pub peek-live :
    (q : PriorityQueue)
    → IsValid q
    → (head? (live q) ≡ (peek q).0) × (live (peek q).1 ≡ live q) × IsValid (peek q).1
unfolding peek
peek-live q v = peek_from-live q.heap q.known q.removed v

pub live_of-Distinct : (heap removed : List ℕ) → Distinct heap → Distinct (live_of heap removed)
unfolding elem
live_of-Distinct [] removed d = tt
live_of-Distinct (o ∷ heap) removed d =
    ground (arith, live_of-Distinct heap removed d.1, elem-live_of o heap removed)

pub contains-heap :
    (o : ℕ) (q : PriorityQueue) → IsValid q → contains o q ≡ true → elem o q.heap ≡ true
unfolding contains
contains-heap o q v h = ground (arith, v.same o)
