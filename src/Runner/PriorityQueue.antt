-- ===== src/Runner/PriorityQueue.antt =====
-- `PriorityQueue` of integration_queue_job/jobrunner/channels.py: a heap with lazy removal.
pub mod Laws
pub mod Order
pub mod Heap
pub mod Least
use integration_queue.Prelude.{
  ℕ, ◌-◌, Bool, true, false, not, ◌&&◌, List, [], ◌∷◌, Option, none, some, length, if◌then◌else◌,
  elem, insert, discard,
}

-- `heap` is the list of `heapq` in the order in which `heappop` gives the objects back.
pub record PriorityQueue : Type 0 where
  pub heap : List ℕ
  pub known : List ℕ
  pub removed : List ℕ

unfoldable pub empty : PriorityQueue
empty = record { heap = []; known = []; removed = [] }

-- `__len__`
unfoldable pub len : PriorityQueue → ℕ
len q = length q.known - length q.removed

-- `__contains__`
unfoldable pub contains : ℕ → PriorityQueue → Bool
contains o q = elem o q.known && not (elem o q.removed)

-- The loop of `__getitem__(0)`; `none` is the `IndexError`.
unfoldable pub peek_from : List ℕ → List ℕ → List ℕ → Option ℕ × PriorityQueue
peek_from [] known removed = (none, record { heap = []; known = known; removed = removed })
peek_from (o ∷ heap) known removed =
    let rest = peek_from heap (discard o known) (discard o removed) in
    if elem o removed
    then rest
    else (some o, record { heap = o ∷ heap; known = known; removed = removed })

unfoldable pub peek : PriorityQueue → Option ℕ × PriorityQueue
unfolding peek_from
peek q = peek_from q.heap q.known q.removed

-- The loop of `pop`.
unfoldable pub pop_from : List ℕ → List ℕ → List ℕ → Option ℕ × PriorityQueue
pop_from [] known removed = (none, record { heap = []; known = known; removed = removed })
pop_from (o ∷ heap) known removed =
    let rest = pop_from heap (discard o known) (discard o removed) in
    if elem o removed
    then rest
    else (some o, record { heap = heap; known = discard o known; removed = removed })

unfoldable pub pop : PriorityQueue → Option ℕ × PriorityQueue
unfolding pop_from
pop q = pop_from q.heap q.known q.removed

-- `heappush`: the object goes behind those that it does not come before.
unfoldable pub heappush : (ℕ → ℕ → Bool) → ℕ → List ℕ → List ℕ
heappush lt o [] = o ∷ []
heappush lt o (x ∷ heap) = if lt o x then o ∷ x ∷ heap else x ∷ heappush lt o heap

unfoldable pub add : (ℕ → ℕ → Bool) → ℕ → PriorityQueue → PriorityQueue
unfolding heappush
add lt o q = if elem o q.known then record q { removed = discard o q.removed } else record {
  heap = heappush lt o q.heap;
  known = insert o q.known;
  removed = discard o q.removed;
}

unfoldable pub remove : ℕ → PriorityQueue → PriorityQueue
remove o q = if elem o q.known then record q { removed = insert o q.removed } else q
