-- ===== src/Delay/Graph.antt =====
-- `Graph` of integration_queue_job/delay.py. A vertex is a number, the identity of a hashable object;
-- the dictionary `_graph` is a list of vertices with their neighbours, in the order of insertion.
pub mod Keys
pub mod Release
pub mod SortLoop
pub mod Sort
pub mod Build
use integration_queue.Prelude.{
  ℕ, zero, suc, Bool, true, false, not, List, [], ◌∷◌, ◌++◌, map, Option, none, some, if◌then◌else◌,
  ◌==◌, ℤ, pos, negsuc, elem, insert, length,
}

abbrev pub Graph : Type 0
Graph = List (ℕ × List ℕ)

-- `self._graph[vertex]`; `none` is a KeyError.
unfoldable pub neighbours_of : ℕ → Graph → Option (List ℕ)
neighbours_of v [] = none
neighbours_of v ((u, ns) ∷ g) = if u == v then some ns else neighbours_of v g

-- `set(self._graph)`
unfoldable pub vertices : Graph → List ℕ
vertices [] = []
vertices ((u, ns) ∷ g) = u ∷ vertices g

-- `self._graph.setdefault(vertex, set())`
unfoldable pub add_vertex : ℕ → Graph → Graph
add_vertex v [] = (v, []) ∷ []
add_vertex v ((u, ns) ∷ g) = if u == v then (u, ns) ∷ g else (u, ns) ∷ add_vertex v g

-- `self._graph[parent].add(child)`
unfoldable pub add_neighbour : ℕ → ℕ → Graph → Graph
add_neighbour parent c [] = []
add_neighbour parent c ((u, ns) ∷ g) =
    if u == parent then (u, insert c ns) ∷ g else (u, ns) ∷ add_neighbour parent c g

unfoldable pub add_edge : ℕ → ℕ → Graph → Graph
unfolding add_vertex add_neighbour
add_edge parent c g = add_neighbour parent c (add_vertex parent (add_vertex c g))

unfoldable pub edges : Graph → List (ℕ × ℕ)
edges [] = []
edges ((u, ns) ∷ g) = map (λ n. (u, n)) ns ++ edges g

-- `dependency_vertices`
unfoldable pub dependency_vertices : Graph → List ℕ
dependency_vertices [] = []
dependency_vertices ((u, ns) ∷ g) = ns ++ dependency_vertices g

-- The difference of two sets.
unfoldable pub difference : List ℕ → List ℕ → List ℕ
difference [] s = []
difference (v ∷ vs) s = if elem v s then difference vs s else v ∷ difference vs s

unfoldable pub root_vertices : Graph → List ℕ
unfolding difference
root_vertices g = difference (vertices g) (dependency_vertices g)

-- `depends_per_node` once the edges have been counted.
unfoldable pub count_edges : List (ℕ × ℕ) → ℕ → ℕ
count_edges [] n = 0
count_edges ((head, tail) ∷ es) n = if tail == n then suc (count_edges es n) else count_edges es n

abbrev pub pred : ℤ → ℤ
pred (pos zero) = negsuc 0
pred (pos (suc n)) = pos n
pred (negsuc n) = negsuc (suc n)

abbrev pub is_zero : ℤ → Bool
is_zero (pos n) = n == 0
is_zero (negsuc n) = false

-- `depends_per_node[node] -= 1`
unfoldable pub decrement : ℕ → (ℕ → ℤ) → ℕ → ℤ
decrement n depends a = if n == a then pred (depends a) else depends a

-- The loop over the neighbours of a vertex that has been yielded.
unfoldable pub release : List ℕ → (ℕ → ℤ) → List ℕ → (ℕ → ℤ) × List ℕ
unfolding decrement
release [] depends queue = (depends, queue)
release (n ∷ ns) depends queue =
    let after = decrement n depends in
    release ns after (if is_zero (after n) then queue ++ n ∷ [] else queue)

-- How the generator ends.
pub data Ending : Type 0 where
  finished key_error out_of_fuel : Ending

abbrev pub yields : ℕ → List ℕ × Ending → List ℕ × Ending
yields v (vs, ending) = (v ∷ vs, ending)

unfoldable pub sort_loop : Graph → ℕ → (ℕ → ℤ) → List ℕ → List ℕ × Ending
sort_loop g fuel depends [] = ([], finished)
sort_loop g zero depends (v ∷ queue) = ([], out_of_fuel)
sort_loop g (suc fuel) depends (v ∷ queue) = elim (neighbours_of v g) [
  | none ↦ (v ∷ [], key_error)
  | some ns ↦
      let (after, queue') = release ns depends queue in yields v (sort_loop g fuel after queue')
]

unfoldable pub topological_sort : Graph → List ℕ × Ending
unfolding sort_loop root_vertices count_edges
topological_sort g = sort_loop g (length g) (λ n. pos (count_edges (edges g) n)) (root_vertices g)
