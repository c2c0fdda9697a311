-- ===== src/Delay/Connect.antt =====
-- `DelayableGraph._merge_graph` and `_connect_graphs` of integration_queue_job/delay.py. `nodes` are
-- the objects by identity, and `graphs` their graphs; the graph of an object has its identity.
pub mod Merge
pub mod Visit
use integration_queue.Prelude.{
  ℕ, zero, suc, List, [], ◌∷◌, ◌++◌, Option, none, some, if◌then◌else◌, ◌==◌, elem, insert,
}
use integration_queue.Delay.Graph.{Graph, vertices, add_vertex}
use integration_queue.Delay.Delayable.{Node, Graphs, head, tail}

-- `{head for n in neighbours for head in n._head()}`
unfoldable pub heads_of : (ℕ → Node) → List ℕ → List ℕ
heads_of nodes [] = []
heads_of nodes (n ∷ ns) = head (nodes n) ++ heads_of nodes ns

unfoldable pub insert_all : List ℕ → List ℕ → List ℕ
insert_all [] s = s
insert_all (v ∷ vs) s = insert_all vs (insert v s)

-- `self._graph[tail].update(heads)`
unfoldable pub update_neighbours : ℕ → List ℕ → Graph → Graph
unfolding insert_all
update_neighbours v hs [] = []
update_neighbours v hs ((u, ns) ∷ g) =
    if u == v then (u, insert_all hs ns) ∷ g else (u, ns) ∷ update_neighbours v hs g

-- The loop over the tails of a vertex.
unfoldable pub connect_tails : List ℕ → List ℕ → Graph → Graph
unfolding update_neighbours
connect_tails [] hs g = g
connect_tails (t ∷ ts) hs g = connect_tails ts hs (update_neighbours t hs (add_vertex t g))

unfoldable pub merge_graph : (ℕ → Node) → Graph → Graph → Graph
unfolding heads_of connect_tails
merge_graph nodes [] g = g
merge_graph nodes ((v, ns) ∷ other) g =
    merge_graph nodes other (connect_tails (tail (nodes v)) (heads_of nodes ns) g)

-- The loop over the vertices of a graph: their graphs are merged and go on the stack.
unfoldable pub merge_all : (ℕ → Node) → Graphs → List ℕ → Graph → Graph
unfolding merge_graph
merge_all nodes graphs [] g = g
merge_all nodes graphs (v ∷ vs) g = merge_all nodes graphs vs (merge_graph nodes (graphs v) g)

-- The `while` loop; `none` is out of fuel.
unfoldable pub visit : (ℕ → Node) → Graphs → ℕ → List ℕ → List ℕ → Graph → Option Graph
unfolding merge_all
visit nodes graphs fuel [] seen g = some g
visit nodes graphs zero (current ∷ stack) seen g = none
visit nodes graphs (suc fuel) (current ∷ stack) seen g =
    let skipped = visit nodes graphs fuel stack seen g in
    let visited =
      visit nodes graphs fuel (stack ++ vertices (graphs current)) (insert current seen)
        (merge_all nodes graphs (vertices (graphs current)) g) in
    if elem current seen then skipped else visited

unfoldable pub connect_graphs : (ℕ → Node) → Graphs → ℕ → ℕ → Option Graph
unfolding visit merge_graph
connect_graphs nodes graphs fuel top =
    visit nodes graphs fuel (top ∷ []) [] (merge_graph nodes (graphs top) [])
