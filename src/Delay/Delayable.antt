-- ===== src/Delay/Delayable.antt =====
-- `Delayable`, `DelayableChain` and `DelayableGroup` of integration_queue_job/delay.py. An object is a
-- number, its identity, and what it is made of; each has a graph, whose vertices are identities.
pub mod Split
pub mod Made
pub mod Ending
pub mod Ends
use integration_queue.Prelude.{
  ℕ, zero, suc, ◌+◌, Bool, true, false, List, [], ◌∷◌, ◌++◌, map, Option, none, some, if◌then◌else◌,
  ◌==◌, ltb, length, take, drop, Text, text, decimal, ℤ, pos, negsuc,
}
use integration_queue.Delay.Graph.{Graph, add_vertex, add_edge}

mutual
  pub data Node : Type 0 where
    delayable : (identity : ℕ) → Node
    chain : (identity : ℕ) (first last : Node) → Node
    group : (identity : ℕ) (delayables : Nodes) → Node

  pub data Nodes : Type 0 where
    nil : Nodes
    cons : Node → Nodes → Nodes

abbrev pub identity_of : Node → ℕ
identity_of (delayable i) = i
identity_of (chain i first last) = i
identity_of (group i delayables) = i

-- `_head` and `_tail`.
unfoldable mutual
  pub head : Node → List ℕ
  head (delayable i) = i ∷ []
  head (chain i first last) = tail first
  head (group i delayables) = heads delayables

  pub heads : Nodes → List ℕ
  heads nil = []
  heads (cons d ds) = head d ++ heads ds

  pub tail : Node → List ℕ
  tail (delayable i) = i ∷ []
  tail (chain i first last) = head last
  tail (group i delayables) = tails delayables

  pub tails : Nodes → List ℕ
  tails nil = []
  tails (cons d ds) = tail d ++ tails ds

-- `_graph` of each object.
abbrev pub Graphs : Type 0
Graphs = ℕ → Graph

unfoldable pub put_graph : ℕ → Graph → Graphs → Graphs
put_graph i g graphs a = if i == a then g else graphs a

unfoldable pub new_delayable : ℕ → Graphs → Node × Graphs
unfolding put_graph
new_delayable i graphs = (delayable i, put_graph i (add_vertex i []) graphs)

-- The loop of `DelayableChain.__init__`: the last delayable, and the graph.
unfoldable pub link : Node → Nodes → Graph → Node × Graph
link d nil g = (d, g)
link d (cons next ds) g = link next ds (add_edge (identity_of d) (identity_of next) g)

-- `DelayableChain(...)`; with no delayable `next` raises, which is `none`.
unfoldable pub new_chain : ℕ → Nodes → Graphs → Option (Node × Graphs)
unfolding link put_graph
new_chain i nil graphs = none
new_chain i (cons d ds) graphs =
    let (last, g) = link d ds (add_vertex (identity_of d) []) in
    some (chain i d last, put_graph i g graphs)

unfoldable pub add_vertices : Nodes → Graph → Graph
add_vertices nil g = g
add_vertices (cons d ds) g = add_vertices ds (add_vertex (identity_of d) g)

unfoldable pub new_group : ℕ → Nodes → Graphs → Node × Graphs
unfolding add_vertices put_graph
new_group i ds graphs = (group i ds, put_graph i (add_vertices ds []) graphs)

-- The edges from one vertex to each of the delayables.
unfoldable pub add_edges : ℕ → List Node → Graph → Graph
add_edges parent [] g = g
add_edges parent (d ∷ ds) g = add_edges parent ds (add_edge parent (identity_of d) g)

unfoldable pub add_edges_from : Nodes → List Node → Graph → Graph
unfolding add_edges
add_edges_from nil ds g = g
add_edges_from (cons parent parents) ds g =
    add_edges_from parents ds (add_edges (identity_of parent) ds g)

-- `on_done` of the three classes.
unfoldable pub on_done : Node → List Node → Graphs → Graphs
unfolding add_edges add_edges_from put_graph
on_done (delayable i) ds graphs = put_graph i (add_edges i ds (graphs i)) graphs
on_done (chain i first last) ds graphs =
    put_graph i (add_edges (identity_of last) ds (graphs i)) graphs
on_done (group i parents) ds graphs = put_graph i (add_edges_from parents ds (graphs i)) graphs

-- The slices of the loop of `split` from an index on.
unfoldable pub batches {ℓ} : {A : Type ℓ} → ℕ → ℕ → ℕ → List A → List (List A)
batches zero size index records = []
batches (suc fuel) size index records =
    let rest = batches fuel size (index + size) records in
    if ltb index (length records) then take size (drop index records) ∷ rest else []

-- `f"{description} (split {index + 1}/{len(delayables)})"`
unfoldable pub split_description : Text → ℕ → ℕ → Text
split_description description index total =
    description
    ++ (text " (split " ++ (decimal (index + 1) ++ (b'/' ∷ (decimal total ++ text ")"))))

unfoldable pub descriptions {ℓ} : {A : Type ℓ} → Text → ℕ → ℕ → List A → List Text
descriptions description index total [] = []
descriptions description index total (b ∷ bs) =
    split_description description index total ∷ descriptions description (index + 1) total bs

-- The record sets of the loop over `range(0, total_records, size)`, which has no step for a negative
-- size. The fuel is above the number of slices. `none` is the ValueError of `range` for the size 0.
unfoldable pub slices_of {ℓ} : {A : Type ℓ} → ℤ → List A → Option (List (List A))
unfolding batches
slices_of (pos zero) records = none
slices_of (pos (suc n)) records = some (batches (suc (length records)) (suc n) 0 records)
slices_of (negsuc n) records = some []

-- The delayables that the loop makes, one for each slice; their identities are the ones from `i` on.
unfoldable pub new_delayables {ℓ} : {A : Type ℓ} → ℕ → List A → Graphs → Nodes × Graphs
unfolding new_delayable
new_delayables i [] graphs = (nil, graphs)
new_delayables i (b ∷ bs) graphs =
    let (d, one) = new_delayable i graphs in
    let (ds, all) = new_delayables (suc i) bs one in (cons d ds, all)

-- How `split` ends: it raises a ValueError, as no method is set or the size is 0, or the StopIteration
-- of a chain of no delayable; or it returns an object. `records` and `names` are the record sets and
-- the descriptions of the delayables.
pub data SplitResult {ℓ} (A : Type ℓ) : Type ℓ where
  value_error : SplitResult A
  stop_iteration : SplitResult A
  returns :
      (records : List (List A)) (names : List Text) (object : Node) (graphs : Graphs)
      → SplitResult A

-- The last line of `split`, once the delayables are made; the identity of the object is given.
unfoldable pub combine {ℓ} :
    {A : Type ℓ} → Bool → Text → ℕ → List (List A) → Nodes → Graphs → SplitResult A
unfolding descriptions split_description new_chain new_group
combine true description i slices ds graphs = elim (new_chain i ds graphs) [
  | none ↦ stop_iteration
  | some (object, after) ↦
      returns slices (descriptions description 0 (length slices) slices) object after
]
combine false description i slices ds graphs =
    let (object, after) = new_group i ds graphs in
    returns slices (descriptions description 0 (length slices) slices) object after

-- `split` of a delayable with or without a method; the identities from `fresh` on are new.
unfoldable pub split {ℓ} :
    {A : Type ℓ} → (has_method is_chain : Bool) → Text → ℤ → ℕ → Graphs → List A → SplitResult A
unfolding slices_of new_delayables combine
split false is_chain description size fresh graphs records = value_error
split true is_chain description size fresh graphs records = elim (slices_of size records) [
  | none ↦ value_error
  | some slices ↦
      let (ds, made) = new_delayables fresh slices graphs in
      combine is_chain description (fresh + length slices) slices ds made
]
