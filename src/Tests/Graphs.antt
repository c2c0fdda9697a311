-- ===== src/Tests/Graphs.antt =====
-- The theorems on graphs and delayables at concrete inputs.
use integration_queue.Prelude.{◌⊎◌, none, text_eq}
use integration_queue.Prelude.{
  ℕ, suc, ◌≡◌, ◌<◌, refl, true, false, List, [], ◌∷◌, some, if◌then◌else◌, ◌==◌, elem, pos,
  Distinct, Text, text, arith,
}
use integration_queue.Delay.Graph.{
  Graph, vertices, edges, topological_sort, sort_loop, root_vertices, dependency_vertices,
  difference, count_edges, release, decrement, neighbours_of, finished,
}
use integration_queue.Delay.Graph.Keys.{is_edge}
use integration_queue.Delay.Graph.SortLoop.{IsGraph, AfterParents}
use integration_queue.Delay.Graph.Sort.{topological_sort-order, topological_sort_complete}
use integration_queue.Delay.Delayable.{
  Node, Graphs, delayable, chain, group, nil, cons, head, tail, split,
}
use integration_queue.Delay.Delayable.Ending.{SplitEnds, split-SplitEnds}
use integration_queue.Delay.Delayable.Ends.{IsFlat, no_chain, firsts, lasts, head-tail-ends}
use integration_queue.Delay.Connect.{connect_graphs}
use integration_queue.Delay.Connect.Merge.{links}
use integration_queue.Delay.Connect.Visit.{Reach, here, next, work, connect_graphs-edges}
use integration_queue.Job.Record.{Job, Table}
use integration_queue.Job.Store.{find_row, truthy}
use integration_queue.Job.Create.{Params, unset, JobObjects, new_job}
use integration_queue.Delay.Launch.{IdentityKeys, ensure_same_graph_uuid, delay, stored}
use integration_queue.Delay.Launch.Same.{SameGraph, InSeveral, ensure_same_graph_uuid_lem}
use integration_queue.Delay.Launch.Stored.{IsNew, RowOf, delay-RowOf}

-- Two jobs after one, and one after both.
abbrev diamond : Graph
diamond = (1, 2 ∷ 3 ∷ []) ∷ (4, []) ∷ (2, 4 ∷ []) ∷ (3, 4 ∷ []) ∷ []

diamond-IsGraph : IsGraph diamond
unfolding vertices elem
diamond-IsGraph = record {
  keys = (refl, (refl, (refl, (refl, tt))));
  closed = λ u v e. ground arith;
}

diamond-sorted : topological_sort diamond ≡ (1 ∷ 2 ∷ 3 ∷ 4 ∷ [], finished)
unfolding topological_sort sort_loop root_vertices dependency_vertices difference vertices edges
    count_edges release decrement neighbours_of elem
diamond-sorted = refl

topological_sort-order_example :
    (topological_sort diamond).1 ≡ finished
    × AfterParents diamond [] (topological_sort diamond).0
    × Distinct (topological_sort diamond).0
topological_sort-order_example = topological_sort-order diamond diamond-IsGraph

upwards : (u v : ℕ) → is_edge u v diamond ≡ true → u < v
unfolding elem
upwards u v e = ground arith

topological_sort_complete_example : elem 3 (topological_sort diamond).0 ≡ elem 3 (vertices diamond)
topological_sort_complete_example =
    topological_sort_complete diamond diamond-IsGraph (λ n. n) upwards 3

abbrev five : List ℕ
five = 11 ∷ 12 ∷ 13 ∷ 14 ∷ 15 ∷ []

split-SplitEnds_example :
    SplitEnds true true (pos 2) 7 five (split true true (text "Import") (pos 2) 7 (λ i. []) five)
split-SplitEnds_example = split-SplitEnds true true (text "Import") (pos 2) 7 (λ i. []) five

-- A chain of a group of two and one delayable.
abbrev after_group : Node
after_group = chain 0 (group 1 (cons (delayable 2) (cons (delayable 3) nil))) (delayable 4)

after_group-IsFlat : IsFlat after_group
unfolding IsFlat no_chain
after_group-IsFlat = (refl, refl)

head-tail-ends_example :
    (head after_group ≡ firsts after_group) × (tail after_group ≡ lasts after_group)
head-tail-ends_example = head-tail-ends after_group after_group-IsFlat

-- A chain 10 of two delayables.
abbrev chain_graphs : Graphs
chain_graphs o =
    if o == 10
    then (1, 2 ∷ []) ∷ (2, []) ∷ []
    else if o == 1
    then (1, []) ∷ []
    else if o == 2
    then (2, []) ∷ []
    else []

known_next :
    (p v : ℕ)
    → elem p (10 ∷ 1 ∷ 2 ∷ []) ≡ true
    → elem v (vertices (chain_graphs p)) ≡ true
    → elem v (10 ∷ 1 ∷ 2 ∷ []) ≡ true
unfolding elem vertices
known_next p v h k = ground arith

known : (o : ℕ) → Reach chain_graphs 10 o → elem o (10 ∷ 1 ∷ 2 ∷ []) ≡ true
unfolding elem
known o here = refl
known o (next {o = p} r m) = known_next p o (known p r) m

three-Distinct : Distinct (10 ∷ 1 ∷ 2 ∷ [])
unfolding elem
three-Distinct = (refl, (refl, (refl, tt)))

connect_graphs-edges_example :
    (final : Graph) × (connect_graphs
        (λ i. delayable i)
        chain_graphs
        (suc (work chain_graphs (10 ∷ 1 ∷ 2 ∷ []) []))
        10
      ≡ some final)
    × Distinct (vertices final)
    × ((t h : ℕ)
        → is_edge t h final ≡ true
        → (o : ℕ) × Reach chain_graphs 10 o
          × (links (λ i. delayable i) (chain_graphs o) t h ≡ true))
    × ((o t h : ℕ)
        → Reach chain_graphs 10 o
        → links (λ i. delayable i) (chain_graphs o) t h ≡ true
        → is_edge t h final ≡ true)
connect_graphs-edges_example =
    connect_graphs-edges (λ i. delayable i) chain_graphs 10 (10 ∷ 1 ∷ 2 ∷ []) three-Distinct known

abbrev defaults : Params
defaults = record {
  priority = none;
  eta = unset;
  max_retries = none;
  channel = none;
  identity_key = none;
}

-- The job of a vertex, whose uuid is one character.
abbrev built : JobObjects
built v = new_job 1000 (v ∷ []) (text "root") defaults

abbrev no_keys : IdentityKeys
no_keys = record { is_set = λ v. false; search_blank = λ table. none }

built-IsNew : IsNew no_keys diamond built []
unfolding new_job text_eq find_row truthy
built-IsNew = record {
  is_pending = λ a m. refl;
  no_graph = λ a m. refl;
  no_key = λ a m. refl;
  no_parents = λ a m. refl;
  own_uuid = λ a b m k. ground arith;
  no_row = λ a m. refl;
}

no_loop : (a : ℕ) → is_edge a a diamond ≡ false
unfolding elem
no_loop a = ground arith

delay-RowOf_example :
    (after : Table) × (delay no_keys false (text "g") diamond built [] ≡ stored after)
    × ((a : ℕ)
        → elem a (vertices diamond) ≡ true
        → (row : Job) × (find_row (built a).uuid after ≡ some row)
          × RowOf diamond built (text "g") a row)
    × ((x : Text)
        → ((a : ℕ) → elem a (vertices diamond) ≡ true → text_eq (built a).uuid x ≡ false)
        → find_row x after ≡ find_row x [])
unfolding vertices
delay-RowOf_example =
    delay-RowOf no_keys (text "g") diamond built [] diamond-IsGraph no_loop built-IsNew
      (omega arith)

-- The jobs 1 and 2 are in graphs.
abbrev in_graphs : JobObjects
in_graphs v = if v == 3 then built v else record (built v) { graph_uuid = some (v ∷ []) }

ensure_same_graph_uuid_lem_example :
    ((u : Text) × (same : JobObjects) × (ensure_same_graph_uuid
          (text "g")
          (1 ∷ 2 ∷ 3 ∷ [])
          in_graphs
        ≡ some same)
      × SameGraph in_graphs (text "g") (1 ∷ 2 ∷ 3 ∷ []) u same)
    ⊎ ((ensure_same_graph_uuid (text "g") (1 ∷ 2 ∷ 3 ∷ []) in_graphs ≡ none)
        × InSeveral in_graphs (1 ∷ 2 ∷ 3 ∷ []))
ensure_same_graph_uuid_lem_example = ensure_same_graph_uuid_lem in_graphs (text "g") 1 2 (3 ∷ [])
