-- ===== src/Delay/Connect/Merge.antt =====
-- The edges that a merged graph adds.
use integration_queue.Prelude.{
  ℕ, ◌≡◌, refl, Bool, true, false, ◌&&◌, ◌||◌, List, [], ◌∷◌, ◌==◌, elem, insert, elem-insert,
  Distinct, subst, sym, ap, arith, Bool-cases, inl, inr,
}
use integration_queue.Delay.Graph.{Graph, vertices, add_vertex}
use integration_queue.Delay.Graph.Keys.{is_edge}
use integration_queue.Delay.Graph.Build.{
  is_edge-add_vertex, elem-vertices-add_vertex, add_vertex-Distinct,
}
use integration_queue.Delay.Delayable.{Node, Graphs, tail}
use integration_queue.Delay.Connect.{
  heads_of, insert_all, update_neighbours, connect_tails, merge_graph, merge_all,
}

-- Some vertex of the graph has `t` among its tails, and a neighbour with `h` among its heads.
pub links : (ℕ → Node) → Graph → ℕ → ℕ → Bool
links nodes [] t h = false
links nodes ((v, ns) ∷ g) t h =
    elem t (tail (nodes v)) && elem h (heads_of nodes ns) || links nodes g t h

elem-insert_all : (v : ℕ) (vs s : List ℕ) → elem v (insert_all vs s) ≡ (elem v vs || elem v s)
unfolding insert_all elem
elem-insert_all v [] s = refl
elem-insert_all v (x ∷ vs) s = ground (arith, elem-insert_all v vs (insert x s), elem-insert x v s)

is_edge-update_neighbours :
    (u v t : ℕ) (hs : List ℕ) (g : Graph)
    → elem t (vertices g) ≡ true
    → is_edge u v (update_neighbours t hs g) ≡ (is_edge u v g || t == u && elem v hs)
unfolding update_neighbours vertices elem
is_edge-update_neighbours u v t hs [] k = ground arith
is_edge-update_neighbours u v t hs ((w, ns) ∷ g) k =
    ground (arith, elem-insert_all v hs ns, is_edge-update_neighbours u v t hs g)

is_edge-connect_tails :
    (u v : ℕ) (ts hs : List ℕ) (g : Graph)
    → is_edge u v (connect_tails ts hs g) ≡ (is_edge u v g || elem u ts && elem v hs)
unfolding connect_tails elem
is_edge-connect_tails u v [] hs g = ground arith
is_edge-connect_tails u v (t ∷ ts) hs g = ground (
  arith,
  is_edge-connect_tails u v ts hs (update_neighbours t hs (add_vertex t g)),
  is_edge-update_neighbours u v t hs (add_vertex t g),
  elem-vertices-add_vertex t t g,
  is_edge-add_vertex u v t g,
)

pub is_edge-merge_graph :
    (nodes : ℕ → Node) (other g : Graph) (t h : ℕ)
    → is_edge t h (merge_graph nodes other g) ≡ (is_edge t h g || links nodes other t h)
unfolding merge_graph links
is_edge-merge_graph nodes [] g t h = ground arith
is_edge-merge_graph nodes ((v, ns) ∷ other) g t h = ground (
  arith,
  is_edge-merge_graph nodes other (connect_tails (tail (nodes v)) (heads_of nodes ns) g) t h,
  is_edge-connect_tails t h (tail (nodes v)) (heads_of nodes ns) g,
)

-- The same for the graphs of some vertices.
pub links_all : (ℕ → Node) → Graphs → List ℕ → ℕ → ℕ → Bool
links_all nodes graphs [] t h = false
links_all nodes graphs (v ∷ vs) t h = links nodes (graphs v) t h || links_all nodes graphs vs t h

pub is_edge-merge_all :
    (nodes : ℕ → Node) (graphs : Graphs) (vs : List ℕ) (g : Graph) (t h : ℕ)
    → is_edge t h (merge_all nodes graphs vs g) ≡ (is_edge t h g || links_all nodes graphs vs t h)
unfolding merge_all links_all
is_edge-merge_all nodes graphs [] g t h = ground arith
is_edge-merge_all nodes graphs (v ∷ vs) g t h = ground (
  arith,
  is_edge-merge_all nodes graphs vs (merge_graph nodes (graphs v) g) t h,
  is_edge-merge_graph nodes (graphs v) g t h,
)

pub links_all-elem :
    (nodes : ℕ → Node) (graphs : Graphs) (vs : List ℕ) (v t h : ℕ)
    → elem v vs ≡ true
    → links nodes (graphs v) t h ≡ true
    → links_all nodes graphs vs t h ≡ true
unfolding links_all elem
links_all-elem nodes graphs [] v t h m l = ground arith
links_all-elem nodes graphs (x ∷ vs) v t h m l =
    ground (arith, links_all-elem nodes graphs vs v t h)

pub elem-links_all :
    (nodes : ℕ → Node) (graphs : Graphs) (vs : List ℕ) (t h : ℕ)
    → links_all nodes graphs vs t h ≡ true
    → (v : ℕ) × (elem v vs ≡ true) × (links nodes (graphs v) t h ≡ true)
unfolding links_all elem
elem-links_all nodes graphs [] t h l = absurd (ground arith)
elem-links_all nodes graphs (x ∷ vs) t h l = elim (Bool-cases (links nodes (graphs x) t h)) [
  | inl here ↦ (x, ground arith, here)
  | inr there ↦
      let (v, m, k) = elem-links_all nodes graphs vs t h (ground arith) in (v, ground arith, k)
]

-- The vertices of a graph that is merged into stand once each.
vertices-update_neighbours :
    (t : ℕ) (hs : List ℕ) (g : Graph) → vertices (update_neighbours t hs g) ≡ vertices g
unfolding update_neighbours vertices
vertices-update_neighbours t hs [] = refl
vertices-update_neighbours t hs ((w, ns) ∷ g) = elim (Bool-cases (w == t)) [
  | inl e ↦ rw (e, update_neighbours) refl
  | inr e ↦ rw (e, update_neighbours) (ap (λ vs. w ∷ vs) (vertices-update_neighbours t hs g))
]

connect_tails-Distinct :
    (ts hs : List ℕ) (g : Graph)
    → Distinct (vertices g)
    → Distinct (vertices (connect_tails ts hs g))
unfolding connect_tails
connect_tails-Distinct [] hs g d = d
connect_tails-Distinct (t ∷ ts) hs g d =
    connect_tails-Distinct ts hs (update_neighbours t hs (add_vertex t g)) (
      subst Distinct (sym (vertices-update_neighbours t hs (add_vertex t g)))
        (add_vertex-Distinct t g d))

pub merge_graph-Distinct :
    (nodes : ℕ → Node) (other g : Graph)
    → Distinct (vertices g)
    → Distinct (vertices (merge_graph nodes other g))
unfolding merge_graph
merge_graph-Distinct nodes [] g d = d
merge_graph-Distinct nodes ((v, ns) ∷ other) g d =
    merge_graph-Distinct nodes other (connect_tails (tail (nodes v)) (heads_of nodes ns) g)
      (connect_tails-Distinct (tail (nodes v)) (heads_of nodes ns) g d)

pub merge_all-Distinct :
    (nodes : ℕ → Node) (graphs : Graphs) (vs : List ℕ) (g : Graph)
    → Distinct (vertices g)
    → Distinct (vertices (merge_all nodes graphs vs g))
unfolding merge_all
merge_all-Distinct nodes graphs [] g d = d
merge_all-Distinct nodes graphs (v ∷ vs) g d =
    merge_all-Distinct nodes graphs vs (merge_graph nodes (graphs v) g)
      (merge_graph-Distinct nodes (graphs v) g d)
