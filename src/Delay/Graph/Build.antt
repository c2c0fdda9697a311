-- ===== src/Delay/Graph/Build.antt =====
-- The graphs that `add_vertex` and `add_edge` make.
use integration_queue.Prelude.{
  ℕ, ◌≡◌, refl, true, ◌&&◌, ◌||◌, [], ◌∷◌, ◌==◌, elem, elem-insert, Distinct, arith, ◌∙◌, ap, sym,
  subst,
}
use integration_queue.Delay.Graph.{Graph, vertices, add_vertex, add_neighbour, add_edge}
use integration_queue.Delay.Graph.Keys.{is_edge}
use integration_queue.Delay.Graph.SortLoop.{IsGraph}

pub elem-vertices-add_vertex :
    (v x : ℕ) (g : Graph) → elem v (vertices (add_vertex x g)) ≡ (x == v || elem v (vertices g))
unfolding vertices add_vertex elem
elem-vertices-add_vertex v x [] = ground arith
elem-vertices-add_vertex v x ((w, ns) ∷ g) = ground (arith, elem-vertices-add_vertex v x g)

pub is_edge-add_vertex : (u v x : ℕ) (g : Graph) → is_edge u v (add_vertex x g) ≡ is_edge u v g
unfolding add_vertex elem
is_edge-add_vertex u v x [] = ground arith
is_edge-add_vertex u v x ((w, ns) ∷ g) = ground (arith, is_edge-add_vertex u v x g)

vertices-add_neighbour : (p c : ℕ) (g : Graph) → vertices (add_neighbour p c g) ≡ vertices g
unfolding vertices add_neighbour
vertices-add_neighbour p c [] = refl
vertices-add_neighbour p c ((w, ns) ∷ g) = ground (arith, vertices-add_neighbour p c g)

is_edge-add_neighbour :
    (u v p c : ℕ) (g : Graph)
    → elem p (vertices g) ≡ true
    → is_edge u v (add_neighbour p c g) ≡ (is_edge u v g || p == u && c == v)
unfolding add_neighbour vertices elem
is_edge-add_neighbour u v p c [] h = ground arith
is_edge-add_neighbour u v p c ((w, ns) ∷ g) h =
    ground (arith, elem-insert c v ns, is_edge-add_neighbour u v p c g)

pub add_vertex-Distinct :
    (x : ℕ) (g : Graph) → Distinct (vertices g) → Distinct (vertices (add_vertex x g))
unfolding vertices add_vertex elem
add_vertex-Distinct x [] d = (refl, tt)
add_vertex-Distinct x ((w, ns) ∷ g) d =
    ground (arith, elem-vertices-add_vertex w x g, add_vertex-Distinct x g)

-- The vertices and the edges of the graph with one more edge.
pub elem-vertices-add_edge :
    (v p c : ℕ) (g : Graph)
    → elem v (vertices (add_edge p c g)) ≡ (p == v || (c == v || elem v (vertices g)))
unfolding add_edge
elem-vertices-add_edge v p c g =
    ap (elem v) (vertices-add_neighbour p c (add_vertex p (add_vertex c g)))
    ∙ elem-vertices-add_vertex v p (add_vertex c g)
    ∙ ap (λ b. p == v || b) (elem-vertices-add_vertex v c g)

pub is_edge-add_edge :
    (u v p c : ℕ) (g : Graph) → is_edge u v (add_edge p c g) ≡ (is_edge u v g || p == u && c == v)
unfolding add_edge
is_edge-add_edge u v p c g =
    is_edge-add_neighbour u v p c (add_vertex p (add_vertex c g))
      (ground (arith, elem-vertices-add_vertex p p (add_vertex c g)))
    ∙ ap (λ b. b || p == u && c == v)
        (is_edge-add_vertex u v p (add_vertex c g) ∙ is_edge-add_vertex u v c g)

pub add_vertex-IsGraph : (x : ℕ) (g : Graph) → IsGraph g → IsGraph (add_vertex x g)
add_vertex-IsGraph x g w = record {
  keys = add_vertex-Distinct x g w.keys;
  closed = λ u v e.
      ground (arith, elem-vertices-add_vertex v x g, is_edge-add_vertex u v x g, w.closed u v);
}

add_edge-Distinct :
    (p c : ℕ) (g : Graph) → Distinct (vertices g) → Distinct (vertices (add_edge p c g))
unfolding add_edge
add_edge-Distinct p c g d =
    subst Distinct (sym (vertices-add_neighbour p c (add_vertex p (add_vertex c g))))
      (add_vertex-Distinct p (add_vertex c g) (add_vertex-Distinct c g d))

add_edge-IsGraph : (p c : ℕ) (g : Graph) → IsGraph g → IsGraph (add_edge p c g)
add_edge-IsGraph p c g w = record {
  keys = add_edge-Distinct p c g w.keys;
  closed = λ u v e.
      ground (arith, elem-vertices-add_edge v p c g, is_edge-add_edge u v p c g, w.closed u v);
}

-- A graph stays one with another edge, and then has just that edge and its two vertices more.
pub add_edge_lem :
    (p c u v : ℕ) (g : Graph)
    → IsGraph g
    → IsGraph (add_edge p c g)
      × (is_edge u v (add_edge p c g) ≡ (is_edge u v g || p == u && c == v))
      × (elem v (vertices (add_edge p c g)) ≡ (p == v || (c == v || elem v (vertices g))))
add_edge_lem p c u v g w =
    (add_edge-IsGraph p c g w, is_edge-add_edge u v p c g, elem-vertices-add_edge v p c g)
