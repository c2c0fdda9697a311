-- ===== src/Delay/Delayable/Made.antt =====
-- The graph of the object that `split` returns.
use integration_queue.Prelude.{
  ℕ, suc, ◌+◌, ◌≡◌, refl, Bool, true, false, ◌&&◌, ◌||◌, List, [], ◌∷◌, ◌==◌, leb, ltb, elem,
  length, arith, ◌∙◌, ap, Bool-cases, inl, inr,
}
use integration_queue.Delay.Graph.{Graph, vertices, add_vertex, add_edge}
use integration_queue.Delay.Graph.Keys.{is_edge}
use integration_queue.Delay.Graph.Build.{
  elem-vertices-add_vertex, is_edge-add_vertex, elem-vertices-add_edge, is_edge-add_edge,
}
use integration_queue.Delay.Delayable.{
  Graphs, delayable, put_graph, new_delayable, new_delayables, link, add_vertices,
}

module _ {ℓ} {A : Type ℓ} where
  is_edge-link :
      (t h i : ℕ) (bs : List A) (graphs : Graphs) (g : Graph)
      → is_edge t h (link (delayable i) (new_delayables (suc i) bs graphs).0 g).1
        ≡ (is_edge t h g || (leb i t && (h == suc t && ltb t (i + length bs))))
  unfolding link new_delayables new_delayable
  is_edge-link t h i [] graphs g = ground arith
  is_edge-link t h i (b ∷ bs) graphs g =
      let after = put_graph (suc i) (add_vertex (suc i) []) graphs in
      ground (
        arith,
        is_edge-link t h (suc i) bs after (add_edge i (suc i) g),
        is_edge-add_edge t h i (suc i) g,
      )

  vertices-link :
      (v i : ℕ) (bs : List A) (graphs : Graphs) (g : Graph)
      → elem i (vertices g) ≡ true
      → elem v (vertices (link (delayable i) (new_delayables (suc i) bs graphs).0 g).1)
        ≡ (elem v (vertices g) || (leb i v && leb v (i + length bs)))
  unfolding link new_delayables new_delayable
  vertices-link v i [] graphs g k = elim (Bool-cases (i == v)) [
    | inl e ↦
        let same : i ≡ v = ground (arith, e) in ground (arith, ap (λ n. elem n (vertices g)) same)
    | inr e ↦ ground (arith, e)
  ]
  vertices-link v i (b ∷ bs) graphs g k =
      let after = put_graph (suc i) (add_vertex (suc i) []) graphs in
      ground (
        arith,
        vertices-link v (suc i) bs after (add_edge i (suc i) g)
            (ground (arith, elem-vertices-add_edge (suc i) i (suc i) g)),
        elem-vertices-add_edge v i (suc i) g,
      )

  is_edge-add_vertices :
      (t h i : ℕ) (bs : List A) (graphs : Graphs) (g : Graph)
      → is_edge t h (add_vertices (new_delayables i bs graphs).0 g) ≡ is_edge t h g
  unfolding add_vertices new_delayables new_delayable
  is_edge-add_vertices t h i [] graphs g = refl
  is_edge-add_vertices t h i (b ∷ bs) graphs g =
      is_edge-add_vertices t h (suc i) bs (put_graph i (add_vertex i []) graphs) (add_vertex i g)
      ∙ is_edge-add_vertex t h i g

  vertices-add_vertices :
      (v i : ℕ) (bs : List A) (graphs : Graphs) (g : Graph)
      → elem v (vertices (add_vertices (new_delayables i bs graphs).0 g))
        ≡ (elem v (vertices g) || (leb i v && ltb v (i + length bs)))
  unfolding add_vertices new_delayables new_delayable
  vertices-add_vertices v i [] graphs g = ground arith
  vertices-add_vertices v i (b ∷ bs) graphs g = ground (
    arith,
    vertices-add_vertices v (suc i) bs (put_graph i (add_vertex i []) graphs) (add_vertex i g),
    elem-vertices-add_vertex v i g,
  )

self_test : (n : ℕ) → n == n ≡ true
self_test n = ground arith

pub put_graph-same : (i : ℕ) (g : Graph) (graphs : Graphs) → put_graph i g graphs i ≡ g
unfolding put_graph
put_graph-same i g graphs = rw (self_test i) refl

-- The graph of so many new delayables: in a chain each is followed by the next one.
pub record GraphOf (is_chain : Bool) (fresh count : ℕ) (g : Graph) : Type 0 where
  pub has_vertices : (v : ℕ) → elem v (vertices g) ≡ (leb fresh v && ltb v (fresh + count))
  pub has_edges :
      (t h : ℕ)
      → is_edge t h g ≡ (is_chain && (leb fresh t && (h == suc t && ltb h (fresh + count))))

module _ {ℓ} {A : Type ℓ} (fresh : ℕ) (graphs : Graphs) where
  pub chain-GraphOf :
      (b : A) (bs : List A)
      → GraphOf true fresh
          (suc (length bs))
          (link (delayable fresh) (new_delayables (suc fresh) bs graphs).0 (add_vertex fresh [])).1
  unfolding add_vertex vertices elem
  chain-GraphOf b bs = record {
    has_vertices =
        λ v. ground (arith, vertices-link v fresh bs graphs (add_vertex fresh []) (ground arith));
    has_edges = λ t h. ground (arith, is_edge-link t h fresh bs graphs (add_vertex fresh []));
  }

  pub group-GraphOf :
      (bs : List A)
      → GraphOf false fresh (length bs) (add_vertices (new_delayables fresh bs graphs).0 [])
  unfolding vertices elem
  group-GraphOf bs = record {
    has_vertices = λ v. ground (arith, vertices-add_vertices v fresh bs graphs []);
    has_edges = λ t h. ground (arith, is_edge-add_vertices t h fresh bs graphs []);
  }
