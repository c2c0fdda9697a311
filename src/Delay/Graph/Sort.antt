-- ===== src/Delay/Graph/Sort.antt =====
-- What `topological_sort` yields.
use integration_queue.Prelude.{
  ℕ, zero, suc, ◌≡◌, ◌<◌, refl, true, false, not, ◌&&◌, ◌||◌, List, [], ◌∷◌, ltb, elem, Distinct,
  length, pos, arith, Bool-cases, inl, inr, ap,
}
use integration_queue.Delay.Graph.{
  Graph, vertices, edges, count_edges, dependency_vertices, difference, root_vertices, finished,
  topological_sort,
}
use integration_queue.Delay.Graph.Keys.{
  is_edge, pending, count_edges-pending, is_edge-elem, pending-is_edge, vertices-length,
  occurrences-elem, elem-occurrences,
}
use integration_queue.Delay.Graph.SortLoop.{
  IsGraph, Inv, AfterParents, onto, LoopSpec, sort_loop_lem, elem-append,
}

elem-difference : (v : ℕ) (vs s : List ℕ) → elem v (difference vs s) ≡ (elem v vs && not (elem v s))
unfolding difference elem
elem-difference v [] s = refl
elem-difference v (x ∷ vs) s = ground (arith, elem-difference v vs s)

difference-Distinct : (vs s : List ℕ) → Distinct vs → Distinct (difference vs s)
unfolding difference elem
difference-Distinct [] s d = tt
difference-Distinct (x ∷ vs) s d = ground (arith, elem-difference x vs s, difference-Distinct vs s)

elem-dependency_vertices :
    (g : Graph) (v : ℕ) → elem v (dependency_vertices g) ≡ ltb 0 (pending g [] v)
unfolding dependency_vertices pending elem
elem-dependency_vertices [] v = ground arith
elem-dependency_vertices ((u, ns) ∷ g) v = ground (
  arith,
  elem-append v ns (dependency_vertices g),
  elem-dependency_vertices g v,
  occurrences-elem v ns,
  elem-occurrences v ns,
)

start-Inv :
    (g : Graph) → IsGraph g → Inv g [] (root_vertices g) (λ n. pos (count_edges (edges g) n))
unfolding root_vertices elem
start-Inv g w =
    let roots = λ (v : ℕ). elem-difference v (vertices g) (dependency_vertices g) in
    let depends = λ (v : ℕ). elem-dependency_vertices g v in
    record {
      counts = λ v. ap pos (count_edges-pending g v);
      ready = λ v h. ground (arith, roots v, depends v);
      settled = λ v h. ground arith;
      waiting = λ v k q s. ground (arith, roots v, depends v);
      apart = λ v h. refl;
      queue_distinct = difference-Distinct (vertices g) (dependency_vertices g) w.keys;
      seen_distinct = tt;
      queue_known = λ v h. ground (arith, roots v);
      seen_known = λ v h. ground arith;
    }

pub topological_sort_loop : (g : Graph) → IsGraph g → LoopSpec g [] (topological_sort g)
unfolding topological_sort
topological_sort_loop g w =
    sort_loop_lem g (length g) _ (root_vertices g) [] w (omega (arith, vertices-length g))
      (start-Inv g w)

elem-onto : (v : ℕ) (out seen : List ℕ) → elem v (onto out seen) ≡ (elem v out || elem v seen)
unfolding elem
elem-onto v [] seen = refl
elem-onto v (x ∷ out) seen = ground (arith, elem-onto v out (x ∷ seen))

onto-Distinct :
    (out seen : List ℕ)
    → Distinct (onto out seen)
    → Distinct out × ((v : ℕ) → elem v out ≡ true → elem v seen ≡ false) × Distinct seen
unfolding elem
onto-Distinct [] seen d = (tt, λ v h. ground arith, d)
onto-Distinct (x ∷ out) seen d =
    let (rest, apart, before) = onto-Distinct out (x ∷ seen) d in
    ((ground (arith, apart x), rest), λ v h. ground (arith, apart v), before.1)

-- With no queue left and no cycle every vertex has been yielded.
all_seen :
    (g : Graph) (seen : List ℕ) (rank : ℕ → ℕ)
    → ((u v : ℕ) → is_edge u v g ≡ true → rank u < rank v)
    → ((v : ℕ) → elem v (vertices g) ≡ true → elem v seen ≡ false → 0 < pending g seen v)
    → (n v : ℕ) → rank v < n
    → elem v (vertices g) ≡ true
    → elem v seen ≡ true
all_seen g seen rank up waiting zero v l k = absurd (omega arith)
all_seen g seen rank up waiting (suc n) v l k = elim (Bool-cases (elem v seen)) [
  | inl e ↦ e
  | inr e ↦
      let (u, edge, out) = pending-is_edge g seen v (waiting v k e) in
      let below = up u v edge in
      let has = all_seen g seen rank up waiting n u (omega arith) (is_edge-elem g u v edge) in
      absurd (ground arith)
]

-- The sort of a graph ends by itself; it yields no vertex twice, and each after all its parents.
pub topological_sort-order :
    (g : Graph)
    → IsGraph g
    → (topological_sort g).1 ≡ finished
      × AfterParents g [] (topological_sort g).0
      × Distinct (topological_sort g).0
topological_sort-order g w =
    let (ends, ordered, rest) = topological_sort_loop g w in
    (ends, ordered, (onto-Distinct (topological_sort g).0 [] rest.1.seen_distinct).0)

-- Of a graph with no cycle the sort yields all vertices and nothing else.
pub topological_sort_complete :
    (g : Graph)
    → IsGraph g
    → (rank : ℕ → ℕ) → ((u v : ℕ) → is_edge u v g ≡ true → rank u < rank v)
    → (v : ℕ) → elem v (topological_sort g).0 ≡ elem v (vertices g)
unfolding elem
topological_sort_complete g w rank up v =
    let (ends, ordered, rest) = topological_sort_loop g w in
    let final = rest.1 in
    let out = (topological_sort g).0 in
    let same = elem-onto v out [] in
    ground (
      arith,
      same,
      final.seen_known v,
      all_seen g (onto out []) rank up (λ u k s. final.waiting u k refl s) (suc (rank v)) v,
    )
