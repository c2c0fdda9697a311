-- ===== src/Delay/Connect/Visit.antt =====
-- The graphs that `_connect_graphs` visits.
use integration_queue.Prelude.{
  ℕ, zero, suc, ◌+◌, ◌≡◌, ◌≤◌, refl, true, false, List, [], ◌∷◌, ◌++◌, some, if◌then◌else◌, elem,
  insert, elem-insert, length, length-append, Distinct, arith, Bool-cases, inl, inr, ◌∙◌, ap, subst,
  ◌⊎◌,
}
use integration_queue.Delay.Graph.{Graph, vertices}
use integration_queue.Delay.Graph.Keys.{is_edge, elem-first}
use integration_queue.Delay.Graph.SortLoop.{elem-append}
use integration_queue.Delay.Delayable.{Node, Graphs}
use integration_queue.Delay.Connect.{visit, connect_graphs, merge_graph, merge_all}
use integration_queue.Delay.Connect.Merge.{
  links, is_edge-merge_graph, is_edge-merge_all, links_all-elem, elem-links_all,
  merge_graph-Distinct, merge_all-Distinct,
}

-- The objects that are met from the one at the top.
pub data Reach (graphs : Graphs) (top : ℕ) : ℕ → Type 0 where
  here : Reach graphs top top
  next : {o v : ℕ} → Reach graphs top o → elem v (vertices (graphs o)) ≡ true → Reach graphs top v

the_only : (a b : ℕ) → elem b (a ∷ []) ≡ true → a ≡ b
unfolding elem
the_only a b h = ground arith

the_new : (a b : ℕ) (s : List ℕ) → elem b (insert a s) ≡ true → elem b s ≡ false → a ≡ b
the_new a b s h k = ground (arith, elem-insert a b s)

module _ (graphs : Graphs) where
  -- The fuel for the graphs that are not visited.
  unfoldable pub work : List ℕ → List ℕ → ℕ
  work [] seen = 0
  work (i ∷ ids) seen =
      (if elem i seen then 0 else length (vertices (graphs i)) + 1) + work ids seen

  work-other :
      (ids seen : List ℕ) (x : ℕ) → elem x ids ≡ false → work ids (insert x seen) ≡ work ids seen
  unfolding work elem
  work-other [] seen x h = refl
  work-other (i ∷ ids) seen x h = ground (arith, elem-insert x i seen, work-other ids seen x)

  pub work-insert :
      (ids seen : List ℕ) (x : ℕ)
      → Distinct ids
      → elem x ids ≡ true
      → elem x seen ≡ false
      → work ids seen ≡ work ids (insert x seen) + (length (vertices (graphs x)) + 1)
  unfolding work elem
  work-insert [] seen x d m h = ground arith
  work-insert (i ∷ ids) seen x d m h = ground (
    arith,
    elem-insert x i seen,
    elem-insert x x seen,
    work-other ids seen x,
    work-insert ids seen x,
  )

module _ (nodes : ℕ → Node) (graphs : Graphs) (top : ℕ) where
  abbrev Links : ℕ → ℕ → ℕ → Type 0
  Links o t h = links nodes (graphs o) t h ≡ true

  record Inv (stack seen : List ℕ) (g : Graph) : Type 0 where
    reached : (o : ℕ) → elem o stack ≡ true → Reach graphs top o
    sound : (t h : ℕ) → is_edge t h g ≡ true → (o : ℕ) × Reach graphs top o × Links o t h
    top_merged : (t h : ℕ) → Links top t h → is_edge t h g ≡ true
    top_met : (elem top stack ≡ true) ⊎ (elem top seen ≡ true)
    merged :
        (o v t h : ℕ)
        → elem o seen ≡ true
        → elem v (vertices (graphs o)) ≡ true
        → Links v t h
        → is_edge t h g ≡ true
    keys : Distinct (vertices g)
    closed :
        (o v : ℕ)
        → elem o seen ≡ true
        → elem v (vertices (graphs o)) ≡ true
        → (elem v stack ≡ true) ⊎ (elem v seen ≡ true)

  start-Inv : Inv (top ∷ []) [] (merge_graph nodes (graphs top) [])
  unfolding elem vertices
  start-Inv = record {
    reached = λ o m. subst (Reach graphs top) (the_only top o m) here;
    sound = λ t h e. (top, here, ground (arith, is_edge-merge_graph nodes (graphs top) [] t h));
    top_merged = λ t h l. ground (arith, is_edge-merge_graph nodes (graphs top) [] t h);
    top_met = inl (ground arith);
    merged = λ o v t h m k l. absurd (ground arith);
    keys = merge_graph-Distinct nodes (graphs top) [] tt;
    closed = λ o v m k. absurd (ground arith);
  }

  skip-Inv :
      (current : ℕ) (stack seen : List ℕ) (g : Graph)
      → elem current seen ≡ true
      → Inv (current ∷ stack) seen g
      → Inv stack seen g
  unfolding elem
  skip-Inv current stack seen g s inv = record {
    reached = λ o m. inv.reached o (ground arith);
    sound = inv.sound;
    top_merged = inv.top_merged;
    top_met = ground (arith, inv.top_met);
    merged = inv.merged;
    keys = inv.keys;
    closed = λ o v m k. ground (arith, inv.closed o v);
  }

  visit-Inv :
      (current : ℕ) (stack seen : List ℕ) (g : Graph)
      → Inv (current ∷ stack) seen g
      → Inv
          (stack ++ vertices (graphs current))
          (insert current seen)
          (merge_all nodes graphs (vertices (graphs current)) g)
  unfolding elem
  visit-Inv current stack seen g inv =
      let vs = vertices (graphs current) in
      let edge = λ (t h : ℕ). is_edge-merge_all nodes graphs vs g t h in
      record {
        reached = λ o m. elim (Bool-cases (elem o stack)) [
          | inl old ↦ inv.reached o (ground arith)
          | inr new ↦
              next (inv.reached current (ground arith)) (ground (arith, elem-append o stack vs))
        ];
        sound = λ t h e. elim (Bool-cases (is_edge t h g)) [
          | inl old ↦ inv.sound t h old
          | inr new ↦
              let (v, m, l) = elem-links_all nodes graphs vs t h (ground (arith, edge t h)) in
              (v, next (inv.reached current (ground arith)) m, l)
        ];
        top_merged = λ t h l. ground (arith, edge t h, inv.top_merged t h);
        top_met =
            ground (arith, inv.top_met, elem-append top stack vs, elem-insert current top seen);
        merged = λ o v t h m k l. elim (Bool-cases (elem o seen)) [
          | inl old ↦ ground (arith, edge t h, inv.merged o v t h old k l)
          | inr new ↦
              let e = the_new current o seen m new in
              let k' = ap (λ a. elem v (vertices (graphs a))) e ∙ k in
              ground (arith, edge t h, links_all-elem nodes graphs vs v t h k' l)
        ];
        keys = merge_all-Distinct nodes graphs vs g inv.keys;
        closed = λ o v m k. elim (Bool-cases (elem o seen)) [
          | inl old ↦
              ground (arith, inv.closed o v, elem-append v stack vs, elem-insert current v seen)
          | inr new ↦
              let e = the_new current o seen m new in
              let k' = ap (λ a. elem v (vertices (graphs a))) e ∙ k in
              inl (ground (arith, elem-append v stack vs))
        ];
      }

  module _ (ids : List ℕ) (d : Distinct ids)
      (known : (o : ℕ) → Reach graphs top o → elem o ids ≡ true) where
    visit_ends :
        (fuel : ℕ) (stack seen : List ℕ) (g : Graph)
        → length stack + work graphs ids seen ≤ fuel
        → Inv stack seen g
        → (final : Graph) × (all : List ℕ) × (visit nodes graphs fuel stack seen g ≡ some final)
          × Inv [] all final
    unfolding visit
    visit_ends fuel [] seen g l inv = (g, seen, refl, inv)
    visit_ends zero (current ∷ stack) seen g l inv = absurd (omega arith)
    visit_ends (suc fuel) (current ∷ stack) seen g l inv = elim (Bool-cases (elem current seen)) [
      | inl old ↦
          rw old
            (visit_ends fuel stack seen g (omega arith) (skip-Inv current stack seen g old inv))
      | inr new ↦
          let met = known current (inv.reached current (elem-first current stack)) in
          rw new (
            visit_ends fuel (stack ++ vertices (graphs current)) (insert current seen)
              (merge_all nodes graphs (vertices (graphs current)) g)
              (omega (
                arith,
                length-append stack (vertices (graphs current)),
                work-insert graphs ids seen current d met new,
              ))
              (visit-Inv current stack seen g inv))
    ]

  all_seen :
      (seen : List ℕ) (g : Graph)
      → Inv [] seen g
      → (o : ℕ) → Reach graphs top o
      → elem o seen ≡ true
  unfolding elem
  all_seen seen g inv o here = ground (arith, inv.top_met)
  all_seen seen g inv o (next {o = p} r m) = ground (arith, all_seen seen g inv p r, inv.closed p o)

  all_merged :
      (seen : List ℕ) (g : Graph)
      → Inv [] seen g
      → (o t h : ℕ) → Reach graphs top o
      → Links o t h
      → is_edge t h g ≡ true
  all_merged seen g inv o t h here l = inv.top_merged t h l
  all_merged seen g inv o t h (next {o = p} r m) l =
      inv.merged p o t h (all_seen seen g inv p r) m l

-- With enough fuel for the graphs that can be met, the connected graph is returned with each vertex
-- once, and its edges lead from a tail to a head of the two ends of an edge in one of the graphs met from the top.
pub connect_graphs-edges :
    (nodes : ℕ → Node) (graphs : Graphs) (top : ℕ) (ids : List ℕ)
    → Distinct ids
    → ((o : ℕ) → Reach graphs top o → elem o ids ≡ true)
    → (final : Graph) × (connect_graphs nodes graphs (suc (work graphs ids [])) top ≡ some final)
      × Distinct (vertices final)
      × ((t h : ℕ)
          → is_edge t h final ≡ true
          → (o : ℕ) × Reach graphs top o × (links nodes (graphs o) t h ≡ true))
      × ((o t h : ℕ)
          → Reach graphs top o
          → links nodes (graphs o) t h ≡ true
          → is_edge t h final ≡ true)
unfolding connect_graphs
connect_graphs-edges nodes graphs top ids d known =
    let (final, all, e, inv) =
      visit_ends nodes graphs top ids d known (suc (work graphs ids [])) (top ∷ []) []
        (merge_graph nodes (graphs top) []) (omega arith) (start-Inv nodes graphs top) in
    (final, e, inv.keys, inv.sound, all_merged nodes graphs top all final inv)
