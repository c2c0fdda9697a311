-- ===== src/Delay/Graph/SortLoop.antt =====
-- The loop of `topological_sort`.
use integration_queue.Prelude.{
  ℕ, zero, suc, ◌+◌, ◌≡◌, ◌≤◌, ◌<◌, refl, true, false, ◌&&◌, ◌||◌, List, [], ◌∷◌, ◌++◌, some, ◌==◌,
  ltb, elem, Distinct, length, length-append, ℤ, pos, arith, Bool-cases, inl, inr, ◌∙◌, ap, sym,
  subst,
}
use integration_queue.Delay.Graph.{
  Graph, neighbours_of, vertices, release, Ending, finished, sort_loop,
}
use integration_queue.Delay.Graph.Keys.{
  is_edge, occurrences, pending, pending-neighbours_of, neighbours_of-elem, is_edge-pending,
  elem-occurrences, Distinct-length, elem-first,
}
use integration_queue.Delay.Graph.Release.{freed, release_lem, elem-freed, freed-Distinct}

-- A dictionary, as `add_vertex` and `add_edge` make them: no key twice, and every neighbour a key.
pub record IsGraph (g : Graph) : Type 0 where
  pub keys : Distinct (vertices g)
  pub closed : (u v : ℕ) → is_edge u v g ≡ true → elem v (vertices g) ≡ true

-- The state of the loop: what has been yielded, the queue and the counts.
pub record Inv (g : Graph) (seen queue : List ℕ) (depends : ℕ → ℤ) : Type 0 where
  pub counts : (v : ℕ) → depends v ≡ pos (pending g seen v)
  pub ready : (v : ℕ) → elem v queue ≡ true → pending g seen v ≡ 0
  pub settled : (v : ℕ) → elem v seen ≡ true → pending g seen v ≡ 0
  pub waiting :
      (v : ℕ)
      → elem v (vertices g) ≡ true
      → elem v queue ≡ false
      → elem v seen ≡ false
      → 0 < pending g seen v
  pub apart : (v : ℕ) → elem v queue ≡ true → elem v seen ≡ false
  pub queue_distinct : Distinct queue
  pub seen_distinct : Distinct seen
  pub queue_known : (v : ℕ) → elem v queue ≡ true → elem v (vertices g) ≡ true
  pub seen_known : (v : ℕ) → elem v seen ≡ true → elem v (vertices g) ≡ true

pub elem-append : (v : ℕ) (xs ys : List ℕ) → elem v (xs ++ ys) ≡ (elem v xs || elem v ys)
unfolding elem
elem-append v [] ys = refl
elem-append v (x ∷ xs) ys = ground (arith, elem-append v xs ys)

append-Distinct :
    (xs ys : List ℕ)
    → Distinct xs
    → Distinct ys
    → ((v : ℕ) → elem v xs ≡ true → elem v ys ≡ false)
    → Distinct (xs ++ ys)
unfolding elem
append-Distinct [] ys d e h = e
append-Distinct (x ∷ xs) ys d e h = (
  elem-append x xs ys ∙ rw (d.0) (h x (ground arith)),
  append-Distinct xs ys d.1 e (λ v m. h v (ground arith)),
)

neighbours_of-is_edge :
    (g : Graph) (u v : ℕ) {ns : List ℕ}
    → neighbours_of u g ≡ some ns
    → elem v ns ≡ true
    → is_edge u v g ≡ true
unfolding neighbours_of
neighbours_of-is_edge [] u v e h = ground arith
neighbours_of-is_edge ((w, ms) ∷ g) u v {ns} e h =
    ground (arith, neighbours_of-is_edge g u v {ns = ns})

-- One round of the loop.
module _ (g : Graph) (is_graph : IsGraph g) (seen : List ℕ) (x : ℕ) (queue : List ℕ)
    (depends : ℕ → ℤ) (inv : Inv g seen (x ∷ queue) depends) (ns : List ℕ)
    (e : neighbours_of x g ≡ some ns) where
  lowers : (v : ℕ) → pending g seen v ≡ pending g (x ∷ seen) v + occurrences v ns
  unfolding elem
  lowers v = pending-neighbours_of g seen x v is_graph.keys e (inv.apart x (ground arith))

  covers : (v : ℕ) → occurrences v ns ≤ pending g seen v
  covers v = omega (arith, lowers v)

  frees :
      (v : ℕ)
      → elem v (freed ns (pending g seen))
        ≡ (ltb 0 (occurrences v ns) && pending g seen v == occurrences v ns)
  frees v = elem-freed ns (pending g seen) v (covers v)

  next_queue : List ℕ
  next_queue = queue ++ freed ns (pending g seen)

  round_ready : (v : ℕ) → elem v next_queue ≡ true → pending g (x ∷ seen) v ≡ 0
  unfolding elem next_queue
  round_ready v h =
      ground
        (arith, elem-append v queue (freed ns (pending g seen)), frees v, lowers v, inv.ready v)

  round_settled : (v : ℕ) → elem v (x ∷ seen) ≡ true → pending g (x ∷ seen) v ≡ 0
  unfolding elem
  round_settled v h = ground (arith, lowers v, inv.settled v, inv.ready v)

  round_waiting :
      (v : ℕ)
      → elem v (vertices g) ≡ true
      → elem v next_queue ≡ false
      → elem v (x ∷ seen) ≡ false
      → 0 < pending g (x ∷ seen) v
  unfolding elem next_queue
  round_waiting v k q s =
      ground
        (arith, elem-append v queue (freed ns (pending g seen)), frees v, lowers v, inv.waiting v)

  round_apart : (v : ℕ) → elem v next_queue ≡ true → elem v (x ∷ seen) ≡ false
  unfolding elem next_queue
  round_apart v h = ground (
    arith,
    elem-append v queue (freed ns (pending g seen)),
    frees v,
    inv.settled v,
    inv.ready v,
    inv.apart v,
    inv.queue_distinct,
  )

  round_known : (v : ℕ) → elem v next_queue ≡ true → elem v (vertices g) ≡ true
  unfolding elem next_queue
  round_known v h = ground (
    arith,
    elem-append v queue (freed ns (pending g seen)),
    frees v,
    inv.queue_known v,
    elem-occurrences v ns,
    neighbours_of-is_edge g x v e,
    is_graph.closed x v,
  )

  round_queue-Distinct : Distinct next_queue
  unfolding next_queue elem
  round_queue-Distinct =
      append-Distinct queue (freed ns (pending g seen)) inv.queue_distinct.1
        (freed-Distinct ns (pending g seen) covers) (λ v h. ground (arith, frees v, inv.ready v))

  round_counts : (v : ℕ) → (release ns depends queue).0 v ≡ pos (pending g (x ∷ seen) v)
  round_counts v =
      (release_lem ns depends (pending g seen) queue inv.counts covers).1 v
      ∙ ap pos (omega (arith, lowers v))

  pub round-Inv : Inv g (x ∷ seen) (release ns depends queue).1 (release ns depends queue).0
  unfolding elem next_queue
  round-Inv =
      let queues : (release ns depends queue).1 ≡ next_queue =
        (release_lem ns depends (pending g seen) queue inv.counts covers).0 in
      let first = inv.queue_known x (elem-first x queue) in
      subst (λ q. Inv g (x ∷ seen) q (release ns depends queue).0) (sym queues)
        (record {
          counts = round_counts;
          ready = round_ready;
          settled = round_settled;
          waiting = round_waiting;
          apart = round_apart;
          queue_distinct = round_queue-Distinct;
          seen_distinct = (inv.apart x (elem-first x queue), inv.seen_distinct);
          queue_known = round_known;
          seen_known = λ v h. ground (arith, inv.seen_known v, first);
        })

-- Each vertex comes when all its parents have come before it.
abbrev pub AfterParents : Graph → List ℕ → List ℕ → Type 0
AfterParents g seen [] = Unit {0}
AfterParents g seen (x ∷ out) =
    ((u : ℕ) → is_edge u x g ≡ true → elem u seen ≡ true) × AfterParents g (x ∷ seen) out

-- What has been yielded once `out` has come too.
abbrev pub onto : List ℕ → List ℕ → List ℕ
onto [] seen = seen
onto (x ∷ out) seen = onto out (x ∷ seen)

settled-parents :
    (g : Graph) (seen : List ℕ) (v : ℕ)
    → pending g seen v ≡ 0
    → (u : ℕ) → is_edge u v g ≡ true
    → elem u seen ≡ true
settled-parents g seen v p u h = elim (Bool-cases (elem u seen)) [
  | inl e ↦ e
  | inr e ↦ absurd (omega (arith, is_edge-pending g seen u v h e))
]

-- The whole loop, where the fuel is at least the number of vertices that are not yielded.
abbrev pub LoopSpec : Graph → List ℕ → List ℕ × Ending → Type 0
LoopSpec g seen (out, ending) =
    (ending ≡ finished)
    × AfterParents g seen out
    × ((depends : ℕ → ℤ) × Inv g (onto out seen) [] depends)

sized :
    (g : Graph) (seen queue : List ℕ) (depends : ℕ → ℤ)
    → IsGraph g
    → Inv g seen queue depends
    → length queue + length seen ≤ length (vertices g)
sized g seen queue depends w inv = omega (
  arith,
  length-append queue seen,
  Distinct-length (queue ++ seen) (vertices g)
      (append-Distinct queue seen inv.queue_distinct inv.seen_distinct inv.apart)
      (λ v h. ground (arith, elem-append v queue seen, inv.queue_known v, inv.seen_known v)) w.keys,
)

pub sort_loop_lem :
    (g : Graph) (fuel : ℕ) (depends : ℕ → ℤ) (queue seen : List ℕ)
    → IsGraph g
    → length (vertices g) ≤ length seen + fuel
    → Inv g seen queue depends
    → LoopSpec g seen (sort_loop g fuel depends queue)
unfolding sort_loop
sort_loop_lem g fuel depends [] seen w l inv = (refl, tt, (depends, inv))
sort_loop_lem g zero depends (x ∷ queue) seen w l inv =
    absurd (omega (arith, sized g seen (x ∷ queue) depends w inv))
sort_loop_lem g (suc fuel) depends (x ∷ queue) seen w l inv =
    let (ns, e) = neighbours_of-elem g x (inv.queue_known x (elem-first x queue)) in
    let after = round-Inv g w seen x queue depends inv ns e in
    let (ends, ordered, rest) =
      sort_loop_lem g fuel (release ns depends queue).0 (release ns depends queue).1 (x ∷ seen) w
        (omega arith) after in
    rw (sort_loop, e)
      (ends, (settled-parents g seen x (inv.ready x (elem-first x queue)), ordered), rest)
