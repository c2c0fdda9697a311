-- ===== src/Delay/Launch/Depends.antt =====
-- The jobs of a graph once each edge is a dependency.
use integration_queue.Prelude.{
  ℕ, ◌⊎◌, ◌≡◌, refl, ap, ◌∙◌, Bool, true, false, ◌&&◌, ◌||◌, List, [], ◌∷◌, some, if◌then◌else◌,
  ◌==◌, ==_iff, Text, text_eq, arith, Bool-cases, inl, inr,
}
use integration_queue.Job.State.{done, wait_dependencies, ◌is◌}
use integration_queue.Job.Record.{Job, elem_text}
use integration_queue.Job.Create.{JobObjects, with_parent, with_child, add_depends}
use integration_queue.Delay.Launch.{add_all_depends}
use integration_queue.Delay.Launch.Same.{elem_text-insert_text}

-- The pair is one of the edges.
abbrev pub listed : ℕ → ℕ → List (ℕ × ℕ) → Bool
listed p c [] = false
listed p c ((q, d) ∷ es) = (q == p && d == c) || listed p c es

-- The uuid is that of a parent, or of a child, of the vertex.
abbrev pub parent_uuid : JobObjects → Text → ℕ → List (ℕ × ℕ) → Bool
parent_uuid jobs x c [] = false
parent_uuid jobs x c ((q, d) ∷ es) = (d == c && text_eq (jobs q).uuid x) || parent_uuid jobs x c es

abbrev pub has_edge : ℕ → List (ℕ × ℕ) → Bool
has_edge c [] = false
has_edge c ((q, d) ∷ es) = d == c || has_edge c es

-- The jobs may be joined by the edges.
abbrev pub MayDepend : JobObjects → List (ℕ × ℕ) → Type 0
MayDepend jobs [] = Unit {0}
MayDepend jobs ((p, c) ∷ es) =
    (text_eq (jobs c).uuid (jobs p).uuid ≡ false)
    × ((jobs p).state is done ≡ false)
    × MayDepend jobs es

-- Every attribute is as before but the state and the uuids of parents and children.
pub record Linked (es : List (ℕ × ℕ)) (jobs linked : JobObjects) : Type 0 where
  pub same_uuid : (a : ℕ) → (linked a).uuid ≡ (jobs a).uuid
  pub keeps_graph : (a : ℕ) → (linked a).graph_uuid ≡ (jobs a).graph_uuid
  pub same_key : (a : ℕ) → (linked a).identity_key ≡ (jobs a).identity_key
  pub parents :
      (a : ℕ) (x : Text)
      → elem_text x (linked a).depends_on
        ≡ (elem_text x (jobs a).depends_on || parent_uuid jobs x a es)
  pub state_after :
      (a : ℕ) → (linked a).state ≡ (if has_edge a es then wait_dependencies else (jobs a).state)

-- The jobs after one `add_depends`.
abbrev after_edge : ℕ → ℕ → JobObjects → JobObjects
after_edge p c jobs a =
    if c == a
    then with_parent (jobs p) (jobs c)
    else if p == a
    then with_child (jobs c) (jobs p)
    else jobs a

module _ (p c : ℕ) (jobs : JobObjects) where
  after_edge-child : (a : ℕ) → c == a ≡ true → after_edge p c jobs a ≡ with_parent (jobs p) (jobs a)
  after_edge-child a e = rw (e, (==_iff c a).0 e) refl

  after_edge-other :
      (a : ℕ)
      → c == a ≡ false
      → (after_edge p c jobs a ≡ with_child (jobs c) (jobs a)) ⊎ (after_edge p c jobs a ≡ jobs a)
  after_edge-other a e = elim (Bool-cases (p == a)) [
    | inl e' ↦ inl (rw (e, e', (==_iff p a).0 e') refl)
    | inr e' ↦ inr (rw (e, e') refl)
  ]

  -- An attribute that neither method sets.
  module _ {ℓ} {A : Type ℓ} (attribute : Job → A)
      (by_parent : (x j : Job) → attribute (with_parent x j) ≡ attribute j)
      (by_child : (x j : Job) → attribute (with_child x j) ≡ attribute j) where
    after_edge-attribute : (a : ℕ) → attribute (after_edge p c jobs a) ≡ attribute (jobs a)
    after_edge-attribute a = elim (Bool-cases (c == a)) [
      | inl e ↦ ap attribute (after_edge-child a e) ∙ by_parent (jobs p) (jobs a)
      | inr e ↦ elim (after_edge-other a e) [
        | inl o ↦ ap attribute o ∙ by_child (jobs c) (jobs a)
        | inr o ↦ ap attribute o
      ]
    ]

  after_edge-uuid : (a : ℕ) → (after_edge p c jobs a).uuid ≡ (jobs a).uuid
  unfolding with_parent with_child
  after_edge-uuid = after_edge-attribute (λ j. j.uuid) (λ x j. refl) (λ x j. refl)

  after_edge-graph_uuid : (a : ℕ) → (after_edge p c jobs a).graph_uuid ≡ (jobs a).graph_uuid
  unfolding with_parent with_child
  after_edge-graph_uuid = after_edge-attribute (λ j. j.graph_uuid) (λ x j. refl) (λ x j. refl)

  after_edge-identity_key : (a : ℕ) → (after_edge p c jobs a).identity_key ≡ (jobs a).identity_key
  unfolding with_parent with_child
  after_edge-identity_key = after_edge-attribute (λ j. j.identity_key) (λ x j. refl) (λ x j. refl)

  after_edge-depends_on :
      (a : ℕ) (x : Text)
      → elem_text x (after_edge p c jobs a).depends_on
        ≡ (elem_text x (jobs a).depends_on || (c == a && text_eq (jobs p).uuid x))
  unfolding with_parent with_child
  after_edge-depends_on a x = elim (Bool-cases (c == a)) [
    | inl e ↦
        ap (λ j. elem_text x j.depends_on) (after_edge-child a e)
        ∙ elem_text-insert_text (jobs p).uuid x (jobs a).depends_on
        ∙ ground (arith, e)
    | inr e ↦ elim (after_edge-other a e) [
      | inl o ↦ ap (λ j. elem_text x j.depends_on) o ∙ ground (arith, e)
      | inr o ↦ ap (λ j. elem_text x j.depends_on) o ∙ ground (arith, e)
    ]
  ]

  after_edge-state :
      (a : ℕ)
      → (jobs p).state is done ≡ false
      → (after_edge p c jobs a).state ≡ (if c == a then wait_dependencies else (jobs a).state)
  unfolding with_parent with_child
  after_edge-state a n = elim (Bool-cases (c == a)) [
    | inl e ↦ ap (λ j. j.state) (after_edge-child a e) ∙ rw (n, e) refl
    | inr e ↦ elim (after_edge-other a e) [
      | inl o ↦ ap (λ j. j.state) o ∙ rw e refl
      | inr o ↦ ap (λ j. j.state) o ∙ rw e refl
    ]
  ]

-- What the later edges ask is still so.
after_edge-not_done :
    (p c a : ℕ) (jobs : JobObjects)
    → (jobs p).state is done ≡ false
    → (jobs a).state is done ≡ false
    → (after_edge p c jobs a).state is done ≡ false
after_edge-not_done p c a jobs n m =
    ap (λ s. s is done) (after_edge-state p c jobs a n)
    ∙ elim (Bool-cases (c == a)) [ inl e ↦ rw e refl | inr e ↦ rw e m ]

MayDepend-after_edge :
    (p c : ℕ) (jobs : JobObjects) (es : List (ℕ × ℕ))
    → (jobs p).state is done ≡ false
    → MayDepend jobs es
    → MayDepend (after_edge p c jobs) es
MayDepend-after_edge p c jobs [] n m = tt
MayDepend-after_edge p c jobs ((q, d) ∷ es) n (differ, undone, m) = (
  rw (after_edge-uuid p c jobs d, after_edge-uuid p c jobs q) differ,
  after_edge-not_done p c q jobs n undone,
  MayDepend-after_edge p c jobs es n m,
)

parent_uuid-after_edge :
    (p c : ℕ) (jobs : JobObjects) (x : Text) (a : ℕ) (es : List (ℕ × ℕ))
    → parent_uuid (after_edge p c jobs) x a es ≡ parent_uuid jobs x a es
parent_uuid-after_edge p c jobs x a [] = refl
parent_uuid-after_edge p c jobs x a ((q, d) ∷ es) =
    rw (after_edge-uuid p c jobs q, parent_uuid-after_edge p c jobs x a es) refl

Linked-step :
    (p c : ℕ) (es : List (ℕ × ℕ)) (jobs linked : JobObjects)
    → (jobs p).state is done ≡ false
    → Linked es (after_edge p c jobs) linked
    → Linked ((p, c) ∷ es) jobs linked
Linked-step p c es jobs linked n l = record {
  same_uuid = λ a. l.same_uuid a ∙ after_edge-uuid p c jobs a;
  keeps_graph = λ a. l.keeps_graph a ∙ after_edge-graph_uuid p c jobs a;
  same_key = λ a. l.same_key a ∙ after_edge-identity_key p c jobs a;
  parents = λ a x. ground (
    arith,
    l.parents a x,
    after_edge-depends_on p c jobs a x,
    parent_uuid-after_edge p c jobs x a es,
  );
  state_after = λ a. ground (arith, l.state_after a, after_edge-state p c jobs a n);
}

Linked-none : (jobs : JobObjects) → Linked [] jobs jobs
Linked-none jobs = record {
  same_uuid = λ a. refl;
  keeps_graph = λ a. refl;
  same_key = λ a. refl;
  parents = λ a x. ground arith;
  state_after = λ a. refl;
}

add_depends-after_edge :
    (p c : ℕ) (jobs : JobObjects)
    → text_eq (jobs c).uuid (jobs p).uuid ≡ false
    → add_depends c p jobs ≡ some (after_edge p c jobs)
unfolding add_depends
add_depends-after_edge p c jobs differ = rw (differ, add_depends) refl

-- All edges are made dependencies.
pub add_all_depends-Linked :
    (es : List (ℕ × ℕ)) (jobs : JobObjects)
    → MayDepend jobs es
    → (linked : JobObjects) × (add_all_depends es jobs ≡ some linked) × Linked es jobs linked
unfolding add_all_depends
add_all_depends-Linked [] jobs m = (jobs, refl, Linked-none jobs)
add_all_depends-Linked ((p, c) ∷ es) jobs (differ, undone, m) =
    let (linked, e, l) =
      add_all_depends-Linked es (after_edge p c jobs) (MayDepend-after_edge p c jobs es undone m) in
    (
      linked,
      rw (add_depends-after_edge p c jobs differ, add_all_depends) e,
      Linked-step p c es jobs linked undone l,
    )
