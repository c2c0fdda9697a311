-- ===== src/Delay/Launch/Stored.antt =====
-- The rows of the jobs of a graph that is delayed.
use integration_queue.Prelude.{
  ℕ, ◌≡◌, ◌≤◌, refl, sym, ap, ◌∙◌, true, false, ◌&&◌, ◌||◌, List, [], ◌∷◌, ◌++◌, map, none, some,
  if◌then◌else◌, ◌==◌, ==_iff, Distinct, elem, length, Text, text_eq, arith, Bool-cases, inl, inr,
}
use integration_queue.Job.State.{pending, done, wait_dependencies, ◌is◌}
use integration_queue.Job.Record.{Job, Table, elem_text}
use integration_queue.Job.Store.{find_row, truthy}
use integration_queue.Job.Create.{JobObjects}
use integration_queue.Delay.Graph.{Graph, vertices, edges}
use integration_queue.Delay.Graph.Keys.{is_edge, is_edge-elem, elem-first, elem-later}
use integration_queue.Delay.Graph.SortLoop.{IsGraph}
use integration_queue.Delay.Launch.{
  ensure_same_graph_uuid, add_all_depends, IdentityKeys, find_existing, built_row, store_all,
  stored, store_unless, delay,
}
use integration_queue.Delay.Launch.Rows.{DistinctUuids, Unstored, store_all-others, store_all-row}
use integration_queue.Delay.Launch.Same.{ensure_same_graph_uuid_lem}
use integration_queue.Delay.Launch.Depends.{
  listed, parent_uuid, has_edge, MayDepend, Linked, add_all_depends-Linked,
}

-- The edges of a graph, as a list.
listed-append :
    (p c : ℕ) (es fs : List (ℕ × ℕ)) → listed p c (es ++ fs) ≡ (listed p c es || listed p c fs)
listed-append p c [] fs = refl
listed-append p c ((q, d) ∷ es) fs = ground (arith, listed-append p c es fs)

listed-map : (p c u : ℕ) (ns : List ℕ) → listed p c (map (λ n. (u, n)) ns) ≡ (u == p && elem c ns)
unfolding elem
listed-map p c u [] = ground arith
listed-map p c u (n ∷ ns) = ground (arith, listed-map p c u ns)

listed-edges : (p c : ℕ) (g : Graph) → listed p c (edges g) ≡ is_edge p c g
unfolding edges
listed-edges p c [] = refl
listed-edges p c ((u, ns) ∷ g) =
    listed-append p c (map (λ n. (u, n)) ns) (edges g)
    ∙ ground (arith, listed-map p c u ns, listed-edges p c g)

listed-has_edge : (p c : ℕ) (es : List (ℕ × ℕ)) → listed p c es ≡ true → has_edge c es ≡ true
listed-has_edge p c [] h = ground arith
listed-has_edge p c ((q, d) ∷ es) h = ground (arith, listed-has_edge p c es)

has_edge-listed :
    (c : ℕ) (es : List (ℕ × ℕ)) → has_edge c es ≡ true → (p : ℕ) × (listed p c es ≡ true)
has_edge-listed c [] h = absurd (ground arith)
has_edge-listed c ((q, d) ∷ es) h = elim (Bool-cases (d == c)) [
  | inl e ↦ (q, ground arith)
  | inr e ↦ let (p, l) = has_edge-listed c es (ground arith) in (p, ground arith)
]

MayDepend-listed :
    (jobs : JobObjects) (es : List (ℕ × ℕ))
    → ((p c : ℕ)
        → listed p c es ≡ true
        → (text_eq (jobs c).uuid (jobs p).uuid ≡ false) × ((jobs p).state is done ≡ false))
    → MayDepend jobs es
MayDepend-listed jobs [] h = tt
MayDepend-listed jobs ((p, c) ∷ es) h =
    let first = h p c (ground arith) in
    (first.0, first.1, MayDepend-listed jobs es (λ q d l. h q d (ground arith)))

-- A uuid is that of a parent just if its vertex is a parent.
parent_uuid-listed :
    (jobs : JobObjects) (b a : ℕ) (es : List (ℕ × ℕ))
    → ((p c : ℕ) → listed p c es ≡ true → text_eq (jobs p).uuid (jobs b).uuid ≡ (p == b))
    → parent_uuid jobs (jobs b).uuid a es ≡ listed b a es
parent_uuid-listed jobs b a [] h = refl
parent_uuid-listed jobs b a ((p, c) ∷ es) h =
    let first = h p c (ground arith) in
    ground (arith, first, parent_uuid-listed jobs b a es (λ q d l. h q d (ground arith)))

-- The jobs of the graph are as `_build_job` makes them, without an identity key, and have uuids of
-- their own, which no row has.
pub record IsNew (keys : IdentityKeys) (g : Graph) (jobs : JobObjects) (table : Table)
    : Type 0 where
  pub is_pending : (a : ℕ) → elem a (vertices g) ≡ true → (jobs a).state ≡ pending
  pub no_graph : (a : ℕ) → elem a (vertices g) ≡ true → truthy (jobs a).graph_uuid ≡ none
  pub no_key : (a : ℕ) → elem a (vertices g) ≡ true → keys.is_set a ≡ false
  pub no_parents : (a : ℕ) → elem a (vertices g) ≡ true → (jobs a).depends_on ≡ []
  pub own_uuid :
      (a b : ℕ)
      → elem a (vertices g) ≡ true
      → elem b (vertices g) ≡ true
      → text_eq (jobs a).uuid (jobs b).uuid ≡ (a == b)
  pub no_row : (a : ℕ) → elem a (vertices g) ≡ true → find_row (jobs a).uuid table ≡ none

-- The row of a vertex: its parents are those in the graph, and it waits if it has one.
pub record RowOf (g : Graph) (jobs : JobObjects) (uuid : Text) (a : ℕ) (row : Job) : Type 0 where
  pub in_graph : row.graph_uuid ≡ some uuid
  pub parents :
      (b : ℕ) → elem b (vertices g) ≡ true → elem_text (jobs b).uuid row.depends_on ≡ is_edge b a g
  pub waits : (b : ℕ) → is_edge b a g ≡ true → row.state ≡ wait_dependencies
  pub ready : ((b : ℕ) → is_edge b a g ≡ false) → row.state ≡ pending

find_existing-no_key :
    (keys : IdentityKeys) (vs : List ℕ) (jobs : JobObjects) (table : Table)
    → ((a : ℕ) → elem a vs ≡ true → keys.is_set a ≡ false)
    → find_existing keys vs jobs table [] ≡ []
unfolding find_existing
find_existing-no_key keys [] jobs table h = refl
find_existing-no_key keys (v ∷ vs) jobs table h =
    rw (h v (elem-first v vs))
      (find_existing-no_key keys vs jobs table (λ a m. h a (elem-later v a vs m)))

-- Jobs without a graph all get the fresh uuid.
given_fresh :
    (fresh : Text) (vs : List ℕ) (jobs : JobObjects)
    → 2 ≤ length vs
    → ((a : ℕ) → elem a vs ≡ true → truthy (jobs a).graph_uuid ≡ none)
    → (same : JobObjects) × (ensure_same_graph_uuid fresh vs jobs ≡ some same)
      × ((a : ℕ) → elem a vs ≡ true → same a ≡ record (jobs a) { graph_uuid = some fresh })
given_fresh fresh [] jobs l n = absurd (omega arith)
given_fresh fresh (v ∷ []) jobs l n = absurd (omega arith)
given_fresh fresh (v ∷ w ∷ vs) jobs l n = elim (ensure_same_graph_uuid_lem jobs fresh v w vs) [
  | inl (u, same, e, s) ↦ elim s.source [
    | inl is_fresh ↦
        (same, e, λ a m. s.given a m ∙ ap (λ t. record (jobs a) { graph_uuid = some t }) is_fresh)
    | inr (a, m, h) ↦ absurd (ground (arith, n a m, h))
  ]
  | inr (e, (a, b, x, y, m, k, h, rest, d)) ↦ absurd (ground (arith, n a m, h))
]

DistinctUuids-Distinct :
    (jobs : JobObjects) (vs : List ℕ)
    → Distinct vs
    → ((a b : ℕ)
        → elem a vs ≡ true
        → elem b vs ≡ true
        → text_eq (jobs a).uuid (jobs b).uuid ≡ (a == b))
    → DistinctUuids jobs vs
unfolding elem
DistinctUuids-Distinct jobs [] d own = tt
DistinctUuids-Distinct jobs (v ∷ vs) (out, d) own = (
  λ a m. own v a (elem-first v vs) (elem-later v a vs m) ∙ ground (arith, out, m),
  DistinctUuids-Distinct jobs vs d (λ a b m k. own a b (elem-later v a vs m) (elem-later v b vs k)),
)

delay_lem :
    (keys : IdentityKeys) (fresh : Text) (g : Graph) (jobs same linked : JobObjects) (table : Table)
    → ensure_same_graph_uuid fresh (vertices g) jobs ≡ some same
    → add_all_depends (edges g) same ≡ some linked
    → find_existing keys (vertices g) linked table [] ≡ []
    → delay keys false fresh g jobs table ≡ stored (store_all (vertices g) linked table)
unfolding delay store_unless
delay_lem keys fresh g jobs same linked table e1 e2 e3 = rw (e1, e2, e3, delay) refl

module _ (keys : IdentityKeys) (fresh : Text) (g : Graph) (jobs : JobObjects) (table : Table)
    (is_graph : IsGraph g) (no_loop : (a : ℕ) → is_edge a a g ≡ false)
    (new : IsNew keys g jobs table) where
  -- The jobs with the fresh uuid, and then with their parents.
  record Stages (same linked : JobObjects) : Type 0 where
    given :
        (a : ℕ) → elem a (vertices g) ≡ true → same a ≡ record (jobs a) { graph_uuid = some fresh }
    linked_from : Linked (edges g) same linked

  ends_known :
      (p c : ℕ)
      → listed p c (edges g) ≡ true
      → (is_edge p c g ≡ true) × (elem p (vertices g) ≡ true) × (elem c (vertices g) ≡ true)
  ends_known p c l =
      let e = sym (listed-edges p c g) ∙ l in (e, is_edge-elem g p c e, is_graph.closed p c e)

  ends_differ : (p c : ℕ) → is_edge p c g ≡ true → c == p ≡ false
  ends_differ p c e = elim (Bool-cases (c == p)) [
    | inl same ↦
        absurd (ground (arith, no_loop p, ap (λ d. is_edge p d g) ((==_iff c p).0 same), e))
    | inr other ↦ other
  ]

  may_depend :
      (same : JobObjects)
      → ((a : ℕ)
          → elem a (vertices g) ≡ true
          → same a ≡ record (jobs a) { graph_uuid = some fresh })
      → MayDepend same (edges g)
  may_depend same given = MayDepend-listed same (edges g) (λ p c l.
      let (e, m, k) = ends_known p c l in
      (
        rw (given p m, given c k) (new.own_uuid c p k m ∙ ends_differ p c e),
        rw (given p m, new.is_pending p m) refl,
      ))

  module _ (same linked : JobObjects) (s : Stages same linked) where
    uuid_after : (a : ℕ) → elem a (vertices g) ≡ true → (linked a).uuid ≡ (jobs a).uuid
    uuid_after a m = s.linked_from.same_uuid a ∙ ap (λ j. j.uuid) (s.given a m)

    distinct_after : DistinctUuids linked (vertices g)
    distinct_after =
        DistinctUuids-Distinct linked (vertices g) is_graph.keys
          (λ a b m k. rw (uuid_after a m, uuid_after b k) (new.own_uuid a b m k))

    rows_after : Unstored linked (vertices g) table
    rows_after a m = ap (λ u. find_row u table) (uuid_after a m) ∙ new.no_row a m

    state_of :
        (a : ℕ)
        → elem a (vertices g) ≡ true
        → (linked a).state ≡ (if has_edge a (edges g) then wait_dependencies else pending)
    state_of a m =
        s.linked_from.state_after a
        ∙ ap (λ t. if has_edge a (edges g) then wait_dependencies else t)
            (ap (λ j. j.state) (s.given a m) ∙ new.is_pending a m)

    uuid_given : (a : ℕ) → elem a (vertices g) ≡ true → (same a).uuid ≡ (jobs a).uuid
    uuid_given a m = ap (λ j. j.uuid) (s.given a m)

    parents_of :
        (a b : ℕ)
        → elem a (vertices g) ≡ true
        → elem b (vertices g) ≡ true
        → elem_text (jobs b).uuid (linked a).depends_on ≡ is_edge b a g
    unfolding elem_text
    parents_of a b m k =
        let none_before = ap (λ j. j.depends_on) (s.given a m) ∙ new.no_parents a m in
        s.linked_from.parents a (jobs b).uuid
        ∙ ap (λ us. elem_text (jobs b).uuid us || parent_uuid same (jobs b).uuid a (edges g))
            none_before
        ∙ ap (λ u. parent_uuid same u a (edges g)) (sym (uuid_given b k))
        ∙ parent_uuid-listed same b a (edges g) (λ p c l.
          let n = (ends_known p c l).1 in
          rw (uuid_given p n, uuid_given b k) (new.own_uuid p b n k))
        ∙ listed-edges b a g

    row_of : (a : ℕ) → elem a (vertices g) ≡ true → RowOf g jobs fresh a (built_row (linked a))
    unfolding built_row
    row_of a m = record {
      in_graph = s.linked_from.keeps_graph a ∙ ap (λ j. j.graph_uuid) (s.given a m);
      parents = λ b k. parents_of a b m k;
      waits =
          λ b e. state_of a m ∙ rw (listed-has_edge b a (edges g) (listed-edges b a g ∙ e)) refl;
      ready = λ h. state_of a m ∙ elim (Bool-cases (has_edge a (edges g))) [
        | inl e ↦
            let (b, l) = has_edge-listed a (edges g) e in
            absurd (ground (arith, h b, ends_known b a l))
        | inr e ↦ rw e refl
      ];
    }

  -- The jobs of a graph of two or more, none of which depends on itself, are all stored when they are
  -- new: each has the fresh graph uuid and its parents in the graph, waits if it has one and is pending
  -- if it has none; the other rows stay as they are.
  pub delay-RowOf :
      2 ≤ length (vertices g)
      → (after : Table) × (delay keys false fresh g jobs table ≡ stored after)
        × ((a : ℕ)
            → elem a (vertices g) ≡ true
            → (row : Job) × (find_row (jobs a).uuid after ≡ some row) × RowOf g jobs fresh a row)
        × ((x : Text)
            → ((a : ℕ) → elem a (vertices g) ≡ true → text_eq (jobs a).uuid x ≡ false)
            → find_row x after ≡ find_row x table)
  delay-RowOf two =
      let (same, e1, given) = given_fresh fresh (vertices g) jobs two new.no_graph in
      let (linked, e2, l) = add_all_depends-Linked (edges g) same (may_depend same given) in
      let s : Stages same linked = record { given = given; linked_from = l } in
      let vs = vertices g in
      (
        store_all vs linked table,
        delay_lem keys fresh g jobs same linked table e1 e2
            (find_existing-no_key keys vs linked table new.no_key),
        λ a m. (
          built_row (linked a),
          ap (λ u. find_row u (store_all vs linked table)) (sym (uuid_after same linked s a m))
              ∙ store_all-row linked vs table a (distinct_after same linked s)
                  (rows_after same linked s) m,
          row_of same linked s a m,
        ),
        λ x other.
            store_all-others linked vs table x (distinct_after same linked s)
              (rows_after same linked s)
              (λ a m. ap (λ u. text_eq u x) (uuid_after same linked s a m) ∙ other a m),
      )
