-- ===== src/Delay/Graph/Keys.antt =====
-- The edges of a graph, and how many of them lead to a vertex from outside a set.
use integration_queue.Prelude.{
  ℕ, suc, ◌+◌, ◌≡◌, ◌≤◌, ◌<◌, inl, inr, refl, ap, ◌∙◌, Bool, true, false, ◌&&◌, ◌||◌, List, [], ◌∷◌,
  ◌++◌, map, some, if◌then◌else◌, ◌==◌, elem, Distinct, length, discard, discard-Distinct,
  length-discard, elem-discard, arith, Bool-cases,
}
use integration_queue.Delay.Graph.{Graph, neighbours_of, vertices, edges, count_edges}

-- `(u, v)` is one of the edges.
abbrev pub is_edge : ℕ → ℕ → Graph → Bool
is_edge u v [] = false
is_edge u v ((w, ns) ∷ g) = w == u && elem v ns || is_edge u v g

abbrev pub occurrences : ℕ → List ℕ → ℕ
occurrences v [] = 0
occurrences v (n ∷ ns) = if n == v then suc (occurrences v ns) else occurrences v ns

-- The edges to `v` from vertices that are not in the set.
unfoldable pub pending : Graph → List ℕ → ℕ → ℕ
pending [] seen v = 0
pending ((u, ns) ∷ g) seen v = (if elem u seen then 0 else occurrences v ns) + pending g seen v

count_edges-append :
    (es fs : List (ℕ × ℕ)) (v : ℕ) → count_edges (es ++ fs) v ≡ count_edges es v + count_edges fs v
unfolding count_edges
count_edges-append [] fs v = omega arith
count_edges-append ((a, b) ∷ es) fs v = ground (arith, count_edges-append es fs v)

count_edges-map :
    (u : ℕ) (ns : List ℕ) (v : ℕ) → count_edges (map (λ n. (u, n)) ns) v ≡ occurrences v ns
unfolding count_edges
count_edges-map u [] v = refl
count_edges-map u (n ∷ ns) v = ground (arith, count_edges-map u ns v)

pub count_edges-pending : (g : Graph) (v : ℕ) → count_edges (edges g) v ≡ pending g [] v
unfolding edges pending count_edges elem
count_edges-pending [] v = refl
count_edges-pending ((u, ns) ∷ g) v = omega (
  arith,
  count_edges-append (map (λ n. (u, n)) ns) (edges g) v,
  count_edges-map u ns v,
  count_edges-pending g v,
)

pub occurrences-elem : (v : ℕ) (ns : List ℕ) → elem v ns ≡ true → 0 < occurrences v ns
unfolding elem
occurrences-elem v [] h = ground arith
occurrences-elem v (n ∷ ns) h = ground (arith, occurrences-elem v ns)

pub elem-occurrences : (v : ℕ) (ns : List ℕ) → 0 < occurrences v ns → elem v ns ≡ true
unfolding elem
elem-occurrences v [] h = ground arith
elem-occurrences v (n ∷ ns) h = ground (arith, elem-occurrences v ns)

-- An edge from outside the set is counted.
pub is_edge-pending :
    (g : Graph) (seen : List ℕ) (u v : ℕ)
    → is_edge u v g ≡ true
    → elem u seen ≡ false
    → 0 < pending g seen v
unfolding pending
is_edge-pending [] seen u v e h = ground arith
is_edge-pending ((w, ns) ∷ g) seen u v e h =
    ground (arith, occurrences-elem v ns, is_edge-pending g seen u v)

-- If some edge is counted, it comes from outside the set.
pub pending-is_edge :
    (g : Graph) (seen : List ℕ) (v : ℕ)
    → 0 < pending g seen v
    → (u : ℕ) × (is_edge u v g ≡ true) × (elem u seen ≡ false)
unfolding pending
pending-is_edge [] seen v h = absurd (ground arith)
pending-is_edge ((w, ns) ∷ g) seen v h = elim (Bool-cases (elem w seen)) [
  | inl old ↦ let (u, e, out) = pending-is_edge g seen v (ground arith) in (u, ground arith, out)
  | inr new ↦ elim (Bool-cases (elem v ns)) [
    | inl here ↦ (w, ground arith, new)
    | inr there ↦
        let (u, e, out) = pending-is_edge g seen v (ground (arith, elem-occurrences v ns)) in
        (u, ground arith, out)
  ]
]

pending-other :
    (g : Graph) (seen : List ℕ) (x v : ℕ)
    → elem x (vertices g) ≡ false
    → pending g (x ∷ seen) v ≡ pending g seen v
unfolding pending vertices elem
pending-other [] seen x v h = refl
pending-other ((w, ns) ∷ g) seen x v h = ground (arith, pending-other g seen x v)

-- The vertex that joins the set takes its neighbours off the counts.
pub pending-neighbours_of :
    (g : Graph) (seen : List ℕ) (x : ℕ) {ns : List ℕ} (v : ℕ)
    → Distinct (vertices g)
    → neighbours_of x g ≡ some ns
    → elem x seen ≡ false
    → pending g seen v ≡ pending g (x ∷ seen) v + occurrences v ns
unfolding pending vertices neighbours_of elem
pending-neighbours_of [] seen x v d e h = ground arith
pending-neighbours_of ((w, ms) ∷ g) seen x {ns} v d e h =
    ground (arith, pending-other g seen x v, pending-neighbours_of g seen x {ns = ns} v)

pub neighbours_of-elem :
    (g : Graph) (v : ℕ) → elem v (vertices g) ≡ true → (ns : List ℕ) × (neighbours_of v g ≡ some ns)
unfolding vertices neighbours_of elem
neighbours_of-elem [] v h = absurd (ground arith)
neighbours_of-elem ((w, ns) ∷ g) v h = elim (Bool-cases (w == v)) [
  | inl same ↦ (ns, rw same refl)
  | inr other ↦ let (ms, e) = neighbours_of-elem g v (ground arith) in (ms, rw other e)
]

pub is_edge-elem : (g : Graph) (u v : ℕ) → is_edge u v g ≡ true → elem u (vertices g) ≡ true
unfolding vertices elem
is_edge-elem [] u v h = ground arith
is_edge-elem ((w, ns) ∷ g) u v h = ground (arith, is_edge-elem g u v)

pub vertices-length : (g : Graph) → length (vertices g) ≡ length g
unfolding vertices
vertices-length [] = refl
vertices-length ((w, ns) ∷ g) = ap suc (vertices-length g)

clash : {a b : Bool} → a ≡ b → a ≡ false → b ≡ true → ⊥
clash e h k = ground arith

same_number : {x v : ℕ} → (x == v) ≡ true → x ≡ v
same_number h = ground arith

pub elem-first : (x : ℕ) (xs : List ℕ) → elem x (x ∷ xs) ≡ true
unfolding elem
elem-first x xs = ground arith

pub elem-later : (x v : ℕ) (xs : List ℕ) → elem v xs ≡ true → elem v (x ∷ xs) ≡ true
unfolding elem
elem-later x v xs h = ground arith

elem-discard_other :
    (x v : ℕ) (xs ys : List ℕ)
    → elem x xs ≡ false
    → elem v xs ≡ true
    → elem v ys ≡ true
    → elem v (discard x ys) ≡ true
elem-discard_other x v xs ys a h k = elim (Bool-cases (x == v)) [
  | inl same ↦ absurd (clash (ap (λ w. elem w xs) (same_number same)) a h)
  | inr other ↦ elem-discard x v ys ∙ rw other k
]

-- Distinct numbers that are all in a list are no more than its length.
pub Distinct-length :
    (xs ys : List ℕ)
    → Distinct xs
    → ((v : ℕ) → elem v xs ≡ true → elem v ys ≡ true)
    → Distinct ys
    → length xs ≤ length ys
unfolding elem
Distinct-length [] ys d s e = omega arith
Distinct-length (x ∷ xs) ys d s e =
    let rest =
      Distinct-length xs (discard x ys) d.1
        (λ v h. elem-discard_other x v xs ys d.0 h (s v (elem-later x v xs h)))
        (discard-Distinct x ys e) in
    omega (arith, length-discard x ys e (s x (elem-first x xs)))
