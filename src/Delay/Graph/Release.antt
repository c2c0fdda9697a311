-- ===== src/Delay/Graph/Release.antt =====
-- The loop over the neighbours of a yielded vertex.
use integration_queue.Prelude.{
  ℕ, zero, suc, ◌-◌, ◌≡◌, ◌≤◌, ◌<◌, refl, Bool, true, false, ◌&&◌, List, [], ◌∷◌, ◌++◌,
  if◌then◌else◌, ◌==◌, ltb, elem, Distinct, ℤ, pos, arith, Bool-cases, inl, inr, ◌∙◌, ap,
}
use mathlib.Core.List.{append_assoc, append-nil}
use integration_queue.Delay.Graph.{pred, is_zero, decrement, release}
use integration_queue.Delay.Graph.Keys.{occurrences}

-- The vertices that the loop appends to the queue, where the counts are `depends`.
pub freed : List ℕ → (ℕ → ℕ) → List ℕ
freed [] depends = []
freed (n ∷ ns) depends =
    let rest = freed ns (λ a. if n == a then depends a - 1 else depends a) in
    if depends n == 1 then n ∷ rest else rest

abbrev without : ℕ → (ℕ → ℕ) → ℕ → ℕ
without n depends a = if n == a then depends a - 1 else depends a

pred_pos : (n : ℕ) → 0 < n → pred (pos n) ≡ pos (n - 1)
pred_pos zero h = absurd (omega arith)
pred_pos (suc n) h = ground arith

positive : (n a : ℕ) {m : ℕ} → (n == a) ≡ true → occurrences a (n ∷ []) ≤ m → 0 < m
positive n a h l = ground arith

first_occurs :
    (n a : ℕ) (ns : List ℕ) {m : ℕ} → occurrences a (n ∷ ns) ≤ m → occurrences a (n ∷ []) ≤ m
first_occurs n a ns h = ground arith

rest_occurs :
    (n a : ℕ) (ns : List ℕ) {m : ℕ}
    → occurrences a (n ∷ ns) ≤ m
    → occurrences a ns ≤ (if n == a then m - 1 else m)
rest_occurs n a ns h = ground arith

minus_zero : (n : ℕ) → n ≡ n - 0
minus_zero n = omega arith

minus_first :
    (n a : ℕ) (ns : List ℕ) (m : ℕ)
    → (if n == a then m - 1 else m) - occurrences a ns ≡ m - occurrences a (n ∷ ns)
minus_first n a ns m = ground arith

occurs : (n : ℕ) (ns : List ℕ) {m : ℕ} → occurrences n (n ∷ ns) ≤ m → 0 < m
occurs n ns h = ground arith

zero_test :
    (n : ℕ) {z : ℤ} {m : ℕ} → z ≡ pos (if n == n then m - 1 else m) → 0 < m → is_zero z ≡ (m == 1)
zero_test n e h = rw e (ground arith)

append_freed :
    (b : Bool) (n : ℕ) (queue rest : List ℕ)
    → (if b then queue ++ n ∷ [] else queue) ++ rest ≡ queue ++ (if b then n ∷ rest else rest)
append_freed true n queue rest = append_assoc queue (n ∷ []) rest
append_freed false n queue rest = refl

decrement_lem :
    (n a : ℕ) (z : ℕ → ℤ) (depends : ℕ → ℕ)
    → z a ≡ pos (depends a)
    → occurrences a (n ∷ []) ≤ depends a
    → decrement n z a ≡ pos (without n depends a)
unfolding decrement
decrement_lem n a z depends e h = elim (Bool-cases (n == a)) [
  | inl same ↦ rw (same, e) (pred_pos (depends a) (positive n a same h))
  | inr other ↦ rw (other) e
]

-- With counts that cover its neighbours the loop appends the freed vertices and lowers the counts.
pub release_lem :
    (ns : List ℕ) (z : ℕ → ℤ) (depends : ℕ → ℕ) (queue : List ℕ)
    → ((a : ℕ) → z a ≡ pos (depends a))
    → ((a : ℕ) → occurrences a ns ≤ depends a)
    → ((release ns z queue).1 ≡ queue ++ freed ns depends)
      × ((a : ℕ) → (release ns z queue).0 a ≡ pos (depends a - occurrences a ns))
unfolding release freed
release_lem [] z depends queue e h =
    (rw append-nil refl, λ a. e a ∙ ap pos (minus_zero (depends a)))
release_lem (n ∷ ns) z depends queue e h =
    let lowered = λ (a : ℕ). decrement_lem n a z depends (e a) (first_occurs n a ns (h a)) in
    let (queues, counts) =
      release_lem ns (decrement n z) (without n depends)
        (if is_zero (decrement n z n) then queue ++ n ∷ [] else queue) lowered
        (λ a. rest_occurs n a ns (h a)) in
    (
      queues
          ∙ ap (λ b. (if b then queue ++ n ∷ [] else queue) ++ freed ns (without n depends))
              (zero_test n (lowered n) (occurs n ns (h n)))
          ∙ append_freed (depends n == 1) n queue (freed ns (without n depends)),
      λ a. counts a ∙ ap pos (minus_first n a ns (depends a)),
    )

pub elem-freed :
    (ns : List ℕ) (depends : ℕ → ℕ) (a : ℕ)
    → occurrences a ns ≤ depends a
    → elem a (freed ns depends) ≡ (ltb 0 (occurrences a ns) && depends a == occurrences a ns)
unfolding freed elem
elem-freed [] depends a h = ground arith
elem-freed (n ∷ ns) depends a h = ground (arith, elem-freed ns (without n depends) a)

last_occurs :
    (n : ℕ) (ns : List ℕ) {m : ℕ}
    → (m == 1) ≡ true
    → occurrences n (n ∷ ns) ≤ m
    → (ltb 0 (occurrences n ns) && (if n == n then m - 1 else m) == occurrences n ns) ≡ false
last_occurs n ns e h = ground arith

pub freed-Distinct :
    (ns : List ℕ) (depends : ℕ → ℕ)
    → ((a : ℕ) → occurrences a ns ≤ depends a)
    → Distinct (freed ns depends)
unfolding freed elem
freed-Distinct [] depends h = tt
freed-Distinct (n ∷ ns) depends h =
    let covered = λ (a : ℕ). rest_occurs n a ns (h a) in
    let rest = freed-Distinct ns (without n depends) covered in
    elim (Bool-cases (depends n == 1)) [
      | inl last ↦
          rw last
            (elem-freed ns (without n depends) n (covered n) ∙ last_occurs n ns last (h n), rest)
      | inr more ↦ rw more rest
    ]
