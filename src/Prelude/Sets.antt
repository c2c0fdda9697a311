-- ===== src/Prelude/Sets.antt =====
-- Python sets of objects. An object stands by its identity, a number; a set is a list of them.
use Prim.Native.Nat.{ℕ, suc, ◌≤◌}
use mathlib.Core.Path.{◌≡◌, refl}
use mathlib.Core.Bool.{Bool, true, false}
use mathlib.Core.List.{List, [], ◌∷◌}
use native.Mathlib.Omega.{arith}
use integration_queue.Prelude.Tests.{◌==◌, if◌then◌else◌}
use integration_queue.Prelude.Lists.{length}

-- `a in s`
unfoldable pub elem : ℕ → List ℕ → Bool
elem a [] = false
elem a (x ∷ xs) = if x == a then true else elem a xs

-- `s.add(a)`
unfoldable pub insert : ℕ → List ℕ → List ℕ
insert a s = if elem a s then s else a ∷ s

-- `s.discard(a)`
unfoldable pub discard : ℕ → List ℕ → List ℕ
discard a [] = []
discard a (x ∷ xs) = if x == a then discard a xs else x ∷ discard a xs

abbrev pub Distinct : List ℕ → Type 0
Distinct [] = Unit {0}
Distinct (x ∷ xs) = (elem x xs ≡ false) × Distinct xs

pub elem-insert : (a b : ℕ) (s : List ℕ) → elem b (insert a s) ≡ (if a == b then true else elem b s)
unfolding insert elem
elem-insert a b s = ground arith

pub elem-discard :
    (a b : ℕ) (s : List ℕ) → elem b (discard a s) ≡ (if a == b then false else elem b s)
unfolding discard elem
elem-discard a b [] = ground arith
elem-discard a b (x ∷ xs) = ground (arith, elem-discard a b xs)

pub insert-Distinct : (a : ℕ) (s : List ℕ) → Distinct s → Distinct (insert a s)
unfolding insert
insert-Distinct a s d = ground arith

pub discard-Distinct : (a : ℕ) (s : List ℕ) → Distinct s → Distinct (discard a s)
unfolding discard
discard-Distinct a [] d = tt
discard-Distinct a (x ∷ xs) d = ground (arith, elem-discard a x xs, discard-Distinct a xs d.1)

pub discard_absent : (a : ℕ) (s : List ℕ) → elem a s ≡ false → discard a s ≡ s
unfolding elem discard
discard_absent a [] h = refl
discard_absent a (x ∷ xs) h = ground (arith, discard_absent a xs)

pub length-discard :
    (a : ℕ) (s : List ℕ) → Distinct s → elem a s ≡ true → length s ≡ suc (length (discard a s))
unfolding elem discard
length-discard a [] d h = ground arith
length-discard a (x ∷ xs) d h = ground (arith, length-discard a xs d.1, discard_absent a xs)

pub length-discard-le : (a : ℕ) (s : List ℕ) → length (discard a s) ≤ length s
unfolding discard
length-discard-le a [] = omega arith
length-discard-le a (x ∷ xs) = ground (arith, length-discard-le a xs)

pub length-insert : (a : ℕ) (s : List ℕ) → elem a s ≡ false → length (insert a s) ≡ suc (length s)
unfolding insert
length-insert a s h = rw h

pub length-insert-le : (a : ℕ) (s : List ℕ) → length (insert a s) ≤ suc (length s)
unfolding insert
length-insert-le a s = ground arith
