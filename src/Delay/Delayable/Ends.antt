-- ===== src/Delay/Delayable/Ends.antt =====
-- The vertices at which a chain or a group is joined to others.
use integration_queue.Prelude.{
  ℕ, ◌≡◌, refl, Bool, true, false, ◌&&◌, List, [], ◌∷◌, ◌++◌, arith, ◌∙◌, sym,
}
use integration_queue.Delay.Delayable.{
  Node, Nodes, delayable, chain, group, nil, cons, head, heads, tail, tails,
}

-- The delayables that have nothing before them in the object, and those with nothing after.
unfoldable mutual
  pub firsts : Node → List ℕ
  firsts (delayable i) = i ∷ []
  firsts (chain i first last) = firsts first
  firsts (group i ds) = all_firsts ds

  pub all_firsts : Nodes → List ℕ
  all_firsts nil = []
  all_firsts (cons d ds) = firsts d ++ all_firsts ds

  pub lasts : Node → List ℕ
  lasts (delayable i) = i ∷ []
  lasts (chain i first last) = lasts last
  lasts (group i ds) = all_lasts ds

  pub all_lasts : Nodes → List ℕ
  all_lasts nil = []
  all_lasts (cons d ds) = lasts d ++ all_lasts ds

-- The object is no chain, and no group that holds one.
unfoldable mutual
  pub no_chain : Node → Bool
  no_chain (delayable i) = true
  no_chain (chain i first last) = false
  no_chain (group i ds) = no_chains ds

  pub no_chains : Nodes → Bool
  no_chains nil = true
  no_chains (cons d ds) = no_chain d && no_chains ds

-- No chain of the object begins or ends with an object that is, or holds, a chain.
unfoldable mutual
  pub IsFlat : Node → Type 0
  IsFlat (delayable i) = Unit {0}
  IsFlat (chain i first last) = (no_chain first ≡ true) × (no_chain last ≡ true)
  IsFlat (group i ds) = AreFlat ds

  pub AreFlat : Nodes → Type 0
  AreFlat nil = Unit {0}
  AreFlat (cons d ds) = IsFlat d × AreFlat ds

and_left : (a b : Bool) → (a && b) ≡ true → a ≡ true
and_left a b h = ground arith

and_right : (a b : Bool) → (a && b) ≡ true → b ≡ true
and_right a b h = ground arith

mutual
  unfolding head heads tail tails firsts all_firsts lasts all_lasts no_chain no_chains

  no_chain-ends :
      (d : Node) → no_chain d ≡ true → (head d ≡ firsts d) × (tail d ≡ lasts d) × (head d ≡ tail d)
  no_chain-ends (delayable i) h = (refl, refl, refl)
  no_chain-ends (chain i first last) h = absurd (ground arith)
  no_chain-ends (group i ds) h = no_chains-ends ds h

  no_chains-ends :
      (ds : Nodes)
      → no_chains ds ≡ true
      → (heads ds ≡ all_firsts ds) × (tails ds ≡ all_lasts ds) × (heads ds ≡ tails ds)
  no_chains-ends nil h = (refl, refl, refl)
  no_chains-ends (cons d ds) h =
      let (a, b, c) = no_chain-ends d (and_left (no_chain d) (no_chains ds) h) in
      let (a', b', c') = no_chains-ends ds (and_right (no_chain d) (no_chains ds) h) in
      (rw (a, a') refl, rw (b, b') refl, rw (c, c') refl)

mutual
  unfolding head heads tail tails firsts all_firsts lasts all_lasts IsFlat AreFlat

  IsFlat-ends : (d : Node) → IsFlat d → (head d ≡ firsts d) × (tail d ≡ lasts d)
  IsFlat-ends (delayable i) h = (refl, refl)
  IsFlat-ends (chain i first last) h =
      let (a, b, c) = no_chain-ends first h.0 in
      let (a', b', c') = no_chain-ends last h.1 in (sym c ∙ a, c' ∙ b')
  IsFlat-ends (group i ds) h = AreFlat-ends ds h

  AreFlat-ends : (ds : Nodes) → AreFlat ds → (heads ds ≡ all_firsts ds) × (tails ds ≡ all_lasts ds)
  AreFlat-ends nil h = (refl, refl)
  AreFlat-ends (cons d ds) h =
      let (a, b) = IsFlat-ends d h.0 in
      let (a', b') = AreFlat-ends ds h.1 in (rw (a, a') refl, rw (b, b') refl)

-- Objects in which no chain begins or ends with a chain are joined by the delayables that have
-- nothing before, and nothing after, them.
pub head-tail-ends : (d : Node) → IsFlat d → (head d ≡ firsts d) × (tail d ≡ lasts d)
head-tail-ends d h = IsFlat-ends d h
