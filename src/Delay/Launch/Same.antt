-- ===== src/Delay/Launch/Same.antt =====
-- One uuid for the jobs of a graph.
use integration_queue.Prelude.{
  ℕ, ◌≡◌, ◌≢◌, ◌⊎◌, inl, inr, refl, sym, ◌∙◌, ap, true, false, ◌||◌, List, [], ◌∷◌, none, some,
  ◌==◌, elem, Text, text_eq, text_eq_iff, text_eq_self, arith, Bool-cases, Option-cases, ==_iff,
}
use integration_queue.Delay.Graph.Keys.{elem-first, elem-later}
use integration_queue.Job.Record.{elem_text}
use integration_queue.Job.Store.{truthy}
use integration_queue.Job.Create.{JobObjects, insert_text}
use integration_queue.Delay.Launch.{
  graph_uuids, set_graph_uuid, common_uuid, ensure_same_graph_uuid,
}

-- The job has a graph uuid, which is this one.
abbrev pub HasUuid : JobObjects → ℕ → Text → Type 0
HasUuid jobs a u = truthy (jobs a).graph_uuid ≡ some u

abbrev DistinctTexts : List Text → Type 0
DistinctTexts [] = Unit {0}
DistinctTexts (u ∷ us) = (elem_text u us ≡ false) × DistinctTexts us

pub elem_text-insert_text :
    (u x : Text) (us : List Text) → elem_text x (insert_text u us) ≡ (text_eq u x || elem_text x us)
unfolding insert_text elem_text
elem_text-insert_text u x us = elim (Bool-cases (elem_text u us)) [
  | inl h ↦ elim (Bool-cases (text_eq u x)) [
    | inl e ↦ rw (h, e, sym ((text_eq_iff u x).0 e), h) refl
    | inr e ↦ rw (h, e) refl
  ]
  | inr h ↦ rw h (ground arith)
]

insert_text-DistinctTexts :
    (u : Text) (us : List Text) → DistinctTexts us → DistinctTexts (insert_text u us)
unfolding insert_text
insert_text-DistinctTexts u us d = elim (Bool-cases (elem_text u us)) [
  | inl h ↦ rw h d
  | inr h ↦ rw h (h, d)
]

module _ (jobs : JobObjects) where
  -- The uuids with one more job.
  without :
      (v : ℕ) (vs : List ℕ)
      → truthy (jobs v).graph_uuid ≡ none
      → graph_uuids (v ∷ vs) jobs ≡ graph_uuids vs jobs
  unfolding graph_uuids
  without v vs e = rw (e, graph_uuids) refl

  with_uuid :
      (v : ℕ) (vs : List ℕ) (u : Text)
      → HasUuid jobs v u
      → graph_uuids (v ∷ vs) jobs ≡ insert_text u (graph_uuids vs jobs)
  unfolding graph_uuids
  with_uuid v vs u e = rw (e, graph_uuids) refl

  graph_uuids-DistinctTexts : (vs : List ℕ) → DistinctTexts (graph_uuids vs jobs)
  unfolding graph_uuids
  graph_uuids-DistinctTexts [] = tt
  graph_uuids-DistinctTexts (v ∷ vs) = elim (Option-cases (truthy (jobs v).graph_uuid)) [
    | inl e ↦ rw (without v vs e) (graph_uuids-DistinctTexts vs)
    | inr (u, e) ↦
        rw (with_uuid v vs u e)
          (insert_text-DistinctTexts u (graph_uuids vs jobs) (graph_uuids-DistinctTexts vs))
  ]

  graph_uuids-cons :
      (v : ℕ) (vs : List ℕ) (x : Text)
      → elem_text x (graph_uuids vs jobs) ≡ true
      → elem_text x (graph_uuids (v ∷ vs) jobs) ≡ true
  graph_uuids-cons v vs x h = elim (Option-cases (truthy (jobs v).graph_uuid)) [
    | inl e ↦ rw (without v vs e) h
    | inr (u, e) ↦
        rw (with_uuid v vs u e) (ground (arith, elem_text-insert_text u x (graph_uuids vs jobs)))
  ]

  graph_uuids-here :
      (v : ℕ) (vs : List ℕ) (x : Text)
      → HasUuid jobs v x
      → elem_text x (graph_uuids (v ∷ vs) jobs) ≡ true
  graph_uuids-here v vs x e = rw (with_uuid v vs x e) (
      elem_text-insert_text x x (graph_uuids vs jobs)
      ∙ ap (λ b. b || elem_text x (graph_uuids vs jobs)) (text_eq_self x))

  elem-graph_uuids :
      (vs : List ℕ) (a : ℕ) (x : Text)
      → elem a vs ≡ true
      → HasUuid jobs a x
      → elem_text x (graph_uuids vs jobs) ≡ true
  unfolding elem
  elem-graph_uuids [] a x m h = absurd (ground arith)
  elem-graph_uuids (v ∷ vs) a x m h = elim (Bool-cases (v == a)) [
    | inl e ↦ graph_uuids-here v vs x (ap (λ b. truthy (jobs b).graph_uuid) ((==_iff v a).0 e) ∙ h)
    | inr e ↦ graph_uuids-cons v vs x (elem-graph_uuids vs a x (ground arith) h)
  ]

  graph_uuids-elem :
      (vs : List ℕ) (x : Text)
      → elem_text x (graph_uuids vs jobs) ≡ true
      → (a : ℕ) × (elem a vs ≡ true) × HasUuid jobs a x
  unfolding graph_uuids elem_text
  graph_uuids-elem [] x h = absurd (ground arith)
  graph_uuids-elem (v ∷ vs) x h =
      let later : elem_text x (graph_uuids vs jobs) ≡ true
          → (a : ℕ) × (elem a (v ∷ vs) ≡ true) × HasUuid jobs a x =
        λ k. let (a, m, e) = graph_uuids-elem vs x k in (a, elem-later v a vs m, e) in
      elim (Option-cases (truthy (jobs v).graph_uuid)) [
        | inl e ↦ later (sym (ap (elem_text x) (without v vs e)) ∙ h)
        | inr (u, e) ↦
            let both =
              sym (elem_text-insert_text u x (graph_uuids vs jobs))
              ∙ sym (ap (elem_text x) (with_uuid v vs u e))
              ∙ h in
            elim (Bool-cases (text_eq u x)) [
              | inl same ↦ (v, elem-first v vs, e ∙ ap some ((text_eq_iff u x).0 same))
              | inr other ↦ later (ground (arith, both))
            ]
      ]

  -- The jobs get the uuid `u`, and nothing else of them changes.
  pub record SameGraph (fresh : Text) (vs : List ℕ) (u : Text) (same : JobObjects) : Type 0 where
    pub given : (a : ℕ) → elem a vs ≡ true → same a ≡ record (jobs a) { graph_uuid = some u }
    pub others : (a : ℕ) → elem a vs ≡ false → same a ≡ jobs a
    pub kept : (a : ℕ) (x : Text) → elem a vs ≡ true → HasUuid jobs a x → x ≡ u
    pub source : (u ≡ fresh) ⊎ ((a : ℕ) × (elem a vs ≡ true) × HasUuid jobs a u)

  -- Two of the jobs have graph uuids that differ.
  abbrev pub InSeveral : List ℕ → Type 0
  InSeveral vs =
      (a : ℕ) × (b : ℕ) × (x : Text) × (y : Text) × (elem a vs ≡ true)
      × (elem b vs ≡ true)
      × HasUuid jobs a x
      × HasUuid jobs b y
      × (x ≢ y)

  set_graph_uuid-SameGraph :
      (fresh u : Text) (vs : List ℕ)
      → ((a : ℕ) (x : Text) → elem a vs ≡ true → HasUuid jobs a x → x ≡ u)
      → (u ≡ fresh) ⊎ ((a : ℕ) × (elem a vs ≡ true) × HasUuid jobs a u)
      → SameGraph fresh vs u (set_graph_uuid u vs jobs)
  unfolding set_graph_uuid
  set_graph_uuid-SameGraph fresh u vs k s = record {
    given = λ a m. rw m refl;
    others = λ a m. rw m refl;
    kept = k;
    source = s;
  }

  only_one : (u x : Text) → elem_text x (u ∷ []) ≡ true → x ≡ u
  unfolding elem_text
  only_one u x h = sym ((text_eq_iff u x).0 (ground arith))

  listed : (us : List Text) (u : Text) → elem_text u (u ∷ us) ≡ true
  unfolding elem_text
  listed us u = ground (arith, text_eq_self u)

  listed_after : (us : List Text) (u v : Text) → elem_text u us ≡ true → elem_text u (v ∷ us) ≡ true
  unfolding elem_text
  listed_after us u v h = ground arith

  first_two : (u v : Text) (us : List Text) → DistinctTexts (u ∷ v ∷ us) → u ≢ v
  unfolding elem_text
  first_two u v us d e = absurd (ground (arith, d.0, (text_eq_iff v u).1 (sym e)))

  same_or_several :
      (fresh : Text) (vs : List ℕ) (us : List Text)
      → graph_uuids vs jobs ≡ us
      → DistinctTexts us
      → ((u : Text) × (common_uuid fresh us ≡ some u)
          × ((a : ℕ) (x : Text) → elem a vs ≡ true → HasUuid jobs a x → x ≡ u)
          × ((u ≡ fresh) ⊎ ((a : ℕ) × (elem a vs ≡ true) × HasUuid jobs a u)))
        ⊎ ((common_uuid fresh us ≡ none) × InSeveral vs)
  unfolding common_uuid elem_text
  same_or_several fresh vs [] e d =
      inl
        (fresh, refl, λ a x m h. absurd (ground (arith, e, elem-graph_uuids vs a x m h)), inl refl)
  same_or_several fresh vs (u ∷ []) e d = inl (
    u,
    refl,
    λ a x m h. only_one u x (sym (ap (elem_text x) e) ∙ elem-graph_uuids vs a x m h),
    inr (graph_uuids-elem vs u (ap (elem_text u) e ∙ listed [] u)),
  )
  same_or_several fresh vs (u ∷ w ∷ us) e d =
      let (a, m, h) = graph_uuids-elem vs u (ap (elem_text u) e ∙ listed (w ∷ us) u) in
      let (b, n, k) =
        graph_uuids-elem vs w (ap (elem_text w) e ∙ listed_after (w ∷ us) w u (listed us w)) in
      inr (refl, (a, b, u, w, m, n, h, k, first_two u w us d))

  -- Two or more jobs, of which none has a graph uuid but one and the same, get that uuid, or a fresh
  -- one if no job has one, and nothing else of them changes; jobs of several graphs are an error.
  pub ensure_same_graph_uuid_lem :
      (fresh : Text) (v w : ℕ) (vs : List ℕ)
      → ((u : Text) × (same : JobObjects) × (ensure_same_graph_uuid fresh (v ∷ w ∷ vs) jobs
            ≡ some same)
          × SameGraph fresh (v ∷ w ∷ vs) u same)
        ⊎ ((ensure_same_graph_uuid fresh (v ∷ w ∷ vs) jobs ≡ none) × InSeveral (v ∷ w ∷ vs))
  unfolding ensure_same_graph_uuid
  ensure_same_graph_uuid_lem fresh v w vs =
      let all = v ∷ w ∷ vs in
      elim (same_or_several fresh all (graph_uuids all jobs) refl (graph_uuids-DistinctTexts all)) [
        | inl (u, e, k, s) ↦ inl (
          u,
          set_graph_uuid u all jobs,
          rw (e, ensure_same_graph_uuid) refl,
          set_graph_uuid-SameGraph fresh u all k s,
        )
        | inr (e, several) ↦ inr (rw (e, ensure_same_graph_uuid) refl, several)
      ]
