-- ===== src/Delay/Launch/Rows.antt =====
-- The rows of the table once jobs are added to it.
use integration_queue.Prelude.{
  ℕ, ◌≡◌, refl, sym, ap, ◌∙◌, subst, true, false, List, [], ◌∷◌, ◌++◌, none, some, ==_iff, elem,
  Text, text_eq, text_eq_self, text_eq-flip, arith, Bool-cases, inl, inr,
}
use integration_queue.Job.Record.{Job, Table}
use integration_queue.Job.Store.{find_row}
use integration_queue.Job.Store.Rows.{find_row-here, find_row-there}
use integration_queue.Job.Create.{JobObjects}
use integration_queue.Delay.Graph.Keys.{elem-first, elem-later}
use integration_queue.Delay.Launch.{built_row, store_built, store_all}

-- Rows that are added at the end.
find_row-other :
    (x : Text) (table : Table) (job : Job)
    → text_eq job.uuid x ≡ false
    → find_row x (table ++ job ∷ []) ≡ find_row x table
unfolding find_row
find_row-other x [] job h = rw h refl
find_row-other x (row ∷ rows) job h = elim (Bool-cases (text_eq row.uuid x)) [
  | inl e ↦ find_row-here x row (rows ++ job ∷ []) e ∙ sym (find_row-here x row rows e)
  | inr e ↦
      find_row-there x row (rows ++ job ∷ []) e
      ∙ find_row-other x rows job h
      ∙ sym (find_row-there x row rows e)
]

find_row-last :
    (x : Text) (table : Table) (job : Job)
    → text_eq job.uuid x ≡ true
    → find_row x table ≡ none
    → find_row x (table ++ job ∷ []) ≡ some job
unfolding find_row
find_row-last x [] job h n = rw h refl
find_row-last x (row ∷ rows) job h n = elim (Bool-cases (text_eq row.uuid x)) [
  | inl e ↦ absurd (ground (arith, sym (find_row-here x row rows e) ∙ n))
  | inr e ↦
      find_row-there x row (rows ++ job ∷ []) e
      ∙ find_row-last x rows job h (sym (find_row-there x row rows e) ∙ n)
]

store_built-new :
    (job : Job) (table : Table)
    → find_row job.uuid table ≡ none
    → store_built job table ≡ table ++ built_row job ∷ []
unfolding store_built
store_built-new job table n = rw (n, store_built) refl

module _ (jobs : JobObjects) where
  -- The uuids of the jobs differ.
  abbrev pub DistinctUuids : List ℕ → Type 0
  DistinctUuids [] = Unit {0}
  DistinctUuids (v ∷ vs) =
      ((a : ℕ) → elem a vs ≡ true → text_eq (jobs v).uuid (jobs a).uuid ≡ false) × DistinctUuids vs

  abbrev pub Unstored : List ℕ → Table → Type 0
  Unstored vs table = (a : ℕ) → elem a vs ≡ true → find_row (jobs a).uuid table ≡ none

  Unstored-store_built :
      (v : ℕ) (vs : List ℕ) (table : Table)
      → DistinctUuids (v ∷ vs)
      → Unstored (v ∷ vs) table
      → Unstored vs (table ++ built_row (jobs v) ∷ [])
  unfolding built_row
  Unstored-store_built v vs table (d, ds) n a m =
      find_row-other (jobs a).uuid table (built_row (jobs v)) (d a m) ∙ n a (elem-later v a vs m)

  store_all-cons :
      (v : ℕ) (vs : List ℕ) (table : Table)
      → Unstored (v ∷ vs) table
      → store_all (v ∷ vs) jobs table ≡ store_all vs jobs (table ++ built_row (jobs v) ∷ [])
  unfolding store_all
  store_all-cons v vs table n =
      ap (store_all vs jobs) (store_built-new (jobs v) table (n v (elem-first v vs)))

  pub store_all-others :
      (vs : List ℕ) (table : Table) (x : Text)
      → DistinctUuids vs
      → Unstored vs table
      → ((a : ℕ) → elem a vs ≡ true → text_eq (jobs a).uuid x ≡ false)
      → find_row x (store_all vs jobs table) ≡ find_row x table
  unfolding store_all built_row
  store_all-others [] table x d n h = refl
  store_all-others (v ∷ vs) table x d n h =
      ap (find_row x) (store_all-cons v vs table n)
      ∙ store_all-others vs (table ++ built_row (jobs v) ∷ []) x d.1
          (Unstored-store_built v vs table d n) (λ a m. h a (elem-later v a vs m))
      ∙ find_row-other x table (built_row (jobs v)) (h v (elem-first v vs))

  pub store_all-row :
      (vs : List ℕ) (table : Table) (a : ℕ)
      → DistinctUuids vs
      → Unstored vs table
      → elem a vs ≡ true
      → find_row (jobs a).uuid (store_all vs jobs table) ≡ some (built_row (jobs a))
  unfolding store_all built_row elem
  store_all-row [] table a d n m = absurd (ground arith)
  store_all-row (v ∷ vs) table a d n m = elim (Bool-cases (elem a vs)) [
    | inl later ↦
        ap (find_row (jobs a).uuid) (store_all-cons v vs table n)
        ∙ store_all-row vs (table ++ built_row (jobs v) ∷ []) a d.1
            (Unstored-store_built v vs table d n) later
    | inr first ↦
        let e = (==_iff v a).0 (ground arith) in
        subst
          (λ b. find_row (jobs b).uuid (store_all (v ∷ vs) jobs table) ≡ some (built_row (jobs b)))
          e
          (ap (find_row (jobs v).uuid) (store_all-cons v vs table n)
            ∙ store_all-others vs (table ++ built_row (jobs v) ∷ []) (jobs v).uuid d.1
                (Unstored-store_built v vs table d n)
                (λ b k. text_eq-flip (jobs v).uuid (jobs b).uuid (d.0 b k))
            ∙ find_row-last (jobs v).uuid table (built_row (jobs v)) (text_eq_self (jobs v).uuid)
                (n v (elem-first v vs)))
  ]
