-- ===== src/Job/Store/Keys.antt =====
-- The identity keys of the jobs that `_enqueue_job` stores.
use integration_queue.Prelude.{
  ℕ, suc, ◌+◌, ◌≡◌, ◌≤◌, refl, Bool, true, false, ◌&&◌, [], ◌∷◌, ◌++◌, Option, none, some,
  if◌then◌else◌, Text, text_eq, text_eq_iff, arith, Bool-cases, inl, inr, ◌∙◌, sym, ap,
}
use integration_queue.Job.Record.{Job, Table}
use integration_queue.Job.Store.{
  find_row, truthy, stored_row, store, not_started, has_key, same_identity_key, enqueue_unless,
  enqueue_key, enqueue_job,
}

-- The row has the key, and its job has not started.
abbrev holds : Text → Job → Bool
holds key j = has_key key j && not_started j.state

-- The number of such rows.
unfoldable pub count : Text → Table → ℕ
count key [] = 0
count key (j ∷ rows) = if holds key j then suc (count key rows) else count key rows

-- At most one job that has not started has a given key that is not empty.
abbrev pub UniqueKeys : Table → Type 0
UniqueKeys table = (c : _) (key : Text) → count (c ∷ key) table ≤ 1

if_suc :
    (b : Bool) (n m k : ℕ) → n ≡ m + k → (if b then suc n else n) ≡ (if b then suc m else m) + k
if_suc b n m k e = ground arith

count-append :
    (key : Text) (rows : Table) (j : Job)
    → count key (rows ++ j ∷ []) ≡ count key rows + (if holds key j then 1 else 0)
unfolding count
count-append key [] j = elim (Bool-cases (holds key j)) [ inl e ↦ rw e refl | inr e ↦ rw e refl ]
count-append key (r ∷ rows) j = if_suc (holds key r) _ _ _ (count-append key rows j)

first_none :
    (j : Job) {m : Option Job} (b : Bool)
    → (if b then some j else m) ≡ none
    → (b ≡ false) × (m ≡ none)
first_none j true e = ground arith
first_none j false e = (refl, e)

same_identity_key-none :
    (key : Text) (table : Table) → same_identity_key key table ≡ none → count key table ≡ 0
unfolding same_identity_key count
same_identity_key-none key [] e = refl
same_identity_key-none key (j ∷ rows) e =
    let (other, rest) = first_none j (holds key j) e in
    rw other (same_identity_key-none key rows rest)

store-append :
    (job : Job) (table : Table)
    → find_row job.uuid table ≡ none
    → store job table ≡ table ++ stored_row table job job ∷ []
unfolding store
store-append job table e = rw (store, e) refl

key_is : Text → Option Text → Bool
key_is key none = false
key_is key (some k) = text_eq k key

has_key-key_is : (key : Text) (job : Job) → has_key key job ≡ key_is key job.identity_key
unfolding has_key key_is
has_key-key_is key job = refl

key_is-truthy :
    (c : ℕ) (key : Text) (k : Option Text) → key_is (c ∷ key) (truthy k) ≡ key_is (c ∷ key) k
unfolding key_is truthy text_eq
key_is-truthy c key none = refl
key_is-truthy c key (some []) = refl
key_is-truthy c key (some (d ∷ k)) = refl

has_key-stored_row :
    (c : ℕ) (key : Text) (table : Table) (job : Job)
    → has_key (c ∷ key) (stored_row table job job) ≡ has_key (c ∷ key) job
unfolding stored_row
has_key-stored_row c key table job =
    has_key-key_is (c ∷ key) (stored_row table job job)
    ∙ key_is-truthy c key job.identity_key
    ∙ sym (has_key-key_is (c ∷ key) job)

-- A job with another uuid than all rows adds itself to those that hold its key.
count-store :
    (c : ℕ) (key : Text) (job : Job) (table : Table)
    → find_row job.uuid table ≡ none
    → count (c ∷ key) (store job table)
      ≡ count (c ∷ key) table + (if holds (c ∷ key) job then 1 else 0)
unfolding stored_row
count-store c key job table e =
    ap (count (c ∷ key)) (store-append job table e)
    ∙ count-append (c ∷ key) table (stored_row table job job)
    ∙ ap (λ b. count (c ∷ key) table + (if b && not_started job.state then 1 else 0))
        (has_key-stored_row c key table job)

plus_none : (n : ℕ) (a b : Bool) → a ≡ false → n + (if a && b then 1 else 0) ≡ n
plus_none n a b h = ground arith

at_most_one : (n m : ℕ) (b : Bool) → n ≡ m + (if b then 1 else 0) → m ≡ 0 → n ≤ 1
at_most_one n m b e h = ground arith

same_bound : {n m : ℕ} → n ≡ m → m ≤ 1 → n ≤ 1
same_bound e h = omega arith

-- A job without the key leaves the count as it is.
count-store-other :
    (c : ℕ) (key : Text) (job : Job) (table : Table)
    → find_row job.uuid table ≡ none
    → has_key (c ∷ key) job ≡ false
    → count (c ∷ key) (store job table) ≡ count (c ∷ key) table
count-store-other c key job table e h = count-store c key job table e ∙ plus_none _ _ _ h

count-store-le :
    (c : ℕ) (key : Text) (job : Job) (table : Table)
    → find_row job.uuid table ≡ none
    → count (c ∷ key) table ≡ 0
    → count (c ∷ key) (store job table) ≤ 1
count-store-le c key job table e h = at_most_one _ _ _ (count-store c key job table e) h

enqueue_unless-UniqueKeys :
    (existing : Option Job) (c : ℕ) (key : Text) (job : Job) (table : Table)
    → same_identity_key (c ∷ key) table ≡ existing
    → job.identity_key ≡ some (c ∷ key)
    → find_row job.uuid table ≡ none
    → UniqueKeys table
    → UniqueKeys (enqueue_unless existing job table).1
unfolding enqueue_unless key_is
enqueue_unless-UniqueKeys (some r) c key job table s k e unique d other = unique d other
enqueue_unless-UniqueKeys none c key job table s k e unique d other =
    elim (Bool-cases (text_eq (c ∷ key) (d ∷ other))) [
      | inl same ↦ count-store-le d other job table e (
          ap (λ t. count t table) (sym ((text_eq_iff (c ∷ key) (d ∷ other)).0 same))
          ∙ same_identity_key-none (c ∷ key) table s)
      | inr differs ↦
          same_bound
            (count-store-other d other job table e
              (has_key-key_is (d ∷ other) job ∙ ap (key_is (d ∷ other)) k ∙ differs))
            (unique d other)
    ]

enqueue_key-UniqueKeys :
    (k : Option Text) (job : Job) (table : Table)
    → job.identity_key ≡ k
    → find_row job.uuid table ≡ none
    → UniqueKeys table
    → UniqueKeys (enqueue_key k job table).1
unfolding enqueue_key key_is text_eq
enqueue_key-UniqueKeys none job table h e unique c key =
    same_bound
      (count-store-other c key job table e (has_key-key_is (c ∷ key) job ∙ ap (key_is (c ∷ key)) h))
      (unique c key)
enqueue_key-UniqueKeys (some []) job table h e unique c key =
    same_bound
      (count-store-other c key job table e (has_key-key_is (c ∷ key) job ∙ ap (key_is (c ∷ key)) h))
      (unique c key)
enqueue_key-UniqueKeys (some (c ∷ key)) job table h e unique d other =
    enqueue_unless-UniqueKeys _ c key job table refl h e unique d other

-- If each identity key that is not empty has at most one job that has not started, this is so after
-- `_enqueue_job` of a job whose uuid no row has.
pub enqueue_job-UniqueKeys :
    (job : Job) (table : Table)
    → find_row job.uuid table ≡ none
    → UniqueKeys table
    → UniqueKeys (enqueue_job job table).1
unfolding enqueue_job
enqueue_job-UniqueKeys job table e unique =
    enqueue_key-UniqueKeys job.identity_key job table refl e unique
