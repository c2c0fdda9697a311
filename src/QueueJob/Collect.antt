-- ===== src/QueueJob/Collect.antt =====
-- The garbage collector over the whole table.
use integration_queue.Prelude.{
  ℕ, ◌+◌, ◌≡◌, ◌<◌, ◌≤◌, refl, Bool, false, not, ◌&&◌, [], ◌∷◌, Option, none, some, Text, text_eq,
  text_eq_self, text_eq_iff, ◌==◌, arith, Bool-cases, inl, inr, ◌⊎◌, ◌∙◌, ap, sym, ℤ, All,
}
use integration_queue.Job.State.{started, ◌is◌}
use integration_queue.Job.Record.{Job, Table, set_pending}
use integration_queue.Job.Store.{find_row, from_row, load, store, stored_row}
use integration_queue.Job.Store.Rows.{
  find_row-uuid, find_row-store, find_row-here, find_row-there, written,
}
use integration_queue.QueueJob.{
  safe_started_delta, is_stuck, filter, change_to_pending, for_records, change_job_state, requeue,
  DeadTexts, rescue, rescue_dead_job, rescue_dead_jobs, requeue_stuck_jobs,
}
use integration_queue.QueueJob.Rescue.{rescue-IsRescued}

-- Each row found before is found after, with no fewer tries counted.
abbrev pub Keeps : Table → Table → Type 0
Keeps table after =
    (u : Text) (row : Job)
    → find_row u table ≡ some row
    → (row' : Job) × (find_row u after ≡ some row') × (row.retry ≤ row'.retry)

Keeps-trans : (a b c : Table) → Keeps a b → Keeps b c → Keeps a c
Keeps-trans a b c k l u row f =
    let (row', found, more) = k u row f in
    let (row'', found', more') = l u row' found in (row'', found', omega arith)

retry_or : Option Job → ℕ
retry_or none = 0
retry_or (some j) = j.retry

same_retry : {a b : Job} (o : Option Job) → o ≡ some a → o ≡ some b → a.retry ≡ b.retry
unfolding retry_or
same_retry o e f = sym (ap retry_or e) ∙ ap retry_or f

written_retry :
    (table : Table) (job row : Job)
    → (row.uuid ≡ job.uuid → row.retry ≤ job.retry)
    → row.retry ≤ (written table job row).retry
unfolding stored_row
written_retry table job row h = elim (Bool-cases (text_eq row.uuid job.uuid)) [
  | inl same ↦ rw same (h ((text_eq_iff row.uuid job.uuid).0 same))
  | inr other ↦ rw other (omega arith)
]

equal_bound : {a b c : ℕ} → a ≡ b → b ≤ c → a ≤ c
equal_bound e l = omega arith

at_least : {a b : ℕ} → a ≡ b + 1 → b ≤ a
at_least e = omega arith

store-Keeps :
    (job : Job) (table : Table) {old : Job}
    → find_row job.uuid table ≡ some old
    → old.retry ≤ job.retry
    → Keeps table (store job table)
store-Keeps job table {old} e l u row f = (
  written table job row,
  find_row-store u job table e f,
  written_retry table job row (λ same.
      equal_bound
        (same_retry (find_row u table) f
          (ap (λ v. find_row v table) (sym (find_row-uuid u table f) ∙ same) ∙ e))
        l),
)

-- A change of one record that is there succeeds and keeps the rows.
abbrev Step : (Text → Table → Option Table) → Type 0
Step change =
    (u : Text) (table : Table) (row : Job)
    → find_row u table ≡ some row
    → (after : Table) × (change u table ≡ some after) × Keeps table after

rescue_dead_job-Step : (texts : DeadTexts) → Step (rescue_dead_job texts)
unfolding rescue_dead_job load stored_row from_row
rescue_dead_job-Step texts u table row f =
    let (rescued, same) = rescue-IsRescued texts table row row in
    (
      store (rescue texts table (from_row row)) table,
      rw (rescue_dead_job, load, f) refl,
      store-Keeps _ table (ap (λ v. find_row v table) (same ∙ find_row-uuid u table f) ∙ f)
          (at_least rescued.retry),
    )

change_to_pending-Step : Step (change_to_pending none false)
unfolding change_to_pending load set_pending from_row
change_to_pending-Step u table row f = (
  store (set_pending table none false (from_row row)) table,
  rw (change_to_pending, load, f) refl,
  store-Keeps _ table (ap (λ v. find_row v table) (find_row-uuid u table f) ∙ f) (omega arith),
)

-- The records are rows of the table.
abbrev AllFound : Table → Table → Type 0
AllFound records table = All (λ j. (row : Job) × (find_row j.uuid table ≡ some row)) records

AllFound-Keeps :
    (records table after : Table)
    → Keeps table after
    → AllFound records table
    → AllFound records after
AllFound-Keeps [] table after k h = tt
AllFound-Keeps (j ∷ records) table after k (found, h) =
    let (row', there, more) = k j.uuid found.0 found.1 in
    ((row', there), AllFound-Keeps records table after k h)

AllFound-more :
    (j : Job) (records table : Table) → AllFound records table → AllFound records (j ∷ table)
AllFound-more j [] table h = tt
AllFound-more j (r ∷ records) table (found, h) = (
  elim (Bool-cases (text_eq j.uuid r.uuid)) [
    | inl same ↦ (j, find_row-here r.uuid j table same)
    | inr other ↦ (found.0, find_row-there r.uuid j table other ∙ found.1)
  ],
  AllFound-more j records table h,
)

AllFound-self : (table : Table) → AllFound table table
AllFound-self [] = tt
AllFound-self (j ∷ rows) = (
  (j, find_row-here j.uuid j rows (text_eq_self j.uuid)),
  AllFound-more j rows rows (AllFound-self rows),
)

AllFound-filter :
    (test : Job → Bool) (records table : Table)
    → AllFound records table
    → AllFound (filter test records) table
unfolding filter
AllFound-filter test [] table h = tt
AllFound-filter test (j ∷ records) table (found, h) = elim (Bool-cases (test j)) [
  | inl e ↦ rw e (found, AllFound-filter test records table h)
  | inr e ↦ rw e (AllFound-filter test records table h)
]

abbrev Succeeds : Option Table → Table → Type 0
Succeeds result table = (after : Table) × (result ≡ some after) × Keeps table after

for_records-Succeeds :
    (change : Text → Table → Option Table) (records table : Table)
    → Step change
    → AllFound records table
    → Succeeds (for_records change records table) table
unfolding for_records
for_records-Succeeds change [] table s h = (table, refl, λ u row f. (row, f, omega arith))
for_records-Succeeds change (j ∷ records) table s (found, h) =
    let (after, e, keeps) = s j.uuid table found.0 found.1 in
    let (last, e', keeps') =
      for_records-Succeeds change records after s (AllFound-Keeps records table after keeps h) in
    (last, rw (for_records, e) e', Keeps-trans table after last keeps keeps')

requeue-Succeeds :
    (now : ℕ) (records table : Table)
    → AllFound records table
    → Succeeds (requeue now false records table) table
unfolding requeue change_job_state
requeue-Succeeds now records table h =
    for_records-Succeeds (change_to_pending none false) _ table change_to_pending-Step
      (AllFound-filter _ records table h)

rescue_dead_jobs-Succeeds :
    (texts : DeadTexts) (records table : Table)
    → AllFound records table
    → Succeeds (rescue_dead_jobs texts records table) table
unfolding rescue_dead_jobs
rescue_dead_jobs-Succeeds texts records table h =
    for_records-Succeeds (rescue_dead_job texts) records table (rescue_dead_job-Step texts) h

some_delta :
    (limit : ℤ) (enqueued_delta started_delta : ℕ)
    → (0 < enqueued_delta) ⊎ (0 < started_delta)
    → (enqueued_delta == 0 && safe_started_delta limit started_delta == 0) ≡ false
unfolding safe_started_delta
some_delta limit enqueued_delta started_delta h = ground arith

requeue_stuck_jobs-Succeeds :
    (texts : DeadTexts) (limit : ℤ) (now enqueued_delta started_delta : ℕ) (table : Table)
    → (0 < enqueued_delta) ⊎ (0 < started_delta)
    → Succeeds (requeue_stuck_jobs texts limit now enqueued_delta started_delta table) table
unfolding requeue_stuck_jobs
requeue_stuck_jobs-Succeeds texts limit now enqueued_delta started_delta table h =
    let stuck =
      filter (is_stuck now enqueued_delta (safe_started_delta limit started_delta)) table in
    let there = AllFound-filter _ table table (AllFound-self table) in
    let (rescued, e, keeps) =
      rescue_dead_jobs-Succeeds texts (filter (λ j. j.state is started) stuck) table
        (AllFound-filter _ stuck table there) in
    let (last, e', keeps') =
      requeue-Succeeds now (filter (λ j. not (j.state is started)) stuck) rescued
        (AllFound-Keeps _ table rescued keeps (AllFound-filter _ stuck table there)) in
    (
      last,
      rw (requeue_stuck_jobs, some_delta limit enqueued_delta started_delta h, e) e',
      Keeps-trans table rescued last keeps keeps',
    )

-- With a delta that is not 0 the garbage collector succeeds, and every row found by its uuid is found
-- after, with no fewer tries counted.
pub requeue_stuck_jobs-retry :
    (texts : DeadTexts) (limit : ℤ) (now enqueued_delta started_delta : ℕ) (u : Text)
    (table : Table) {row : Job}
    → (0 < enqueued_delta) ⊎ (0 < started_delta)
    → find_row u table ≡ some row
    → (after : Table) × (row' : Job) × (requeue_stuck_jobs texts limit now enqueued_delta
          started_delta table
        ≡ some after)
      × (find_row u after ≡ some row')
      × (row.retry ≤ row'.retry)
requeue_stuck_jobs-retry texts limit now enqueued_delta started_delta u table {row} h f =
    let (after, e, keeps) =
      requeue_stuck_jobs-Succeeds texts limit now enqueued_delta started_delta table h in
    let (row', found, more) = keeps u row f in (after, row', e, found, more)
