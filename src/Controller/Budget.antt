-- ===== src/Controller/Budget.antt =====
-- The runs of a job that asks for a retry each time, enqueued again by the runner in between.
use integration_queue.Prelude.{
  ℕ, zero, suc, ◌+◌, ◌≡◌, ◌<◌, ◌≤◌, refl, false, some, Text, arith, inl, inr, ◌⊎◌, ◌∙◌,
}
use integration_queue.Job.State.{State, wait_dependencies, pending, failed}
use integration_queue.Job.Record.{Job, Table}
use integration_queue.Job.Perform.{raised, retryable_job_error}
use integration_queue.Job.Store.{find_row}
use integration_queue.Runner.Database.{set_job_enqueued, find_row-set_job_enqueued}
use integration_queue.Controller.{Env, performs, runjob}
use integration_queue.Controller.Retries.{runjob-Retries}

-- The table after the first so many runs of a job.
pub rerun : (ℕ → Env) → Text → ℕ → Table → Table
rerun envs uuid zero table = table
rerun envs uuid (suc k) table =
    let before = rerun envs uuid k table in
    (runjob (envs k) uuid (set_job_enqueued (envs k).now uuid before)).1

-- The state of the job after `k` runs.
abbrev pub StateAfter : ℕ → ℕ → State → Type 0
StateAfter max k s =
    ((k < max) × ((s ≡ pending) ⊎ (s ≡ wait_dependencies))) ⊎ ((k ≡ max) × (s ≡ failed))

abbrev pub AfterRuns : (ℕ → Env) → Text → ℕ → ℕ → Table → Type 0
AfterRuns envs uuid max k table =
    (after : Job) × (find_row uuid (rerun envs uuid k table) ≡ some after)
    × (after.retry ≡ k)
    × (after.max_retries ≡ max)
    × StateAfter max k after.state

counted : {n r k : ℕ} → n ≡ r + 1 → r ≡ k → n ≡ suc k
counted h r = omega arith

left_below : {r m k max : ℕ} → (m ≡ 0) ⊎ (r + 1 < m) → r ≡ k → m ≡ max → suc k ≤ max → suc k < max
left_below h r m l = ground arith

last_try : {r m k max : ℕ} → m ≤ r + 1 → r ≡ k → m ≡ max → suc k ≤ max → suc k ≡ max
last_try h r m l = omega arith

module _ (envs : ℕ → Env) (uuid : Text) (seconds : ℕ → ℕ) (message : ℕ → Text)
    (asks : (k : ℕ)
      → (envs k).outcome
        ≡ performs (raised (retryable_job_error (seconds k) false (message k)))) where
  run_once :
      (max k : ℕ) (table : Table)
      → suc k ≤ max
      → AfterRuns envs uuid max k table
      → AfterRuns envs uuid max (suc k) table
  unfolding rerun
  run_once max k table l (row, f, r, m, s) =
      let enqueued_row = find_row-set_job_enqueued (envs k).now uuid _ f in
      let (after, found, ends) =
        runjob-Retries (envs k) uuid (seconds k) (message k) _ enqueued_row refl (asks k) in
      elim ends [
        | inl (left, answered, retried) ↦ (
          after,
          found,
          counted retried.retry r,
          retried.max_retries ∙ m,
          inl (left_below left r m l, retried.state),
        )
        | inr (none_left, answered, exhausted) ↦ (
          after,
          found,
          counted exhausted.retry r,
          exhausted.max_retries ∙ m,
          inr (last_try none_left.1 r m l, exhausted.state),
        )
      ]

  -- A job with `max` tries that asks for a retry each time waits for its next try after every run
  -- before the last of them, and fails with the last, each run counted once.
  pub rerun-StateAfter :
      (table : Table) (max : ℕ) {row : Job}
      → find_row uuid table ≡ some row
      → row.state ≡ pending
      → row.retry ≡ 0
      → row.max_retries ≡ max
      → 0 < max
      → (k : ℕ) → k ≤ max
      → AfterRuns envs uuid max k table
  unfolding rerun
  rerun-StateAfter table max {row} f s r m p zero l = (row, f, r, m, inl (p, inl s))
  rerun-StateAfter table max {row} f s r m p (suc k) l =
      run_once max k table l (rerun-StateAfter table max f s r m p k (omega arith))
