-- ===== src/Controller/Tries.antt =====
-- What `_try_perform_job` leaves.
use integration_queue.Prelude.{
  ℕ, ◌+◌, ◌≡◌, refl, Bool, true, false, Option, none, some, Text, Bool-cases, inl, inr, ◌⊎◌, ◌∙◌,
  ap, leb, ◌==◌,
}
use integration_queue.Job.State.{wait_dependencies, pending, done, failed}
use integration_queue.Job.Record.{Job, Table, set_started, set_done}
use integration_queue.Job.Perform.{
  Exception, retryable_job_error, failed_job_error, operational_error, other_error, Outcome,
  returned, raised, perform, on_retryable,
}
use integration_queue.Job.Store.{find_row, from_row, stored_row}
use integration_queue.Job.Store.Rows.{find_row-uuid}
use integration_queue.Controller.{
  Env, Course, not_begun, performs, after_begin, finish, after_perform, try_perform_job,
}
use integration_queue.Controller.Rows.{find_row-store_self}

-- How a run leaves the row of its job.
pub record IsDone (env : Env) (row after : Job) : Type 0 where
  pub state : after.state ≡ done
  pub date_done : after.date_done ≡ some env.now
  pub date_started : after.date_started ≡ some env.now
  pub retry : after.retry ≡ row.retry + 1

pub record IsPostponed (env : Env) (row after : Job) : Type 0 where
  pub state : (after.state ≡ pending) ⊎ (after.state ≡ wait_dependencies)
  pub date_started : after.date_started ≡ none
  pub worker_pid : after.worker_pid ≡ none
  pub exc_info : after.exc_info ≡ none

pub record IsFailed (env : Env) (row after : Job) : Type 0 where
  pub state : after.state ≡ failed
  pub cause : (e : Exception) × (after.exc_info ≡ some (env.traceback e))

-- The row that the job is to be stored in, and what it is after the tries.
abbrev pub TryResult : Env → Text → Job → Table × Job × Option Exception → Type 0
TryResult env uuid row (table, job, none) =
    (after : Job) × (find_row uuid table ≡ some after) × IsDone env row after
TryResult env uuid row (table, job, some e) =
    ((held : Job) × (find_row uuid table ≡ some held)) × (job.uuid ≡ uuid)

finish-TryResult :
    (env : Env) (uuid : Text) (row held job : Job) (running : Table)
    (flush commit : Option Exception)
    → find_row uuid running ≡ some held
    → job.uuid ≡ uuid
    → job.retry ≡ row.retry + 1
    → job.date_started ≡ some env.now
    → TryResult env uuid row (finish env running job flush commit)
unfolding finish set_done stored_row
finish-TryResult env uuid row held job running (some e) commit f h r d = ((held, f), h)
finish-TryResult env uuid row held job running none (some e) f h r d = ((held, f), h)
finish-TryResult env uuid row held job running none none f h r d = (
  stored_row running (set_done env.now none job) held,
  find_row-store_self (set_done env.now none job) uuid running f h,
  record { state = refl; date_done = refl; date_started = d; retry = r },
)

pub on_retryable-uuid :
    (seconds : ℕ) (ignore_retry : Bool) (message : Text) (job : Job)
    → ((on_retryable seconds ignore_retry message job).0).uuid ≡ job.uuid
unfolding on_retryable
on_retryable-uuid seconds true message job = refl
on_retryable-uuid seconds false message job = elim (Bool-cases (job.max_retries == 0)) [
  | inl unlimited ↦ rw unlimited refl
  | inr limited ↦ elim (Bool-cases (leb job.max_retries job.retry)) [
    | inl elapsed ↦ rw (limited, elapsed) refl
    | inr left ↦ rw (limited, left) refl
  ]
]

on_retryable-raised :
    (env : Env) (running : Table) (seconds : ℕ) (ignore_retry : Bool) (message : Text) (job : Job)
    → (e : Exception) × (after_perform env running (on_retryable seconds ignore_retry message job)
        ≡ (running, (on_retryable seconds ignore_retry message job).0, some e))
unfolding on_retryable after_perform
on_retryable-raised env running seconds true message job = (_, refl)
on_retryable-raised env running seconds false message job =
    elim (Bool-cases (job.max_retries == 0)) [
      | inl unlimited ↦ (retryable_job_error seconds false message, rw unlimited refl)
      | inr limited ↦ elim (Bool-cases (leb job.max_retries job.retry)) [
        | inl elapsed ↦ (failed_job_error message, rw (limited, elapsed) refl)
        | inr left ↦ (retryable_job_error seconds false message, rw (limited, left) refl)
      ]
    ]

perform-TryResult :
    (env : Env) (uuid : Text) (row held job : Job) (running : Table) (outcome : Outcome)
    → find_row uuid running ≡ some held
    → job.uuid ≡ uuid
    → job.retry ≡ row.retry
    → job.date_started ≡ some env.now
    → TryResult env uuid row (after_perform env running (perform outcome job))
unfolding perform after_perform
perform-TryResult env uuid row held job running (returned result) f h r d =
    finish-TryResult env uuid row held _ running env.flush env.commit f h (ap (λ n. n + 1) r) d
perform-TryResult env uuid row held job running (raised (retryable_job_error seconds i m)) f h r d =
    let tried = record job { retry = job.retry + 1 } in
    let (e, result) = on_retryable-raised env running seconds i m tried in
    rw result ((held, f), on_retryable-uuid seconds i m tried ∙ h)
perform-TryResult env uuid row held job running (raised (failed_job_error m)) f h r d =
    ((held, f), h)
perform-TryResult env uuid row held job running (raised (operational_error c m)) f h r d =
    ((held, f), h)
perform-TryResult env uuid row held job running (raised (other_error n m)) f h r d = ((held, f), h)

after_begin-TryResult :
    (env : Env) (uuid : Text) (row begun : Job) (table : Table) (course : Course)
    → find_row uuid table ≡ some row
    → begun.uuid ≡ uuid
    → begun.retry ≡ row.retry
    → begun.date_started ≡ some env.now
    → TryResult env uuid row (after_begin env course begun table)
unfolding after_begin
after_begin-TryResult env uuid row begun table (not_begun e) f h r d = ((row, f), h)
after_begin-TryResult env uuid row begun table (performs outcome) f h r d =
    perform-TryResult env uuid row _ begun _ outcome (find_row-store_self begun uuid table f h) h r
      d

pub try_perform_job-TryResult :
    (env : Env) (uuid : Text) (table : Table) (row : Job)
    → find_row uuid table ≡ some row
    → TryResult env uuid row (try_perform_job env (from_row row) table)
unfolding try_perform_job from_row set_started
try_perform_job-TryResult env uuid table row f =
    after_begin-TryResult env uuid row (set_started env.now env.pid (from_row row)) table
      env.outcome f (find_row-uuid uuid table f) refl refl
