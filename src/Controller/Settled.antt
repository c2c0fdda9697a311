-- ===== src/Controller/Settled.antt =====
-- The row of a job after its run.
use integration_queue.Prelude.{
  ℕ, zero, suc, ◌+◌, ◌≡◌, refl, Bool, true, false, Option, none, some, Text, arith, inl, inr, ◌⊎◌,
  if◌then◌else◌,
}
use integration_queue.Job.State.{State, wait_dependencies, pending, enqueued, done}
use integration_queue.Job.Record.{Job, Table, set_pending, set_failed}
use integration_queue.Job.Perform.{
  Exception, retryable_job_error, failed_job_error, operational_error, other_error, postpone,
}
use integration_queue.Job.Store.{find_row, load, stored_row, enqueue_waiting}
use integration_queue.Job.Store.Dependents.{enqueue_waiting-Ready}
use integration_queue.Controller.{
  Env, depends_max_tries, after_attempt, Response, empty, error, Attempt, succeeds,
  concurrency_failure, other_failure, convert, on_exception, handle, runjob, retry_postpone, fail,
  try_enqueue, enqueue_dependent_jobs,
}
use integration_queue.Controller.Rows.{find_row-store_self, find_enqueued-row}
use integration_queue.Controller.Tries.{
  IsDone, IsPostponed, IsFailed, TryResult, try_perform_job-TryResult,
}

-- Every way for a run to end: the row, and the response with it.
abbrev pub Settled : Env → Job → Response → Job → Type 0
Settled env row response after =
    IsDone env row after
    ⊎ ((response ≡ empty) × IsPostponed env row after)
    ⊎ ((response ≡ error) × IsFailed env row after)

abbrev pub HasSettled : Env → Text → Job → Response × Table → Type 0
HasSettled env uuid row (response, table) =
    (after : Job) × (find_row uuid table ≡ some after) × Settled env row response after

done-ne-wait : {s : State} → s ≡ done → s ≡ wait_dependencies → ⊥
done-ne-wait h k = ground arith

-- A done job's row stays when the dependent jobs are updated.
enqueue_waiting-done :
    (uuid : Text) (table : Table) {row : Job}
    → find_row uuid table ≡ some row
    → row.state ≡ done
    → find_row uuid (enqueue_waiting uuid table) ≡ some row
enqueue_waiting-done uuid table f h = elim (enqueue_waiting-Ready uuid uuid table f f) [
  | inl ready ↦ absurd (done-ne-wait h ready.0.waits)
  | inr other ↦ other.1
]

after_attempt-done :
    (attempt : Attempt) (uuid : Text) (table : Table) (later : Bool × Table) {row : Job}
    → find_row uuid table ≡ some row
    → row.state ≡ done
    → find_row uuid later.1 ≡ some row
    → find_row uuid (after_attempt attempt uuid table later).1 ≡ some row
unfolding after_attempt
after_attempt-done succeeds uuid table later f h l = enqueue_waiting-done uuid table f h
after_attempt-done concurrency_failure uuid table later f h l = l
after_attempt-done other_failure uuid table later f h l = f

try_enqueue-done :
    (left tries : ℕ) (attempts : ℕ → Attempt) (uuid : Text) (table : Table) {row : Job}
    → find_row uuid table ≡ some row
    → row.state ≡ done
    → find_row uuid (try_enqueue left tries attempts uuid table).1 ≡ some row
unfolding try_enqueue
try_enqueue-done zero tries attempts uuid table f h =
    after_attempt-done (attempts tries) uuid table (false, table) f h f
try_enqueue-done (suc left) tries attempts uuid table f h =
    after_attempt-done (attempts tries) uuid table _ f h
      (try_enqueue-done left (tries + 1) attempts uuid table f h)

pub wait_or_pending :
    (b : Bool)
    → ((if b then wait_dependencies else pending) ≡ pending)
      ⊎ ((if b then wait_dependencies else pending) ≡ wait_dependencies)
wait_or_pending true = inr refl
wait_or_pending false = inl refl

retry_postpone-IsPostponed :
    (env : Env) (seconds : ℕ) (message uuid : Text) (row held job : Job) (table : Table)
    → find_row uuid table ≡ some held
    → job.uuid ≡ uuid
    → (after : Job) × (find_row uuid (retry_postpone env seconds message job table) ≡ some after)
      × IsPostponed env row after
unfolding retry_postpone set_pending postpone stored_row
retry_postpone-IsPostponed env seconds message uuid row held job table f h = (
  _,
  find_row-store_self _ uuid table f h,
  record { state = wait_or_pending _; date_started = refl; worker_pid = refl; exc_info = refl },
)

fail-IsFailed :
    (env : Env) (e : Exception) (uuid : Text) (row held job : Job) (table : Table)
    → find_row uuid table ≡ some held
    → job.uuid ≡ uuid
    → (after : Job) × (find_row uuid (fail env e job table) ≡ some after) × IsFailed env row after
unfolding fail set_failed stored_row
fail-IsFailed env e uuid row held job table f h =
    (_, find_row-store_self _ uuid table f h, record { state = refl; cause = (e, refl) })

on_exception-HasSettled :
    (env : Env) (uuid : Text) (row held job : Job) (table : Table) (e : Exception)
    → find_row uuid table ≡ some held
    → job.uuid ≡ uuid
    → HasSettled env uuid row (on_exception env job table e)
unfolding on_exception
on_exception-HasSettled env uuid row held job table (retryable_job_error seconds i message) f h =
    let (after, found, postponed) =
      retry_postpone-IsPostponed env seconds message uuid row held job table f h in
    (after, found, inr (inl (refl, postponed)))
on_exception-HasSettled env uuid row held job table (failed_job_error message) f h =
    let (after, found, failure) = fail-IsFailed env _ uuid row held job table f h in
    (after, found, inr (inr (refl, failure)))
on_exception-HasSettled env uuid row held job table (operational_error c message) f h =
    let (after, found, failure) = fail-IsFailed env _ uuid row held job table f h in
    (after, found, inr (inr (refl, failure)))
on_exception-HasSettled env uuid row held job table (other_error name message) f h =
    let (after, found, failure) = fail-IsFailed env _ uuid row held job table f h in
    (after, found, inr (inr (refl, failure)))

handle-HasSettled :
    (env : Env) (uuid : Text) (row : Job) (tried : Table × Job × Option Exception)
    → TryResult env uuid row tried
    → HasSettled env uuid row (handle env uuid tried)
unfolding handle enqueue_dependent_jobs
handle-HasSettled env uuid row (table, job, none) (after, f, finished) = (
  after,
  try_enqueue-done depends_max_tries 0 env.attempts uuid table f finished.state,
  inl finished,
)
handle-HasSettled env uuid row (table, job, some e) ((held, f), h) =
    on_exception-HasSettled env uuid row held job table (convert e) f h

-- An enqueued job that is run ends done, pending or waiting again with the empty response, or
-- failed with an error.
pub runjob-Settled :
    (env : Env) (uuid : Text) (table : Table) {row : Job}
    → find_row uuid table ≡ some row
    → row.state ≡ enqueued
    → HasSettled env uuid row (runjob env uuid table)
unfolding runjob load
runjob-Settled env uuid table {row} f h =
    rw (runjob, load, find_enqueued-row uuid table f h, f)
      (handle-HasSettled env uuid row _ (try_perform_job-TryResult env uuid table row f))
