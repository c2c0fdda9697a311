-- ===== src/Controller.antt =====
-- integration_queue_job/controllers/main.py: the request that runs a job. The clock, the process id,
-- the outcome of the job's function and of the database are in an environment; what the function
-- writes to other tables is left out.
pub mod Rows
pub mod Tries
pub mod Settled
pub mod Retries
pub mod Concurrency
pub mod Budget
use integration_queue.Prelude.{
  ℕ, zero, suc, ◌+◌, Bool, true, false, not, ◌&&◌, List, [], ◌∷◌, Option, none, some, if◌then◌else◌,
  Text, text_eq,
}
use integration_queue.Job.State.{State, enqueued, ◌is◌}
use integration_queue.Job.Record.{Job, Table, set_pending, set_started, set_done, set_failed}
use integration_queue.Job.Perform.{
  Exception, retryable_job_error, failed_job_error, operational_error, other_error, Outcome,
  returned, raised, perform, Seconds, get_retry_seconds, postpone,
}
use integration_queue.Job.Store.{find_row, load, store, enqueue_waiting}

-- How one try to update the dependent jobs ends.
pub data Attempt : Type 0 where
  succeeds concurrency_failure other_failure : Attempt

-- What a try meets: the first `job.store()` or commit raises, or the job's function is performed.
pub data Course : Type 0 where
  not_begun : Exception → Course
  performs : Outcome → Course

pub record Env : Type 0 where
  pub now : ℕ
  pub pid : ℕ
  pub outcome : Course
  pub flush : Option Exception
  pub commit : Option Exception
  pub randint : ℕ → ℕ → ℕ
  pub retry_pattern : List (ℕ × Seconds)
  pub attempts : ℕ → Attempt
  pub traceback : Exception → Text
  pub exc_name : Exception → Text
  pub exc_message : Exception → Text

-- The end of `_try_perform_job`, with what the flush after the job raises and what the last commit
-- raises.
unfoldable pub finish :
    Env → Table → Job → (flush commit : Option Exception) → Table × Job × Option Exception
finish env running job (some e) commit = (running, job, some e)
finish env running job none (some e) = (running, set_done env.now none job, some e)
finish env running job none none =
    let finished = set_done env.now none job in (store finished running, finished, none)

unfoldable pub after_perform : Env → Table → Job × Outcome → Table × Job × Option Exception
unfolding finish
after_perform env running (performed, raised e) = (running, performed, some e)
after_perform env running (performed, returned _) =
    finish env running performed env.flush env.commit

-- `_try_perform_job`: the committed table, the job object and what was raised.
unfoldable pub after_begin : Env → Course → Job → Table → Table × Job × Option Exception
unfolding after_perform
after_begin env (not_begun e) begun table = (table, begun, some e)
after_begin env (performs outcome) begun table =
    after_perform env (store begun table) (perform outcome begun)

unfoldable pub try_perform_job : Env → Job → Table → Table × Job × Option Exception
unfolding after_begin
try_perform_job env job table = after_begin env env.outcome (set_started env.now env.pid job) table

abbrev pub pg_retry : ℕ
pg_retry = 5

-- The inner `except OperationalError`.
unfoldable pub convert : Exception → Exception
convert (operational_error true message) = retryable_job_error pg_retry false message
convert e = e

unfoldable pub retry_postpone : Env → ℕ → Text → Job → Table → Table
retry_postpone env seconds message job table =
    let eta_seconds = get_retry_seconds env.randint env.retry_pattern seconds job in
    store (set_pending table none false (postpone env.now eta_seconds (some message) job)) table

-- The `except (FailedJobError, Exception)`, with `_get_failure_values`.
unfoldable pub fail : Env → Exception → Job → Table → Table
fail env e job table =
    store
      (set_failed (some (env.traceback e)) (some (env.exc_name e)) (some (env.exc_message e)) job)
      table

abbrev pub depends_max_tries : ℕ
depends_max_tries = 5

-- The `try` of `_enqueue_dependent_jobs`, with what a concurrency failure leads to.
unfoldable pub after_attempt : Attempt → Text → Table → Bool × Table → Bool × Table
after_attempt succeeds uuid table later = (true, enqueue_waiting uuid table)
after_attempt concurrency_failure uuid table later = later
after_attempt other_failure uuid table later = (false, table)

-- The loop of `_enqueue_dependent_jobs` with `left` retries before the maximum; `false` is a raise.
unfoldable pub try_enqueue : ℕ → ℕ → (ℕ → Attempt) → Text → Table → Bool × Table
unfolding after_attempt
try_enqueue zero tries attempts uuid table =
    after_attempt (attempts tries) uuid table (false, table)
try_enqueue (suc left) tries attempts uuid table =
    after_attempt (attempts tries) uuid table (try_enqueue left (tries + 1) attempts uuid table)

unfoldable pub enqueue_dependent_jobs : (ℕ → Attempt) → Text → Table → Bool × Table
unfolding try_enqueue
enqueue_dependent_jobs attempts uuid table = try_enqueue depends_max_tries 0 attempts uuid table

-- The response to the request: the empty text, or an error with the exception.
pub data Response : Type 0 where
  empty : Response
  error : Response

-- The `try` statement around the job, with the table and the job after `_try_perform_job`.
-- The `except` clauses, with the exception after `convert`.
unfoldable pub on_exception : Env → Job → Table → Exception → Response × Table
on_exception env job table (retryable_job_error seconds _ message) =
    (empty, retry_postpone env seconds message job table)
on_exception env job table (failed_job_error message) =
    (error, fail env (failed_job_error message) job table)
on_exception env job table (operational_error concurrency message) =
    (error, fail env (operational_error concurrency message) job table)
on_exception env job table (other_error name message) =
    (error, fail env (other_error name message) job table)

unfoldable pub handle : Env → Text → Table × Job × Option Exception → Response × Table
unfolding convert on_exception
handle env uuid (table, job, none) =
    let (updated, after) = enqueue_dependent_jobs env.attempts uuid table in
    (if updated then empty else error, after)
handle env uuid (table, job, some e) = on_exception env job table (convert e)

-- The job's row, if it is enqueued: the `SELECT ... FOR UPDATE`.
unfoldable pub find_enqueued : Text → Table → Bool
find_enqueued uuid [] = false
find_enqueued uuid (j ∷ rows) =
    if text_eq j.uuid uuid && j.state is enqueued then true else find_enqueued uuid rows

unfoldable pub runjob : Env → Text → Table → Response × Table
runjob env uuid table =
    if find_enqueued uuid table
    then elim (load uuid table) [
      | none ↦ (error, table)
      | some job ↦ handle env uuid (try_perform_job env job table)
    ]
    else (empty, table)
