-- ===== src/QueueJob.antt =====
-- integration_queue_job/models/queue_job.py: the changes of state that a user and the garbage
-- collector make to the jobs in the table. Times are in seconds; `limit_time_real` is an argument.
pub mod Rescue
pub mod Collect
pub mod Autovacuum
use Prim.Native.Nat.{◌/◌}
use integration_queue.Prelude.{
  ℕ, ◌+◌, ◌*◌, Bool, true, false, not, ◌&&◌, ◌||◌, List, [], ◌∷◌, Option, none, some, if◌then◌else◌,
  leb, ltb, ◌==◌, Text, ℤ, pos, negsuc,
}
use integration_queue.Job.State.{
  State, wait_dependencies, pending, enqueued, cancelled, done, started, failed, ◌is◌,
}
use integration_queue.Job.Record.{Job, Table, set_pending, set_done, set_cancelled, set_failed}
use integration_queue.Job.Store.{load, store, enqueue_waiting, cancel_dependent_jobs}

abbrev pub kill_delay_seconds : ℕ
kill_delay_seconds = 2 * 60 + 1

unfoldable pub minimum_started_delta : ℤ → ℕ
minimum_started_delta (negsuc n) = 0
minimum_started_delta (pos n) = if n == 0 then 0 else (n + kill_delay_seconds + 59) / 60

unfoldable pub safe_started_delta : ℤ → ℕ → ℕ
unfolding minimum_started_delta
safe_started_delta limit_time_real started_delta =
    let minimum = minimum_started_delta limit_time_real in
    if started_delta == 0
    then 0
    else if minimum == 0
    then started_delta
    else if ltb started_delta minimum
    then minimum
    else started_delta

-- `date <= now - minutes`; NULL is not.
unfoldable pub older : ℕ → ℕ → Option ℕ → Bool
older now minutes none = false
older now minutes (some date) = leb (date + 60 * minutes) now

-- One part of `_get_stuck_jobs_domain`, which 0 minutes leaves out.
unfoldable pub stuck_in : State → ℕ → ℕ → Option ℕ → Job → Bool
unfolding older
stuck_in state now minutes date j = not (minutes == 0) && older now minutes date && j.state is state

unfoldable pub is_stuck : ℕ → ℕ → ℕ → Job → Bool
unfolding stuck_in
is_stuck now enqueued_delta started_delta j =
    stuck_in enqueued now enqueued_delta j.date_enqueued j
    || stuck_in started now started_delta j.date_started j

unfoldable pub filter : (Job → Bool) → Table → Table
filter test [] = []
filter test (j ∷ rows) = if test j then j ∷ filter test rows else filter test rows

-- One record in `_change_job_state(PENDING)`; a job that does not exist raises.
unfoldable pub change_to_pending : Option Text → Bool → Text → Table → Option Table
change_to_pending result reset_retry uuid table = elim (load uuid table) [
  | none ↦ none
  | some j ↦ some (store (set_pending table result reset_retry j) table)
]

unfoldable pub change_to_done : ℕ → Option Text → Text → Table → Option Table
change_to_done now result uuid table = elim (load uuid table) [
  | none ↦ none
  | some j ↦ some (enqueue_waiting uuid (store (set_done now result j) table))
]

unfoldable pub change_to_cancelled : ℕ → Option Text → Text → Table → Option Table
change_to_cancelled now result uuid table = elim (load uuid table) [
  | none ↦ none
  | some j ↦ some (cancel_dependent_jobs uuid (store (set_cancelled now result j) table))
]

-- A call for each record in turn.
unfoldable pub for_records : (Text → Table → Option Table) → Table → Table → Option Table
for_records change [] table = some table
for_records change (j ∷ records) table = elim (change j.uuid table) [
  | none ↦ none
  | some after ↦ for_records change records after
]

-- The states that `_change_job_state` supports; the others raise.
unfoldable pub change_job_state : State → ℕ → Option Text → Bool → Table → Table → Option Table
unfolding for_records
change_job_state done now result reset_retry records table =
    for_records (change_to_done now result) records table
change_job_state pending now result reset_retry records table =
    for_records (change_to_pending result reset_retry) records table
change_job_state cancelled now result reset_retry records table =
    for_records (change_to_cancelled now result) records table
change_job_state _ now result reset_retry [] table = some table
change_job_state _ now result reset_retry (j ∷ records) table = none

unfoldable pub requeue : ℕ → Bool → Table → Table → Option Table
unfolding filter
requeue now reset_retry records table =
    change_job_state pending now none reset_retry
      (filter (λ j. not (j.state is wait_dependencies)) records) table

-- The texts of the exception that a dead job gets.
pub record DeadTexts : Type 0 where
  pub exc_info : Job → Text
  pub exc_name : Text
  pub exc_message : Job → Text

-- What `_rescue_dead_jobs` does with a loaded job, before it stores it.
unfoldable pub rescue : DeadTexts → Table → Job → Job
rescue texts table job =
    let charged = record job { retry = job.retry + 1 } in
    if not (charged.max_retries == 0) && leb charged.max_retries charged.retry
    then set_failed (some (texts.exc_info charged)) (some texts.exc_name)
        (some (texts.exc_message charged)) charged
    else set_pending table none false charged

unfoldable pub rescue_dead_job : DeadTexts → Text → Table → Option Table
rescue_dead_job texts uuid table = elim (load uuid table) [
  | none ↦ none
  | some j ↦ some (store (rescue texts table j) table)
]

unfoldable pub rescue_dead_jobs : DeadTexts → Table → Table → Option Table
unfolding for_records
rescue_dead_jobs texts records table = for_records (rescue_dead_job texts) records table

-- `none` is a `ValidationError`, when both parameters are 0, or a job that is gone.
unfoldable pub requeue_stuck_jobs : DeadTexts → ℤ → ℕ → ℕ → ℕ → Table → Option Table
unfolding filter requeue rescue_dead_jobs
requeue_stuck_jobs texts limit_time_real now enqueued_delta started_delta table =
    let safe_delta = safe_started_delta limit_time_real started_delta in
    let stuck = filter (is_stuck now enqueued_delta safe_delta) table in
    if enqueued_delta == 0 && safe_delta == 0
    then none
    else elim (rescue_dead_jobs texts (filter (λ j. j.state is started) stuck) table) [
      | none ↦ none
      | some rescued ↦ requeue now false (filter (λ j. not (j.state is started)) stuck) rescued
    ]
