-- ===== src/Tests/Jobs.antt =====
-- The theorems on the jobs in the table at concrete inputs.
use integration_queue.Prelude.{
  is_digit, digits_from, Bool, if◌then◌else◌, inl, pos, ◌+◌, ◌≤◌, ◌≡◌, ◌⊎◌, refl, true, false, List,
  [], ◌∷◌, none, some, arith, Text, text, text_eq,
}
use integration_queue.Job.State.{State, wait_dependencies, pending, enqueued, started, done}
use integration_queue.Job.Record.{Job, Table}
use integration_queue.Job.Perform.{
  exactly, between, Outcome, returned, raised, retryable_job_error, operational_error,
}
use integration_queue.Job.Store.{find_row, enqueue_waiting}
use integration_queue.Job.Store.{has_key, not_started, enqueue_job}
use integration_queue.Job.Store.Keys.{count, UniqueKeys, enqueue_job-UniqueKeys}
use integration_queue.Runner.Request.{
  http_error, postpones, retry_delay, asked_delay, is_number, async_http_get,
}
use integration_queue.Runner.Request.Delay.{RequestLeaves, async_http_get-RequestLeaves}
use integration_queue.QueueJob.{requeue_stuck_jobs}
use integration_queue.QueueJob.Collect.{requeue_stuck_jobs-retry}
use integration_queue.Job.Store.Dependents.{Ready, enqueue_waiting-Ready}
use integration_queue.Controller.{Env, not_begun, performs, succeeds, empty, runjob, pg_retry}
use integration_queue.Controller.Settled.{HasSettled, runjob-Settled}
use integration_queue.Controller.Retries.{Retries, IsTriedAgain, runjob-Retries}
use integration_queue.Controller.Concurrency.{runjob_concurrency_error}
use integration_queue.Controller.Budget.{AfterRuns, rerun-StateAfter}
use integration_queue.QueueJob.{
  DeadTexts, kill_delay_seconds, is_stuck, stuck_in, older, safe_started_delta,
  minimum_started_delta, rescue_dead_job,
}
use integration_queue.QueueJob.Rescue.{IsRescued, stuck_started_age, rescue_dead_job-IsRescued}

-- A job of the graph "g" in a state, with its parents and its children.
abbrev sample : Text → State → List Text → List Text → Job
sample uuid state parents children = record {
  uuid = uuid;
  graph_uuid = some (text "g");
  state = state;
  priority = 10;
  channel = text "root";
  identity_key = none;
  retry = 0;
  max_retries = 2;
  eta = none;
  date_created = 1;
  date_enqueued = none;
  date_started = none;
  date_done = none;
  date_cancelled = none;
  worker_pid = none;
  result = none;
  exc_name = none;
  exc_message = none;
  exc_info = none;
  depends_on = parents;
  reverse_depends_on = children;
}

abbrev sample_env : Outcome → Env
sample_env outcome = record {
  now = 100;
  pid = 7;
  outcome = performs outcome;
  flush = none;
  commit = none;
  randint = λ lo hi. lo;
  retry_pattern = (1, exactly 10) ∷ (5, between 20 30) ∷ [];
  attempts = λ n. succeeds;
  traceback = λ e. text "traceback";
  exc_name = λ e. text "name";
  exc_message = λ e. text "message";
}

abbrev family : State → Table
family state =
    sample (text "a") state [] (text "b" ∷ [])
    ∷ sample (text "b") wait_dependencies (text "a" ∷ []) []
    ∷ []

family-a :
    (s : State) → find_row (text "a") (family s) ≡ some (sample (text "a") s [] (text "b" ∷ []))
unfolding find_row text_eq
family-a s = refl

abbrev asks : Outcome
asks = raised (retryable_job_error 0 false (text "later"))

enqueue_waiting-Ready_example :
    let row = sample (text "b") wait_dependencies (text "a" ∷ []) [] in
    let parent = sample (text "a") done [] (text "b" ∷ []) in
    let after = find_row (text "b") (enqueue_waiting (text "a") (family done)) in
    (Ready done parent (family done) row × (after ≡ some (record row { state = pending })))
    ⊎ ((Ready done parent (family done) row → ⊥) × (after ≡ some row))
unfolding find_row text_eq
enqueue_waiting-Ready_example = enqueue_waiting-Ready (text "a") (text "b") (family done) refl refl

runjob-Settled_example :
    HasSettled
      (sample_env (returned none))
      (text "a")
      (sample (text "a") enqueued [] (text "b" ∷ []))
      (runjob (sample_env (returned none)) (text "a") (family enqueued))
runjob-Settled_example =
    runjob-Settled (sample_env (returned none)) (text "a") (family enqueued) (family-a enqueued)
      refl

runjob-Retries_example :
    Retries
      (sample_env asks)
      (text "a")
      0
      (sample (text "a") enqueued [] (text "b" ∷ []))
      (runjob (sample_env asks) (text "a") (family enqueued))
runjob-Retries_example =
    runjob-Retries (sample_env asks) (text "a") 0 (text "later") (family enqueued)
      (family-a enqueued) refl refl

abbrev conflict : Env
conflict = record (sample_env (returned none)) {
  outcome = not_begun (operational_error true (text "conflict"));
}

runjob_concurrency_error_example :
    ((runjob conflict (text "a") (family enqueued)).0 ≡ empty)
    × ((after : Job) × (find_row (text "a") (runjob conflict (text "a") (family enqueued)).1
          ≡ some after)
        × IsTriedAgain conflict pg_retry 0 (sample (text "a") enqueued [] (text "b" ∷ [])) after)
runjob_concurrency_error_example =
    runjob_concurrency_error conflict (text "a") (text "conflict") (family enqueued) 0
      (family-a enqueued) refl (inl (refl, refl))

rerun-StateAfter_example : AfterRuns (λ k. sample_env asks) (text "a") 2 2 (family pending)
rerun-StateAfter_example =
    rerun-StateAfter (λ k. sample_env asks) (text "a") (λ k. 0) (λ k. text "later") (λ k. refl)
      (family pending) 2 (family-a pending) refl refl refl (omega arith) 2 (omega arith)

-- A job that started at 1000 and is still started ten hours later.
abbrev dead : Job
dead = record (sample (text "a") started [] []) { date_started = some 1000; retry = 1 }

abbrev texts : DeadTexts
texts = record {
  exc_info = λ j. text "info";
  exc_name = text "JobFoundDead";
  exc_message = λ j. text "dead";
}

stuck_started_age_example : 1000 + 120 + kill_delay_seconds ≤ 37000
unfolding is_stuck stuck_in older safe_started_delta minimum_started_delta
stuck_started_age_example = stuck_started_age 120 1 5 37000 1000 dead (omega arith) refl refl refl

rescue_dead_job-IsRescued_example :
    (after : Table) × (found : Job) × (rescue_dead_job texts (text "a") (dead ∷ []) ≡ some after)
    × (find_row (text "a") after ≡ some found)
    × IsRescued dead found
unfolding find_row text_eq
rescue_dead_job-IsRescued_example = rescue_dead_job-IsRescued texts (text "a") (dead ∷ []) refl

abbrev keyed : Job
keyed = record (sample (text "b") pending [] []) { identity_key = some (text "k") }

abbrev keyed_table : Table
keyed_table = record keyed { uuid = text "a" } ∷ dead ∷ []

at_most_one_of : (b : Bool) → (if b then 1 else 0) ≤ 1
at_most_one_of b = ground arith

keyed_table-UniqueKeys : UniqueKeys keyed_table
unfolding count has_key not_started text_eq
keyed_table-UniqueKeys c key = at_most_one_of _

enqueue_job-UniqueKeys_example : UniqueKeys (enqueue_job keyed keyed_table).1
unfolding find_row text_eq
enqueue_job-UniqueKeys_example =
    enqueue_job-UniqueKeys keyed keyed_table refl keyed_table-UniqueKeys

requeue_stuck_jobs-retry_example :
    (after : Table) × (row' : Job) × (requeue_stuck_jobs texts (pos 120) 37000 5 5 (dead ∷ [])
      ≡ some after)
    × (find_row (text "a") after ≡ some row')
    × (1 ≤ row'.retry)
unfolding find_row text_eq
requeue_stuck_jobs-retry_example =
    requeue_stuck_jobs-retry texts (pos 120) 37000 5 5 (text "a") (dead ∷ []) (inl (omega arith))
      refl

async_http_get-RequestLeaves_example :
    RequestLeaves
      (http_error 429 (some (text "30")))
      postpones
      100
      (text "a")
      (text "a")
      (sample (text "a") enqueued [] (text "b" ∷ []))
      (async_http_get
        (http_error 429 (some (text "30")))
        postpones
        100
        (text "a")
        (family enqueued))
async_http_get-RequestLeaves_example =
    async_http_get-RequestLeaves (http_error 429 (some (text "30"))) postpones 100 (text "a")
      (text "a") (family enqueued) (family-a enqueued)

delay_doc : retry_delay (some (text "30")) ≡ 30
unfolding retry_delay asked_delay is_number is_digit digits_from
delay_doc = refl
