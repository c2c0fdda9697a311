-- ===== src/Job/Record.antt =====
-- `Job` of integration_queue_job/job.py: the attributes, and the methods that change the state. The
-- clock and the process id are arguments. A job that a method works on is loaded from the table, so
-- its dependencies are the rows of the table that their uuids name.
use integration_queue.Prelude.{
  ℕ, ◌-◌, Bool, true, false, not, ◌&&◌, ◌||◌, List, [], ◌∷◌, Option, none, some, if◌then◌else◌,
  Text, text_eq,
}
use integration_queue.Job.State.{
  State, wait_dependencies, pending, enqueued, cancelled, done, started, failed, ◌is◌,
}

pub record Job : Type 0 where
  pub uuid : Text
  pub graph_uuid : Option Text
  pub state : State
  pub priority : ℕ
  pub channel : Text
  pub identity_key : Option Text
  pub retry : ℕ
  pub max_retries : ℕ
  pub eta : Option ℕ
  pub date_created : ℕ
  pub date_enqueued : Option ℕ
  pub date_started : Option ℕ
  pub date_done : Option ℕ
  pub date_cancelled : Option ℕ
  pub worker_pid : Option ℕ
  pub result : Option Text
  pub exc_name : Option Text
  pub exc_message : Option Text
  pub exc_info : Option Text
  pub depends_on : List Text
  pub reverse_depends_on : List Text

-- The rows of the table `queue_job`.
abbrev pub Table : Type 0
Table = List Job

unfoldable pub elem_text : Text → List Text → Bool
elem_text u [] = false
elem_text u (v ∷ us) = if text_eq v u then true else elem_text u us

-- `j.state != DONE` for some row that the uuids name.
unfoldable pub any_not_done : List Text → Table → Bool
any_not_done uuids [] = false
any_not_done uuids (j ∷ rows) =
    elem_text j.uuid uuids && not (j.state is done) || any_not_done uuids rows

-- `if result is not None: self.result = result`
unfoldable pub or_keep : Option Text → Option Text → Option Text
or_keep none old = old
or_keep (some new) old = some new

unfoldable pub set_pending : Table → Option Text → Bool → Job → Job
unfolding or_keep
set_pending table result reset_retry job = record job {
  state = if any_not_done job.depends_on table then wait_dependencies else pending;
  date_enqueued = none;
  date_started = none;
  date_done = none;
  worker_pid = none;
  date_cancelled = none;
  retry = if reset_retry then 0 else job.retry;
  result = or_keep result job.result;
}

unfoldable pub set_enqueued : ℕ → Job → Job
set_enqueued now job = record job {
  state = enqueued;
  date_enqueued = some now;
  date_started = none;
  worker_pid = none;
}

unfoldable pub set_started : ℕ → ℕ → Job → Job
set_started now pid job = record job {
  state = started;
  date_started = some now;
  worker_pid = some pid;
}

unfoldable pub set_done : ℕ → Option Text → Job → Job
unfolding or_keep
set_done now result job = record job {
  state = done;
  exc_name = none;
  exc_info = none;
  date_done = some now;
  result = or_keep result job.result;
}

unfoldable pub set_cancelled : ℕ → Option Text → Job → Job
unfolding or_keep
set_cancelled now result job = record job {
  state = cancelled;
  date_cancelled = some now;
  result = or_keep result job.result;
}

-- The keywords are those that `_get_failure_values` gives.
unfoldable pub set_failed : Option Text → Option Text → Option Text → Job → Job
unfolding or_keep
set_failed exc_info exc_name exc_message job = record job {
  state = failed;
  exc_info = or_keep exc_info job.exc_info;
  exc_name = or_keep exc_name job.exc_name;
  exc_message = or_keep exc_message job.exc_message;
}

unfoldable pub exec_time : Job → Option ℕ
exec_time job = elim job.date_done [
  | none ↦ none
  | some e ↦ elim job.date_started [ none ↦ none | some s ↦ some (e - s) ]
]
