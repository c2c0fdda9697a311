-- ===== src/Job/Create.antt =====
-- `Job.__init__` and `add_depends` of integration_queue_job/job.py. Jobs that are not stored yet are
-- objects, by identity.
use integration_queue.Prelude.{
  ℕ, List, [], ◌∷◌, Option, none, some, if◌then◌else◌, ◌==◌, Text, text_eq,
}
use integration_queue.Job.State.{pending, done, wait_dependencies, ◌is◌}
use integration_queue.Job.Record.{Job, elem_text}
use integration_queue.Job.Perform.{eta_after}

abbrev pub default_priority : ℕ
default_priority = 20

abbrev pub default_max_retries : ℕ
default_max_retries = 5

-- The values that the setter of `eta` takes: None, a date, or a delay in seconds.
pub data Eta : Type 0 where
  unset : Eta
  at_date : ℕ → Eta
  after_seconds : ℕ → Eta

unfoldable pub eta_of : ℕ → Eta → Option ℕ
eta_of now unset = none
eta_of now (at_date date) = some date
eta_of now (after_seconds n) = eta_after now n

unfoldable pub or_default {ℓ} : {A : Type ℓ} → A → Option A → A
or_default a none = a
or_default a (some b) = b

-- `self._channel or self.job_config.channel`
unfoldable pub channel_or : Text → Option Text → Text
channel_or config none = config
channel_or config (some []) = config
channel_or config (some (c ∷ channel)) = c ∷ channel

-- The job's key is the one that a function of the job gives, if it is no text.
pub record Params : Type 0 where
  pub priority : Option ℕ
  pub eta : Eta
  pub max_retries : Option ℕ
  pub channel : Option Text
  pub identity_key : Option Text

unfoldable pub new_job : ℕ → Text → Text → Params → Job
unfolding eta_of or_default channel_or
new_job now uuid config_channel params = record {
  uuid = uuid;
  graph_uuid = none;
  state = pending;
  priority = or_default default_priority params.priority;
  channel = channel_or config_channel params.channel;
  identity_key = params.identity_key;
  retry = 0;
  max_retries = or_default default_max_retries params.max_retries;
  eta = eta_of now params.eta;
  date_created = now;
  date_enqueued = none;
  date_started = none;
  date_done = none;
  date_cancelled = none;
  worker_pid = none;
  result = none;
  exc_name = none;
  exc_message = none;
  exc_info = none;
  depends_on = [];
  reverse_depends_on = [];
}

abbrev pub JobObjects : Type 0
JobObjects = ℕ → Job

unfoldable pub insert_text : Text → List Text → List Text
insert_text u us = if elem_text u us then us else u ∷ us

-- What `add_depends` makes of the child and of the parent.
unfoldable pub with_parent : Job → Job → Job
unfolding insert_text
with_parent parent job = record job {
  depends_on = insert_text parent.uuid job.depends_on;
  state = if parent.state is done then job.state else wait_dependencies;
}

unfoldable pub with_child : Job → Job → Job
unfolding insert_text
with_child job parent = record parent {
  reverse_depends_on = insert_text job.uuid parent.reverse_depends_on;
}

-- `add_depends({parent})`; `none` is the ValueError of a job that depends on itself. Jobs are equal
-- if their uuids are.
unfoldable pub add_depends : ℕ → ℕ → JobObjects → Option JobObjects
unfolding with_parent with_child
add_depends job parent jobs =
    if text_eq (jobs job).uuid (jobs parent).uuid
    then none
    else some (λ a.
      if job == a
      then with_parent (jobs parent) (jobs job)
      else if parent == a
      then with_child (jobs job) (jobs parent)
      else jobs a)
