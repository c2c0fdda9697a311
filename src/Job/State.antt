-- ===== src/Job/State.antt =====
-- The states of integration_queue_job/job.py.
use integration_queue.Prelude.{Bool, true, false}

pub data State : Type 0 where
  wait_dependencies pending enqueued cancelled done started failed : State

pub State-discrete : Discrete State
State-discrete = hlevel

infix 50 ◌is◌
abbrev pub ◌is◌ : State → State → Bool
wait_dependencies is wait_dependencies = true
pending is pending = true
enqueued is enqueued = true
cancelled is cancelled = true
done is done = true
started is started = true
failed is failed = true
_ is _ = false
