-- ===== src/Tests/Channels.antt =====
-- The examples in the docstrings of integration_queue_job/jobrunner/channels.py.
mod Runners
use integration_queue.Prelude.{
  ℕ, List, [], ◌∷◌, map, some, ◌≡◌, refl, Text, text, text_eq, elem, insert, discard, split, strip,
  replace_char, parse_int, starts_with, ends_with, join,
}
use integration_queue.Job.State.{State, pending, done, failed}
use integration_queue.Runner.Errors.{ok, err}
use integration_queue.Runner.PriorityQueue
use integration_queue.Runner.ChannelQueue
use integration_queue.Runner.ChannelJob.{clear_eta, job_lt}
use integration_queue.Runner.Channel
use integration_queue.Runner.ChannelTree
use integration_queue.Runner.Config.{parse_simple_config}
use integration_queue.Runner.Manager
use integration_queue.Runner.Manager.{Manager, Row}

-- All that the runs compute with.
program : Unit {0}
unfolding text_eq elem insert discard split strip replace_char parse_int starts_with ends_with join
    PriorityQueue.empty PriorityQueue.len PriorityQueue.contains PriorityQueue.peek
    PriorityQueue.pop PriorityQueue.add PriorityQueue.remove ChannelQueue.empty ChannelQueue.add
    ChannelQueue.remove ChannelQueue.contains ChannelQueue.release_first ChannelQueue.first_eta
    ChannelQueue.release_due ChannelQueue.comes_first ChannelQueue.waits_for_eta
    ChannelQueue.pop_released ChannelQueue.pop ChannelQueue.get_wakeup_time clear_eta job_lt
    Channel.new Channel.has_capacity Channel.set_done Channel.set_pending Channel.set_running
    Channel.set_failed Channel.add_throttle Channel.throttled Channel.yield_jobs Channel.queue_fuel
    Channel.own_jobs_to_run Channel.enqueue Channel.get_jobs_to_run Channel.get_wakeup_time
    ChannelTree.path_eq ChannelTree.line_at ChannelTree.put_line ChannelTree.ensure
    ChannelTree.exists_at ChannelTree.fallback_from ChannelTree.path_of
    ChannelTree.get_channel_by_name ChannelTree.on_channel ChannelTree.fullname parse_simple_config
    Manager.configure Manager.on_first Manager.first_of_line Manager.get_channel_from_config
    Manager.configure_all Manager.simple_configure Manager.init Manager.find_job Manager.delete_job
    Manager.get_job Manager.notify Manager.remove_job Manager.remove_db Manager.get_jobs_to_run
    Manager.get_wakeup_time
program = tt

-- Steps of a session with a manager; the result is what the jobs to run and the wakeup times are.
data Step : Type 0 where
  tell : Text → Text → ℕ → ℕ → ℕ → State → Step
  ask : ℕ → Step
  wake : Step

-- The texts are the uuids of the jobs to run.
data Answer : Type 0 where
  jobs : List Text → Answer
  time : ℕ → Answer
  refused : Answer

row : Text → Text → ℕ → ℕ → ℕ → State → Row
row channel uuid created priority eta state = record {
  db_name = text "db";
  channel_name = channel;
  uuid = uuid;
  seq = created;
  date_created = 0;
  priority = priority;
  eta = eta;
  state = some state;
}

session : List Step → Manager → List Answer
unfolding row
session [] m = []
session (tell channel uuid created priority eta state ∷ steps) m =
    elim (Manager.notify (row channel uuid created priority eta state) m) [
      | err e ↦ refused ∷ []
      | ok m' ↦ session steps m'
    ]
session (ask now ∷ steps) m =
    let (yielded, m') = Manager.get_jobs_to_run now m in
    jobs (map (λ o. (m'.jobs o).uuid) yielded) ∷ session steps m'
session (wake ∷ steps) m = let (t, m') = Manager.get_wakeup_time m in time t ∷ session steps m'

manager : Text → Manager
manager s = elim (Manager.simple_configure s Manager.init.root_channel) [
  | err e ↦ Manager.init
  | ok t ↦ record (Manager.init) { root_channel = t }
]

channels_doc :
    session
      (tell (text "A") (text "A1") 1 10 0 pending
        ∷ tell (text "A") (text "A2") 2 10 0 pending
        ∷ tell (text "A") (text "A3") 3 10 0 pending
        ∷ tell (text "A") (text "A4") 4 10 0 pending
        ∷ tell (text "A") (text "A5") 5 10 0 pending
        ∷ tell (text "A") (text "A6") 6 10 0 pending
        ∷ tell (text "B") (text "B1") 1 5 0 pending
        ∷ tell (text "B") (text "B2") 2 5 0 pending
        ∷ ask 100
        ∷ tell (text "A") (text "A2") 2 10 0 done
        ∷ ask 100
        ∷ tell (text "B") (text "B1") 1 5 0 done
        ∷ ask 100
        ∷ tell (text "A") (text "A1") 1 10 0 done
        ∷ tell (text "A") (text "A6") 6 5 0 pending
        ∷ ask 100
        ∷ [])
      (manager (text "root:4,A:4,B:1"))
    ≡ jobs (text "B1" ∷ text "A1" ∷ text "A2" ∷ text "A3" ∷ [])
      ∷ jobs (text "A4" ∷ [])
      ∷ jobs (text "B2" ∷ [])
      ∷ jobs (text "A6" ∷ [])
      ∷ []
unfolding program session manager
channels_doc = refl

-- Throttling, and a queue at full capacity.
throttle_doc :
    session
      (tell (text "T") (text "T1") 1 10 0 pending
        ∷ tell (text "T") (text "T2") 2 10 0 pending
        ∷ tell (text "T") (text "T3") 3 10 0 pending
        ∷ ask 100
        ∷ wake
        ∷ ask 102
        ∷ ask 103
        ∷ wake
        ∷ tell (text "T") (text "T1") 1 10 0 done
        ∷ ask 105
        ∷ wake
        ∷ tell (text "T") (text "T2") 2 10 0 done
        ∷ wake
        ∷ [])
      (manager (text "root:4,T:2:throttle=2"))
    ≡ jobs (text "T1" ∷ [])
      ∷ time 102
      ∷ jobs (text "T2" ∷ [])
      ∷ jobs []
      ∷ time 0
      ∷ jobs (text "T3" ∷ [])
      ∷ time 0
      ∷ time 107
      ∷ []
unfolding program session manager
throttle_doc = refl

-- A sequential queue waits for a failed job and for an eta.
sequential_doc :
    session
      (tell (text "S") (text "S1") 1 10 0 pending
        ∷ tell (text "S") (text "S2") 2 10 0 pending
        ∷ tell (text "S") (text "S3") 3 10 0 pending
        ∷ ask 100
        ∷ tell (text "S") (text "S1") 1 10 0 failed
        ∷ ask 101
        ∷ tell (text "S") (text "S2") 2 10 105 pending
        ∷ ask 102
        ∷ wake
        ∷ tell (text "S") (text "S1") 1 10 0 pending
        ∷ wake
        ∷ ask 102
        ∷ tell (text "S") (text "S1") 1 10 0 done
        ∷ ask 103
        ∷ ask 105
        ∷ tell (text "S") (text "S2") 2 10 105 done
        ∷ ask 105
        ∷ [])
      (manager (text "root:4,S:1:sequential"))
    ≡ jobs (text "S1" ∷ [])
      ∷ jobs []
      ∷ jobs []
      ∷ time 0
      ∷ time 105
      ∷ jobs (text "S1" ∷ [])
      ∷ jobs []
      ∷ jobs (text "S2" ∷ [])
      ∷ jobs (text "S3" ∷ [])
      ∷ []
unfolding program session manager
sequential_doc = refl
