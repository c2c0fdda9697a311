-- ===== src/Runner/ChannelQueue.antt =====
-- `ChannelQueue` of integration_queue_job/jobrunner/channels.py: the jobs without an eta, and the
-- jobs set aside until theirs.
pub mod Laws
pub mod Release
pub mod Pop
pub mod Measure
pub mod Idle
use integration_queue.Prelude.{
  ℕ, zero, suc, ◌+◌, Bool, true, false, not, ◌&&◌, ◌||◌, Option, none, some, length, if◌then◌else◌,
  ltb, leb, ◌==◌, min,
}
use integration_queue.Runner.PriorityQueue
use integration_queue.Runner.PriorityQueue.{PriorityQueue}
use integration_queue.Runner.ChannelJob.{ChannelJob, Jobs, clear_eta, lt_in, lt_ignoring_eta}

pub record ChannelQueue : Type 0 where
  pub queue : PriorityQueue
  pub eta_queue : PriorityQueue
  pub sequential : Bool

unfoldable pub empty : Bool → ChannelQueue
empty sequential = record {
  queue = PriorityQueue.empty;
  eta_queue = PriorityQueue.empty;
  sequential = sequential;
}

unfoldable pub len : ChannelQueue → ℕ
len q = PriorityQueue.len q.eta_queue + PriorityQueue.len q.queue

unfoldable pub contains : ℕ → ChannelQueue → Bool
contains o q = PriorityQueue.contains o q.eta_queue || PriorityQueue.contains o q.queue

unfoldable pub add : Jobs → ℕ → ChannelQueue → ChannelQueue
add jobs job q =
    if ltb 0 (jobs job).eta
    then record q { eta_queue = PriorityQueue.add (lt_in jobs) job q.eta_queue }
    else record q { queue = PriorityQueue.add (lt_in jobs) job q.queue }

unfoldable pub remove : ℕ → ChannelQueue → ChannelQueue
remove job q = record q {
  eta_queue = PriorityQueue.remove job q.eta_queue;
  queue = PriorityQueue.remove job q.queue;
}

-- The body of the first loop of `pop`: the job with the first eta joins the jobs without one.
unfoldable pub release_first : Jobs → ChannelQueue → Jobs × ChannelQueue
release_first jobs q =
    let (popped, rest) = PriorityQueue.pop q.eta_queue in
    elim popped [
      | none ↦ (jobs, record q { eta_queue = rest })
      | some eta_job ↦
          let jobs' = clear_eta eta_job jobs in
          (
            jobs',
            record q { eta_queue = rest; queue = PriorityQueue.add (lt_in jobs') eta_job q.queue },
          )
    ]

-- `self._eta_queue[0]`, read if the queue is not empty.
unfoldable pub first_eta : ChannelQueue → Option ℕ × ChannelQueue
first_eta q =
    if PriorityQueue.len q.eta_queue == 0
    then (none, q)
    else (let (first, seen) = PriorityQueue.peek q.eta_queue in
        (first, record q { eta_queue = seen }))

-- The first loop of `pop`, on fuel. Each round takes an object off the heap.
unfoldable pub release_due : ℕ → ℕ → Jobs → ChannelQueue → Jobs × ChannelQueue
release_due zero now jobs q = (jobs, q)
release_due (suc fuel) now jobs q =
    let (first, q') = first_eta q in
    elim first [
      | none ↦ (jobs, q')
      | some eta_job ↦
          let (jobs', q'') = release_first jobs q' in
          let rest = release_due fuel now jobs' q'' in
          if leb (jobs eta_job).eta now then rest else (jobs, q')
    ]

-- `eta_job.sorting_key_ignoring_eta() < job.sorting_key_ignoring_eta()`
unfoldable pub comes_first : Jobs → Option ℕ → Option ℕ → Bool
comes_first jobs (some a) (some b) = lt_ignoring_eta (jobs a) (jobs b)
comes_first jobs _ _ = false

-- A sequential queue waits for the eta of a job that comes first when etas are ignored.
unfoldable pub waits_for_eta : Jobs → ChannelQueue → Bool × ChannelQueue
waits_for_eta jobs q =
    if q.sequential
      && not (PriorityQueue.len q.eta_queue == 0)
      && not (PriorityQueue.len q.queue == 0)
    then (let (eta_job, etas) = PriorityQueue.peek q.eta_queue in
        let (job, queue) = PriorityQueue.peek q.queue in
        (comes_first jobs eta_job job, record q { eta_queue = etas; queue = queue }))
    else (false, q)

unfoldable pub pop_queue : ChannelQueue → Option ℕ × ChannelQueue
pop_queue q = let (job, rest) = PriorityQueue.pop q.queue in (job, record q { queue = rest })

-- The part of `pop` after the loop.
unfoldable pub pop_released : Jobs → ChannelQueue → Option ℕ × Jobs × ChannelQueue
unfolding pop_queue
pop_released jobs q =
    let (waits, seen) = waits_for_eta jobs q in
    if waits then (none, jobs, seen) else (let (job, rest) = pop_queue seen in (job, jobs, rest))

unfoldable pub pop : ℕ → Jobs → ChannelQueue → Option ℕ × Jobs × ChannelQueue
pop now jobs q =
    let (jobs', released) = release_due (suc (length q.eta_queue.heap)) now jobs q in
    pop_released jobs' released

-- `get_wakeup_time`; 0 asks for no wakeup.
unfoldable pub get_wakeup_time : Jobs → ChannelQueue → ℕ → ℕ × ChannelQueue
get_wakeup_time jobs q wakeup_time =
    let (first, seen) = first_eta q in
    elim first [
      | none ↦ (wakeup_time, seen)
      | some o ↦ (if wakeup_time == 0 then (jobs o).eta else min wakeup_time (jobs o).eta, seen)
    ]
