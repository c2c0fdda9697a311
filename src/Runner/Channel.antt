-- ===== src/Runner/Channel.antt =====
-- `Channel` of integration_queue_job/jobrunner/channels.py. A record holds the channel's own
-- attributes; the `parent` links are a list of channels from a leaf to the root, and the `children`
-- are the trees of Channel/Tree.antt.
pub mod Flow
pub mod Loop
pub mod Yields
pub mod Capacity
pub mod Throttle
pub mod Kept
use integration_queue.Prelude.{
  ℕ, zero, suc, ◌+◌, ◌-◌, ◌≡◌, Bool, true, false, not, ◌&&◌, List, [], ◌∷◌, Option, none, some,
  length, if◌then◌else◌, ltb, ◌==◌, min, ℤ, pos, negsuc, Text, elem, insert, discard,
}
use integration_queue.Runner.ChannelQueue
use integration_queue.Runner.ChannelQueue.{ChannelQueue}
use integration_queue.Runner.ChannelJob.{Jobs}

-- `pause_until` is 0 while the channel is not paused.
pub record Channel : Type 0 where
  pub name : Text
  pub queue : ChannelQueue
  pub running : List ℕ
  pub failed : List ℕ
  pub pause_until : ℕ
  pub capacity : Option ℤ
  pub throttle : ℤ

-- `__init__`
unfoldable pub new : Text → Option ℤ → Channel
new name capacity = record {
  name = name;
  queue = ChannelQueue.empty false;
  running = [];
  failed = [];
  pause_until = 0;
  capacity = capacity;
  throttle = pos 0;
}

unfoldable pub is_empty : List ℕ → Bool
is_empty [] = true
is_empty (x ∷ xs) = false

unfoldable pub below_capacity : ℕ → Option ℤ → Bool
below_capacity n none = true
below_capacity n (some (pos zero)) = true
below_capacity n (some (pos (suc c))) = ltb n (suc c)
below_capacity n (some (negsuc c)) = false

unfoldable pub has_capacity : Channel → Bool
unfolding is_empty below_capacity
has_capacity c =
    if c.queue.sequential && not (is_empty c.failed)
    then false
    else below_capacity (length c.running) c.capacity

-- The statements of `remove`, `set_pending`, `set_running` and `set_failed` on the channel itself.
abbrev pub remove_here : ℕ → Channel → Channel
remove_here job c = record c {
  queue = ChannelQueue.remove job c.queue;
  running = discard job c.running;
  failed = discard job c.failed;
}

abbrev pub set_pending_here : Jobs → ℕ → Channel → Channel
set_pending_here jobs job c = record c {
  queue = ChannelQueue.add jobs job c.queue;
  running = discard job c.running;
  failed = discard job c.failed;
}

abbrev pub set_running_here : ℕ → Channel → Channel
set_running_here job c = record c {
  queue = ChannelQueue.remove job c.queue;
  running = insert job c.running;
  failed = discard job c.failed;
}

abbrev pub set_failed_here : ℕ → Channel → Channel
set_failed_here job c = record c {
  queue = ChannelQueue.remove job c.queue;
  running = discard job c.running;
  failed = insert job c.failed;
}

-- The first channel of the list is `self`, the next its parent, and so on to the root.
unfoldable pub remove : ℕ → List Channel → List Channel
remove job [] = []
remove job (c ∷ parents) = remove_here job c ∷ remove job parents

unfoldable pub set_done : ℕ → List Channel → List Channel
unfolding remove
set_done job line = remove job line

unfoldable pub set_pending : Jobs → ℕ → List Channel → List Channel
unfolding remove
set_pending jobs job [] = []
set_pending jobs job (c ∷ parents) =
    if not (ChannelQueue.contains job c.queue)
    then set_pending_here jobs job c ∷ remove job parents
    else c ∷ parents

unfoldable pub set_running : ℕ → List Channel → List Channel
set_running job [] = []
set_running job (c ∷ parents) =
    let rest = set_running job parents in
    if not (elem job c.running) then set_running_here job c ∷ rest else c ∷ parents

unfoldable pub set_failed : ℕ → List Channel → List Channel
unfolding remove
set_failed job [] = []
set_failed job (c ∷ parents) =
    if not (elem job c.failed) then set_failed_here job c ∷ remove job parents else c ∷ parents

-- `now + self.throttle`; a negative throttle takes the clock back, at most to 0.
unfoldable pub add_throttle : ℕ → ℤ → ℕ
add_throttle now (pos n) = now + n
add_throttle now (negsuc n) = now - suc n

-- `if self.throttle`
unfoldable pub throttled : ℤ → Bool
throttled (pos zero) = false
throttled _ = true

-- The last loop of `get_jobs_to_run`, on fuel; the jobs that it yields, in order. Each round takes
-- an object off a heap of the queue.
unfoldable pub yield_jobs : ℕ → ℕ → Jobs → Channel → List ℕ × Jobs × Channel
yield_jobs zero now jobs c = ([], jobs, c)
yield_jobs (suc fuel) now jobs c =
    if has_capacity c
    then (let (popped, jobs', queue) = ChannelQueue.pop now jobs c.queue in
        elim popped [
          | none ↦ ([], jobs', record c { queue = queue })
          | some job ↦
              let c' = record c { queue = queue; running = insert job c.running } in
              let rest = yield_jobs fuel now jobs' c' in
              if throttled c.throttle
              then (job ∷ [], jobs', record c' { pause_until = add_throttle now c.throttle })
              else (job ∷ rest.0, rest.1, rest.2)
        ])
    else ([], jobs, c)

unfoldable pub queue_fuel : ChannelQueue → ℕ
queue_fuel q = suc (length q.eta_queue.heap + length q.queue.heap)

-- `get_jobs_to_run` once the children have been asked: the test of the pause, then the loop.
unfoldable pub own_jobs_to_run : ℕ → Jobs → Channel → List ℕ × Jobs × Channel
own_jobs_to_run now jobs c =
    if throttled c.throttle && not (c.pause_until == 0)
    then (if ltb now c.pause_until
        then ([], jobs, c)
        else yield_jobs (queue_fuel c.queue) now jobs (record c { pause_until = 0 }))
    else yield_jobs (queue_fuel c.queue) now jobs c

-- `self._queue.add(job)` for the jobs of a child.
unfoldable pub enqueue : Jobs → List ℕ → ChannelQueue → ChannelQueue
enqueue jobs [] q = q
enqueue jobs (job ∷ rest) q = enqueue jobs rest (ChannelQueue.add jobs job q)

-- The children: a dictionary from names to channels, in the order of insertion. A child's generator
-- is run to its end before its jobs are added, which the child cannot see.
mutual
  pub data Tree : Type 0 where
    node : Channel → Forest → Tree

  pub data Forest : Type 0 where
    nil : Forest
    child : Tree → Forest → Forest

unfoldable mutual
  pub get_jobs_to_run : ℕ → Jobs → Tree → List ℕ × Jobs × Tree
  get_jobs_to_run now jobs (node c children) =
      let (jobs', queue, children') = pull_children now jobs c.queue children in
      let (yielded, jobs'', c') = own_jobs_to_run now jobs' (record c { queue = queue }) in
      (yielded, jobs'', node c' children')

  pub pull_children : ℕ → Jobs → ChannelQueue → Forest → Jobs × ChannelQueue × Forest
  pull_children now jobs queue nil = (jobs, queue, nil)
  pull_children now jobs queue (child t children) =
      let (yielded, jobs', t') = get_jobs_to_run now jobs t in
      let (jobs'', queue', children') =
        pull_children now jobs' (enqueue jobs' yielded queue) children in
      (jobs'', queue', child t' children')

-- `min` of two wakeup times, where 0 asks for none.
abbrev pub sooner : ℕ → ℕ → ℕ
sooner wakeup_time t = if wakeup_time == 0 then t else min wakeup_time t

unfoldable mutual
  pub get_wakeup_time : Jobs → Tree → ℕ → ℕ × Tree
  get_wakeup_time jobs (node c children) wakeup_time =
      let (own, queue) = ChannelQueue.get_wakeup_time jobs c.queue wakeup_time in
      let (all, children') = children_wakeup_time jobs children own in
      if not (has_capacity c)
      then (wakeup_time, node c children)
      else if not (c.pause_until == 0)
      then (sooner wakeup_time c.pause_until, node c children)
      else (all, node (record c { queue = queue }) children')

  pub children_wakeup_time : Jobs → Forest → ℕ → ℕ × Forest
  children_wakeup_time jobs nil wakeup_time = (wakeup_time, nil)
  children_wakeup_time jobs (child t children) wakeup_time =
      let (w, t') = get_wakeup_time jobs t wakeup_time in
      let (w', children') = children_wakeup_time jobs children w in (w', child t' children')
