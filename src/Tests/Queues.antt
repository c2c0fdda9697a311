-- ===== src/Tests/Queues.antt =====
-- The theorems on the queues and the channels at concrete inputs.
use integration_queue.Prelude.{
  ℕ, suc, ◌≡◌, ◌⊎◌, ◌↔◌, refl, true, false, List, [], ◌∷◌, some, arith, length, text, elem, pos,
  inl, inr, Distinct, if◌then◌else◌, ◌==◌, insert, discard,
}
use integration_queue.Runner.PriorityQueue
use integration_queue.Runner.PriorityQueue.{PriorityQueue}
use integration_queue.Runner.PriorityQueue.Laws.{IsValid, empty-IsValid}
use integration_queue.Runner.PriorityQueue.Order.{IsOrder, Sorted}
use integration_queue.Runner.PriorityQueue.Least
use integration_queue.Runner.PriorityQueue.Least.{PopSpec}
use integration_queue.Runner.ChannelJob.{Jobs, job_lt, lt_in}
use integration_queue.Runner.ChannelJob.Order.{ComesBefore, job_lt-IsOrder, job_lt-ComesBefore}
use integration_queue.Runner.ChannelQueue
use integration_queue.Runner.ChannelQueue.{ChannelQueue}
use integration_queue.Runner.ChannelQueue.Laws.{Inv, empty-Inv, add-Inv}
use integration_queue.Runner.ChannelQueue.Pop
use integration_queue.Runner.ChannelQueue.Measure.{total}
use integration_queue.Runner.Channel
use integration_queue.Runner.Channel.{Channel, Tree, node, nil, child, own_jobs_to_run}
use integration_queue.Runner.Channel.Flow.{
  IsAbsent, IsPending, IsFailed, IsRunning, set_done-IsAbsent, set_pending-IsPending,
  set_failed-IsFailed, set_running-IsRunning,
}
use integration_queue.Runner.Channel.Yields.{YieldSpec, yield_jobs_choice}
use integration_queue.Runner.Channel.Capacity.{
  AllTree, WithinCapacity, get_jobs_to_run-WithinCapacity,
}
use integration_queue.Runner.Channel.Throttle.{throttle_distance, failed_blocks_sequential}

-- Job 0 has an eta of 7, job 1 none; both have priority 10.
abbrev samples : Jobs
samples o = record {
  db_name = text "db";
  channel = [];
  uuid = [];
  seq = o;
  date_created = 5;
  priority = 10;
  eta = if o == 0 then 7 else 0;
}

queue_program : Unit {0}
unfolding elem insert discard PriorityQueue.empty PriorityQueue.len PriorityQueue.contains
    PriorityQueue.peek PriorityQueue.pop PriorityQueue.add PriorityQueue.remove ChannelQueue.empty
    ChannelQueue.add ChannelQueue.contains job_lt Channel.new Channel.has_capacity
queue_program = tt

abbrev two_jobs : PriorityQueue
two_jobs =
    PriorityQueue.add (lt_in samples) 1 (PriorityQueue.add (lt_in samples) 0 PriorityQueue.empty)

abbrev one_job : PriorityQueue
one_job = PriorityQueue.add (lt_in samples) 0 PriorityQueue.empty

one_job_ready : IsValid one_job × Sorted (lt_in samples) one_job.heap
unfolding PriorityQueue.empty
one_job_ready =
    let l =
      Least.add-remove-contains (lt_in samples) 0 _ (job_lt-IsOrder samples) empty-IsValid tt in
    (l.0.0, l.0.1)

two_jobs_ready : IsValid two_jobs × Sorted (lt_in samples) two_jobs.heap
two_jobs_ready =
    let l =
      Least.add-remove-contains (lt_in samples) 1 one_job (job_lt-IsOrder samples) one_job_ready.0
        one_job_ready.1 in
    (l.0.0, l.0.1)

pop_least_example : PopSpec (lt_in samples) two_jobs (PriorityQueue.pop two_jobs)
pop_least_example =
    Least.pop_least (lt_in samples) two_jobs (job_lt-IsOrder samples) two_jobs_ready.0
      two_jobs_ready.1

add-remove-contains_example :
    (IsValid two_jobs
      × Sorted (lt_in samples) two_jobs.heap
      × ((b : ℕ)
          → PriorityQueue.contains b two_jobs
            ≡ (if 1 == b then true else PriorityQueue.contains b one_job)))
    × (IsValid (PriorityQueue.remove 1 one_job)
        × Sorted (lt_in samples) (PriorityQueue.remove 1 one_job).heap
        × ((b : ℕ)
            → PriorityQueue.contains b (PriorityQueue.remove 1 one_job)
              ≡ (if 1 == b then false else PriorityQueue.contains b one_job)))
add-remove-contains_example =
    Least.add-remove-contains (lt_in samples) 1 one_job (job_lt-IsOrder samples) one_job_ready.0
      one_job_ready.1

len-contains_example :
    (xs : List ℕ) × Distinct xs
    × ((a : ℕ) → elem a xs ≡ PriorityQueue.contains a two_jobs)
    × (PriorityQueue.len two_jobs ≡ length xs)
len-contains_example = Least.len-contains two_jobs two_jobs_ready.0

job_lt-ComesBefore_example :
    (job_lt (samples 0) (samples 1) ≡ true) ↔ ComesBefore (samples 0) (samples 1)
job_lt-ComesBefore_example = job_lt-ComesBefore (samples 0) (samples 1)

job_lt-IsOrder_example : IsOrder (lt_in samples)
job_lt-IsOrder_example = job_lt-IsOrder samples

-- A queue of both jobs.
abbrev both : ChannelQueue
both = ChannelQueue.add samples 1 (ChannelQueue.add samples 0 (ChannelQueue.empty false))

both-Inv : Inv samples both
both-Inv =
    add-Inv samples (ChannelQueue.add samples 0 (ChannelQueue.empty false))
      (add-Inv samples (ChannelQueue.empty false) (empty-Inv samples false) 0) 1

pop_next_example : Pop.PopSpec 7 samples both (ChannelQueue.pop 7 samples both)
pop_next_example = Pop.pop_next 7 samples both both-Inv

-- A channel with both jobs in its queue, job 2 running and job 3 failed, above a root channel.
abbrev leaf : Channel
leaf = record {
  name = text "A";
  queue = both;
  running = 2 ∷ [];
  failed = 3 ∷ [];
  pause_until = 0;
  capacity = some (pos 2);
  throttle = pos 2;
}

abbrev root : Channel
root = record {
  name = text "root";
  queue = ChannelQueue.empty false;
  running = 2 ∷ [];
  failed = [];
  pause_until = 0;
  capacity = some (pos 1);
  throttle = pos 0;
}

yield_jobs_choice_example :
    YieldSpec 7 samples leaf (Channel.yield_jobs (suc (total both)) 7 samples leaf)
yield_jobs_choice_example =
    yield_jobs_choice (suc (total both)) 7 samples leaf (omega arith) both-Inv

get_jobs_to_run-WithinCapacity_example :
    AllTree WithinCapacity
      (Channel.get_jobs_to_run 7 samples (node root (child (node leaf nil) nil))).2
unfolding AllTree
get_jobs_to_run-WithinCapacity_example =
    get_jobs_to_run-WithinCapacity 7 samples (node root (child (node leaf nil) nil)) (omega arith)

abbrev paused : Channel
paused = record leaf { pause_until = (own_jobs_to_run 7 samples leaf).2.pause_until }

throttle_distance_example :
    ((own_jobs_to_run 7 samples leaf).0 ≡ [])
    ⊎ (length (own_jobs_to_run 7 samples leaf).0 ≡ 1)
      × (own_jobs_to_run 8 samples paused ≡ ([], samples, paused))
throttle_distance_example =
    throttle_distance 7 8 samples samples leaf paused 1 refl refl refl (omega arith)

failed_blocks_sequential_example :
    (own_jobs_to_run 7 samples
      (record leaf { queue = record (leaf.queue) { sequential = true } })).0
    ≡ []
unfolding elem
failed_blocks_sequential_example =
    failed_blocks_sequential 7 samples
      (record leaf { queue = record (leaf.queue) { sequential = true } }) 3 refl refl

set_done-IsAbsent_example : IsAbsent 2 (Channel.set_done 2 (leaf ∷ root ∷ []))
set_done-IsAbsent_example = set_done-IsAbsent 2 (leaf ∷ root ∷ [])

set_pending-IsPending_example : IsPending 2 (Channel.set_pending samples 2 (leaf ∷ root ∷ []))
unfolding queue_program
set_pending-IsPending_example =
    set_pending-IsPending samples 2 leaf (root ∷ []) both-Inv
      (inr (inr (inr (inl ((refl, refl, refl), ((refl, refl, refl), tt))))))

set_failed-IsFailed_example : IsFailed 2 (Channel.set_failed 2 (leaf ∷ root ∷ []))
unfolding queue_program
set_failed-IsFailed_example =
    set_failed-IsFailed 2 leaf (root ∷ [])
      (inr (inr (inr (inl ((refl, refl, refl), ((refl, refl, refl), tt))))))

set_running-IsRunning_example : IsRunning 1 (Channel.set_running 1 (leaf ∷ root ∷ []))
unfolding queue_program
set_running-IsRunning_example =
    set_running-IsRunning 1 (leaf ∷ root ∷ [])
      (inr (inl ((refl, refl, refl), ((refl, refl, refl), tt))))
