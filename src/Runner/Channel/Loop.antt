-- ===== src/Runner/Channel/Loop.antt =====
-- The last loop of `get_jobs_to_run`, in one channel.
use integration_queue.Prelude.{
  ℕ, zero, suc, ◌≡◌, ◌<◌, true, false, List, [], ◌∷◌, none, some, arith, insert, Bool-cases,
  Option-cases, inl, inr,
}
use integration_queue.Runner.ChannelJob.{Jobs}
use integration_queue.Runner.ChannelQueue
use integration_queue.Runner.ChannelQueue.{ChannelQueue}
use integration_queue.Runner.ChannelQueue.Measure.{total, pop-total}
use integration_queue.Runner.Channel.{Channel, has_capacity, yield_jobs, throttled, add_throttle}

-- One round that yields a job.
abbrev pub start : Jobs → Channel → ChannelQueue → ℕ → Channel
start jobs c queue job = record c { queue = queue; running = insert job c.running }

-- The cases of one round of the loop, as a rule of induction on its fuel.
module _ {ℓ} (P : Jobs → Channel → List ℕ × Jobs × Channel → Type ℓ) (now : ℕ)
    (full : (jobs : Jobs) (c : Channel) → has_capacity c ≡ false → P jobs c ([], jobs, c))
    (stop : (jobs : Jobs) (c : Channel)
      → has_capacity c ≡ true
      → (ChannelQueue.pop now jobs c.queue).0 ≡ none
      → P jobs c (
        [],
        (ChannelQueue.pop now jobs c.queue).1,
        record c { queue = (ChannelQueue.pop now jobs c.queue).2 },
      ))
    (once : (jobs : Jobs) (c : Channel) (job : ℕ)
      → has_capacity c ≡ true
      → throttled c.throttle ≡ true
      → (ChannelQueue.pop now jobs c.queue).0 ≡ some job
      → P jobs c (
        job ∷ [],
        (ChannelQueue.pop now jobs c.queue).1,
        record (start jobs c (ChannelQueue.pop now jobs c.queue).2 job) {
          pause_until = add_throttle now c.throttle;
        },
      ))
    (more : (jobs : Jobs) (c : Channel) (job : ℕ) (r : List ℕ × Jobs × Channel)
      → has_capacity c ≡ true
      → throttled c.throttle ≡ false
      → (ChannelQueue.pop now jobs c.queue).0 ≡ some job
      → P
          (ChannelQueue.pop now jobs c.queue).1
          (start jobs c (ChannelQueue.pop now jobs c.queue).2 job)
          r
      → P jobs c (job ∷ r.0, r.1, r.2)) where
  -- With fuel above the size of the heaps the loop ends by its own tests.
  pub yield_jobs_ind :
      (fuel : ℕ) (jobs : Jobs) (c : Channel)
      → total c.queue < fuel
      → P jobs c (yield_jobs fuel now jobs c)
  unfolding yield_jobs
  yield_jobs_ind zero jobs c h = absurd (omega arith)
  yield_jobs_ind (suc fuel) jobs c h = elim (Bool-cases (has_capacity c)) [
    | inr none_left ↦ rw (none_left, yield_jobs) (full jobs c none_left)
    | inl room ↦ elim (Option-cases (ChannelQueue.pop now jobs c.queue).0) [
      | inl e ↦ rw (room, e, yield_jobs) (stop jobs c room e)
      | inr (job, e) ↦ elim (Bool-cases (throttled c.throttle)) [
        | inl slow ↦ rw (room, e, slow, yield_jobs) (once jobs c job room slow e)
        | inr fast ↦
            rw (room, e, fast, yield_jobs)
              (more jobs c job _ room fast e (
                yield_jobs_ind fuel (ChannelQueue.pop now jobs c.queue).1
                  (start jobs c (ChannelQueue.pop now jobs c.queue).2 job)
                  (omega (arith, pop-total now jobs c.queue {o = job} e))))
      ]
    ]
  ]
