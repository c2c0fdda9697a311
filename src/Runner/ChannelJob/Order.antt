-- ===== src/Runner/ChannelJob/Order.antt =====
-- The comparison of channel jobs is the order that its docstring lists.
use integration_queue.Prelude.{◌<◌, ◌≡◌, true, false, arith, ◌⊎◌, ◌↔◌}
use integration_queue.Runner.ChannelJob.{ChannelJob, Jobs, lt_in, job_lt}
use integration_queue.Runner.PriorityQueue.Order.{IsOrder}

job_lt_asym : (a b : ChannelJob) → job_lt a b ≡ true → job_lt b a ≡ false
unfolding job_lt
job_lt_asym a b h = ground arith

job_lt_trans : (a b c : ChannelJob) → job_lt b a ≡ false → job_lt c b ≡ false → job_lt c a ≡ false
unfolding job_lt
job_lt_trans a b c h k = ground arith

-- The comparison is a strict weak order, whatever the attributes of the jobs.
pub job_lt-IsOrder : (jobs : Jobs) → IsOrder (lt_in jobs)
job_lt-IsOrder jobs = record {
  asym = λ a b. job_lt_asym (jobs a) (jobs b);
  trans = λ a b c. job_lt_trans (jobs a) (jobs b) (jobs c);
}

-- The rules of the docstring, each under the ties of the ones above it.
abbrev pub ComesBefore : ChannelJob → ChannelJob → Type 0
ComesBefore a b =
    ((0 < a.eta) × (b.eta ≡ 0))
    ⊎ ((0 < a.eta) × (a.eta < b.eta))
    ⊎ ((a.eta ≡ b.eta) × (a.priority < b.priority))
    ⊎ ((a.eta ≡ b.eta) × (a.priority ≡ b.priority) × (a.date_created < b.date_created))
    ⊎ ((a.eta ≡ b.eta)
        × (a.priority ≡ b.priority)
        × (a.date_created ≡ b.date_created)
        × (a.seq < b.seq))

pub job_lt-ComesBefore : (a b : ChannelJob) → (job_lt a b ≡ true) ↔ ComesBefore a b
unfolding job_lt
job_lt-ComesBefore a b = (λ h. ground arith, λ h. ground arith)
