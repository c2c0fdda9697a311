-- ===== src/Runner/Channel/Flow.antt =====
-- Where a job stands in its channel and in the channels downstream, and how the marks move it.
use integration_queue.Prelude.{
  ℕ, ◌≡◌, Bool, true, false, List, [], ◌∷◌, arith, elem, elem-insert, elem-discard, All, Bool-cases,
  inl, inr, ◌⊎◌,
}
use integration_queue.Runner.ChannelQueue
use integration_queue.Runner.ChannelQueue.{ChannelQueue}
use integration_queue.Runner.ChannelQueue.Laws.{Inv, contains-add_lem, contains-remove_any}
use integration_queue.Runner.ChannelJob.{Jobs}
use integration_queue.Runner.Channel.{
  Channel, remove, set_done, set_pending, set_running, set_failed, remove_here, set_pending_here,
  set_running_here, set_failed_here,
}

-- Which of the three sets of the channel hold the job: the queue, `_running`, `_failed`.
abbrev pub Holds : Bool → Bool → Bool → ℕ → Channel → Type 0
Holds queued running failed job c =
    (ChannelQueue.contains job c.queue ≡ queued)
    × (elem job c.running ≡ running)
    × (elem job c.failed ≡ failed)

abbrev pub Idle : ℕ → Channel → Type 0
Idle = Holds false false false

abbrev pub Queued : ℕ → Channel → Type 0
Queued = Holds true false false

abbrev pub Runs : ℕ → Channel → Type 0
Runs = Holds false true false

abbrev pub Fails : ℕ → Channel → Type 0
Fails = Holds false false true

-- The places of a job on the way from its channel to the root.
abbrev pub IsAbsent : ℕ → List Channel → Type 0
IsAbsent job line = All (Idle job) line

abbrev pub IsPending : ℕ → List Channel → Type 0
IsPending job [] = Unit {0}
IsPending job (c ∷ parents) = Queued job c × IsAbsent job parents

abbrev pub IsFailed : ℕ → List Channel → Type 0
IsFailed job [] = Unit {0}
IsFailed job (c ∷ parents) = Fails job c × IsAbsent job parents

abbrev pub IsRunning : ℕ → List Channel → Type 0
IsRunning job line = All (Runs job) line

-- The job runs in some channels, at least one, and waits in the queue of the next one downstream.
abbrev pub IsDownstream : ℕ → List Channel → Type 0
IsDownstream job [] = ⊥
IsDownstream job (c ∷ []) = ⊥
IsDownstream job (c ∷ parent ∷ parents) =
    Runs job c × (IsPending job (parent ∷ parents) ⊎ IsDownstream job (parent ∷ parents))

abbrev pub IsPlaced : ℕ → List Channel → Type 0
IsPlaced job line =
    IsAbsent job line
    ⊎ IsPending job line
    ⊎ IsDownstream job line
    ⊎ IsRunning job line
    ⊎ IsFailed job line

remove_here-Idle : (job : ℕ) (c : Channel) → Idle job (remove_here job c)
remove_here-Idle job c = ground (
  arith,
  contains-remove_any job job c.queue,
  elem-discard job job c.running,
  elem-discard job job c.failed,
)

pub remove-IsAbsent : (job : ℕ) (line : List Channel) → IsAbsent job (remove job line)
unfolding remove
remove-IsAbsent job [] = tt
remove-IsAbsent job (c ∷ parents) = (remove_here-Idle job c, remove-IsAbsent job parents)

-- Wherever the job stands, `set_done` takes it out of all sets of its channel and of the channels
-- downstream.
pub set_done-IsAbsent : (job : ℕ) (line : List Channel) → IsAbsent job (set_done job line)
unfolding set_done
set_done-IsAbsent job line = remove-IsAbsent job line

set_pending_here-Queued :
    (jobs : Jobs) (job : ℕ) (c : Channel)
    → Inv jobs c.queue
    → Queued job (set_pending_here jobs job c)
set_pending_here-Queued jobs job c v = ground (
  arith,
  contains-add_lem jobs c.queue v job job,
  elem-discard job job c.running,
  elem-discard job job c.failed,
)

set_failed_here-Fails : (job : ℕ) (c : Channel) → Fails job (set_failed_here job c)
set_failed_here-Fails job c = ground (
  arith,
  contains-remove_any job job c.queue,
  elem-discard job job c.running,
  elem-insert job job c.failed,
)

set_running_here-Runs : (job : ℕ) (c : Channel) → Runs job (set_running_here job c)
set_running_here-Runs job c = ground (
  arith,
  contains-remove_any job job c.queue,
  elem-insert job job c.running,
  elem-discard job job c.failed,
)

queued-IsPending :
    (job : ℕ) (c : Channel) (parents : List Channel)
    → IsPlaced job (c ∷ parents)
    → ChannelQueue.contains job c.queue ≡ true
    → IsPending job (c ∷ parents)
queued-IsPending job c [] p h = ground arith
queued-IsPending job c (parent ∷ parents) p h = elim p [
  | inl a ↦ absurd (ground arith)
  | inr (inl a) ↦ a
  | inr (inr (inl a)) ↦ absurd (ground arith)
  | inr (inr (inr (inl a))) ↦ absurd (ground arith)
  | inr (inr (inr (inr a))) ↦ absurd (ground arith)
]

failed-IsFailed :
    (job : ℕ) (c : Channel) (parents : List Channel)
    → IsPlaced job (c ∷ parents)
    → elem job c.failed ≡ true
    → IsFailed job (c ∷ parents)
failed-IsFailed job c [] p h = ground arith
failed-IsFailed job c (parent ∷ parents) p h = elim p [
  | inl a ↦ absurd (ground arith)
  | inr (inl a) ↦ absurd (ground arith)
  | inr (inr (inl a)) ↦ absurd (ground arith)
  | inr (inr (inr (inl a))) ↦ absurd (ground arith)
  | inr (inr (inr (inr a))) ↦ a
]

-- Of a job that has a place, `set_pending` leaves the job in the queue of its channel, and nowhere
-- else on the way to the root.
pub set_pending-IsPending :
    (jobs : Jobs) (job : ℕ) (c : Channel) (parents : List Channel)
    → Inv jobs c.queue
    → IsPlaced job (c ∷ parents)
    → IsPending job (set_pending jobs job (c ∷ parents))
unfolding set_pending
set_pending-IsPending jobs job c parents v p =
    elim (Bool-cases (ChannelQueue.contains job c.queue)) [
      | inl held ↦ rw held (queued-IsPending job c parents p held)
      | inr free ↦ rw free (set_pending_here-Queued jobs job c v, remove-IsAbsent job parents)
    ]

-- Of a job that has a place, `set_failed` leaves the job among the failed jobs of its channel, and
-- nowhere else on the way to the root.
pub set_failed-IsFailed :
    (job : ℕ) (c : Channel) (parents : List Channel)
    → IsPlaced job (c ∷ parents)
    → IsFailed job (set_failed job (c ∷ parents))
unfolding set_failed
set_failed-IsFailed job c parents p = elim (Bool-cases (elem job c.failed)) [
  | inl held ↦ rw held (failed-IsFailed job c parents p held)
  | inr free ↦ rw free (set_failed_here-Fails job c, remove-IsAbsent job parents)
]

absent_runs :
    (job : ℕ) (line : List Channel) → IsAbsent job line → IsRunning job (set_running job line)
unfolding set_running
absent_runs job [] p = tt
absent_runs job (c ∷ parents) p =
    rw p.0.1 (set_running_here-Runs job c, absent_runs job parents p.1)

-- A job that is absent, pending, failed or running is marked running in its channel and in all
-- channels downstream.
pub set_running-IsRunning :
    (job : ℕ) (line : List Channel)
    → IsAbsent job line ⊎ IsPending job line ⊎ IsRunning job line ⊎ IsFailed job line
    → IsRunning job (set_running job line)
unfolding set_running
set_running-IsRunning job [] p = tt
set_running-IsRunning job (c ∷ parents) p = elim p [
  | inl a ↦ rw a.0.1 (set_running_here-Runs job c, absent_runs job parents a.1)
  | inr (inl a) ↦ rw a.0.1 (set_running_here-Runs job c, absent_runs job parents a.1)
  | inr (inr (inl a)) ↦ rw a.0.1 a
  | inr (inr (inr a)) ↦ rw a.0.1 (set_running_here-Runs job c, absent_runs job parents a.1)
]
