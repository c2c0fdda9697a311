-- ===== src/Runner/ChannelQueue/Idle.antt =====
-- A queue that gave no job back would give none again: it holds no due job, or it is blocked.
use integration_queue.Prelude.{ℕ, ◌≡◌, ◌<◌, true, none, inl, inr, arith, ◌⊎◌, ◌∙◌, sym}
use integration_queue.Runner.ChannelJob.{Jobs, lt_ignoring_eta}
use integration_queue.Runner.ChannelQueue.{ChannelQueue, contains, pop}
use integration_queue.Runner.ChannelQueue.Laws.{Inv}
use integration_queue.Runner.ChannelQueue.Release.{Kept}
use integration_queue.Runner.ChannelQueue.Pop.{IsNext, IsBlocked, pop_next}

abbrev pub NothingDue : ℕ → Jobs → ChannelQueue → Type 0
NothingDue now jobs q = (a : ℕ) → contains a q ≡ true → now < (jobs a).eta

abbrev pub IsIdle : ℕ → Jobs → ChannelQueue → Type 0
IsIdle now jobs q = NothingDue now jobs q ⊎ IsBlocked now jobs q

module _ (now : ℕ) (jobs jobs' : Jobs) (q q' : ChannelQueue)
    (same : (a : ℕ) → contains a q' ≡ contains a q) (kept : (a : ℕ) → Kept now q jobs jobs' a)
    (seq : q'.sequential ≡ q.sequential) where
  NothingDue-kept : NothingDue now jobs q → NothingDue now jobs' q'
  NothingDue-kept h a held = ground (arith, h a, same a, kept a)

  same_key : (a b : ℕ) → lt_ignoring_eta (jobs' a) (jobs' b) ≡ lt_ignoring_eta (jobs a) (jobs b)
  unfolding lt_ignoring_eta
  same_key a b = ground (arith, kept a, kept b)

  IsNext-kept : {o : ℕ} → IsNext now jobs q o → IsNext now jobs' q' o
  IsNext-kept {o} n = record {
    held = same o ∙ n.held;
    due = ground (arith, kept o, n.due);
    least =
        λ a held due. same_key a o ∙ n.least a (sym (same a) ∙ held) (ground (arith, kept a, due));
  }

  IsBlocked-kept : IsBlocked now jobs q → IsBlocked now jobs' q'
  IsBlocked-kept b = record {
    seq = seq ∙ b.seq;
    waiting = b.waiting;
    waiting_held = same b.waiting ∙ b.waiting_held;
    waits = ground (arith, kept b.waiting, b.waits);
    next = b.next;
    next_IsNext = IsNext-kept b.next_IsNext;
    first = same_key b.waiting b.next ∙ b.first;
  }

  IsIdle-kept : IsIdle now jobs q → IsIdle now jobs' q'
  IsIdle-kept (inl h) = inl (NothingDue-kept h)
  IsIdle-kept (inr b) = inr (IsBlocked-kept b)

pub pop-none-IsIdle :
    (now : ℕ) (jobs : Jobs) (q : ChannelQueue)
    → Inv jobs q
    → (pop now jobs q).0 ≡ none
    → IsIdle now (pop now jobs q).1 (pop now jobs q).2
pop-none-IsIdle now jobs q v e =
    let p = pop_next now jobs q v in
    elim p.result [
      | inl (_, same, idle) ↦
          IsIdle-kept now jobs (pop now jobs q).1 q (pop now jobs q).2 same p.kept p.seq idle
      | inr (o, e', _, _) ↦ absurd (ground arith)
    ]
