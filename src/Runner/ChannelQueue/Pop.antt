-- ===== src/Runner/ChannelQueue/Pop.antt =====
-- `ChannelQueue.pop`: which job it gives back, and when it gives none.
use integration_queue.Prelude.{
  ℕ, suc, ◌≡◌, ◌<◌, ◌≤◌, refl, true, false, Option, none, some, inl, inr, arith, if◌then◌else◌,
  Bool-cases, ◌==◌, length, ◌⊎◌, ◌∙◌, not, ◌&&◌, sym,
}
use integration_queue.Runner.PriorityQueue
use integration_queue.Runner.PriorityQueue.{PriorityQueue}
use integration_queue.Runner.PriorityQueue.Laws.{contains-heap, peek-live}
use integration_queue.Runner.PriorityQueue.Order.{All-elem, peek-Sorted}
use integration_queue.Runner.PriorityQueue.Heap.{All-peek, All-pop}
use integration_queue.Runner.PriorityQueue.Least.{
  IsFirst, IsEmpty, contains-peek, peek-IsFirst, pop_least,
}
use integration_queue.Runner.ChannelJob.{Jobs, lt_in, job_lt, lt_ignoring_eta}
use integration_queue.Runner.ChannelJob.Order.{job_lt-IsOrder}
use integration_queue.Runner.ChannelQueue.{
  ChannelQueue, contains, release_due, waits_for_eta, comes_first, pop_queue, pop_released, pop,
}
use integration_queue.Runner.ChannelQueue.Laws.{Inv, HasEta, NoEta}
use integration_queue.Runner.ChannelQueue.Release.{Released, Kept, release_due-Released}

-- A job that is held, was due and comes after no due job when etas are ignored.
pub record IsNext (now : ℕ) (jobs : Jobs) (q : ChannelQueue) (o : ℕ) : Type 0 where
  pub held : contains o q ≡ true
  pub due : (jobs o).eta ≤ now
  pub least :
      (a : ℕ) → contains a q ≡ true → (jobs a).eta ≤ now → lt_ignoring_eta (jobs a) (jobs o) ≡ false

-- The queue is sequential, and a job that waits for its eta comes before the next one.
pub record IsBlocked (now : ℕ) (jobs : Jobs) (q : ChannelQueue) : Type 0 where
  pub seq : q.sequential ≡ true
  pub waiting : ℕ
  pub waiting_held : contains waiting q ≡ true
  pub waits : now < (jobs waiting).eta
  pub next : ℕ
  pub next_IsNext : IsNext now jobs q next
  pub first : lt_ignoring_eta (jobs waiting) (jobs next) ≡ true

pub record PopSpec (now : ℕ) (jobs : Jobs) (q : ChannelQueue) (r : Option ℕ × Jobs × ChannelQueue)
    : Type 0 where
  pub inv : Inv r.1 r.2
  pub seq : r.2.sequential ≡ q.sequential
  pub kept : (a : ℕ) → Kept now q jobs r.1 a
  pub result :
      ((r.0 ≡ none)
        × ((a : ℕ) → contains a r.2 ≡ contains a q)
        × (((a : ℕ) → contains a q ≡ true → now < (jobs a).eta) ⊎ IsBlocked now jobs q))
      ⊎ ((o : ℕ) × (r.0 ≡ some o)
          × IsNext now jobs q o
          × ((a : ℕ) → contains a r.2 ≡ (if o == a then false else contains a q)))

-- The queue after the loop, `seen`, against the queue before.
module _ (now : ℕ) (jobs jobs' : Jobs) (q seen : ChannelQueue)
    (s : Released now jobs q (jobs', seen)) where
  due_is_plain :
      (a : ℕ)
      → contains a q ≡ true
      → (jobs a).eta ≤ now
      → PriorityQueue.contains a seen.queue ≡ true
  unfolding contains
  due_is_plain a held due = ground (arith, s.same a, s.waits a, s.kept a)

  plain_is_due :
      (a : ℕ)
      → PriorityQueue.contains a seen.queue ≡ true
      → (contains a q ≡ true) × ((jobs a).eta ≤ now) × ((jobs' a).eta ≡ 0)
  unfolding contains
  plain_is_due a held = ground (
    arith,
    s.same a,
    s.kept a,
    All-elem (NoEta jobs') seen.queue.heap a s.inv.plain_unset
        (contains-heap a seen.queue s.inv.plain held),
  )

  same_key : (a b : ℕ) → lt_ignoring_eta (jobs' a) (jobs' b) ≡ lt_ignoring_eta (jobs a) (jobs b)
  unfolding lt_ignoring_eta
  same_key a b = ground (arith, s.kept a, s.kept b)

  first-IsNext : (o : ℕ) → IsFirst (lt_in jobs') seen.queue o → IsNext now jobs q o
  unfolding job_lt lt_ignoring_eta
  first-IsNext o first = record {
    held = (plain_is_due o first.held).0;
    due = (plain_is_due o first.held).1;
    least = λ a held due.
        let plain = due_is_plain a held due in
        sym (same_key a o)
        ∙ keys a (first.least a plain) (plain_is_due a plain).2 (plain_is_due o first.held).2;
  }
    where
      keys :
          (a : ℕ)
          → job_lt (jobs' a) (jobs' o) ≡ false
          → (jobs' a).eta ≡ 0
          → (jobs' o).eta ≡ 0
          → lt_ignoring_eta (jobs' a) (jobs' o) ≡ false
      keys a l e f = ground arith

  none_due : IsEmpty seen.queue → (a : ℕ) → contains a q ≡ true → now < (jobs a).eta
  none_due e a held = ground (arith, due_is_plain a held, e.nothing a)

  eta_waits :
      (a : ℕ)
      → PriorityQueue.contains a seen.eta_queue ≡ true
      → (contains a q ≡ true) × (now < (jobs a).eta)
  unfolding contains
  eta_waits a held = ground (arith, s.same a, s.waits a, s.kept a)

  -- The two peeks of `waits_for_eta` change no job that is held.
  abbrev looked_at : ChannelQueue
  looked_at = record seen {
    eta_queue = (PriorityQueue.peek seen.eta_queue).1;
    queue = (PriorityQueue.peek seen.queue).1;
  }

  looked_at-Released : Released now jobs q (jobs', looked_at)
  unfolding contains
  looked_at-Released = record {
    inv = record {
      etas = (peek-live seen.eta_queue s.inv.etas).2;
      plain = (peek-live seen.queue s.inv.plain).2;
      etas_sorted = peek-Sorted (lt_in jobs') seen.eta_queue s.inv.etas_sorted;
      plain_sorted = peek-Sorted (lt_in jobs') seen.queue s.inv.plain_sorted;
      etas_set = All-peek (HasEta jobs') seen.eta_queue s.inv.etas_set;
      plain_unset = All-peek (NoEta jobs') seen.queue s.inv.plain_unset;
    };
    same = λ a.
        rw (contains-peek seen.eta_queue a s.inv.etas, contains-peek seen.queue a s.inv.plain)
          (s.same a);
    seq = s.seq;
    kept = s.kept;
    waits = λ a held. s.waits a (rw (contains-peek seen.eta_queue a s.inv.etas) at held);
  }

  blocked :
      (a b : ℕ)
      → (PriorityQueue.peek seen.eta_queue).0 ≡ some a
      → (PriorityQueue.peek seen.queue).0 ≡ some b
      → seen.sequential ≡ true
      → lt_ignoring_eta (jobs' a) (jobs' b) ≡ true
      → IsBlocked now jobs q
  blocked a b ea eb sequential l =
      let fa =
        peek-IsFirst (lt_in jobs') seen.eta_queue (job_lt-IsOrder jobs') s.inv.etas
          s.inv.etas_sorted ea in
      let fb =
        peek-IsFirst (lt_in jobs') seen.queue (job_lt-IsOrder jobs') s.inv.plain s.inv.plain_sorted
          eb in
      record {
        seq = sym s.seq ∙ sequential;
        waiting = a;
        waiting_held = (eta_waits a fa.held).0;
        waits = (eta_waits a fa.held).1;
        next = b;
        next_IsNext = first-IsNext b fb;
        first = sym (same_key a b) ∙ l;
      }

  popped-PopSpec : PopSpec now jobs q ((pop_queue seen).0, jobs', (pop_queue seen).1)
  unfolding pop_queue contains
  popped-PopSpec =
      let p =
        pop_least (lt_in jobs') seen.queue (job_lt-IsOrder jobs') s.inv.plain s.inv.plain_sorted in
      record {
        inv = record {
          etas = s.inv.etas;
          plain = p.valid;
          etas_sorted = s.inv.etas_sorted;
          plain_sorted = p.sorted;
          etas_set = s.inv.etas_set;
          plain_unset = All-pop (NoEta jobs') seen.queue s.inv.plain_unset;
        };
        seq = s.seq;
        kept = s.kept;
        result = elim p.result [
          | inl (e, empty, after) ↦ inl (
            e,
            λ a. ground (arith, s.same a, empty.nothing a, after.nothing a),
            inl (none_due empty),
          )
          | inr (o, e, first, rest) ↦ inr (
            o,
            e,
            first-IsNext o first,
            λ a. ground (arith, s.same a, rest a, first.held, apart o first.held),
          )
        ];
      }
    where
      apart :
          (o : ℕ)
          → PriorityQueue.contains o seen.queue ≡ true
          → PriorityQueue.contains o seen.eta_queue ≡ false
      apart o h = elim (Bool-cases (PriorityQueue.contains o seen.eta_queue)) [
        | inl both ↦ absurd (ground (arith, s.waits o both, plain_is_due o h))
        | inr no_eta ↦ no_eta
      ]

  pub waits_for_eta_lem :
      Released now jobs q (jobs', (waits_for_eta jobs' seen).1)
      × ((waits_for_eta jobs' seen).0 ≡ true → IsBlocked now jobs q)
  unfolding waits_for_eta comes_first
  waits_for_eta_lem =
      elim (Bool-cases (
        seen.sequential
        && not (PriorityQueue.len seen.eta_queue == 0)
        && not (PriorityQueue.len seen.queue == 0))) [
          | inr idle ↦ rw (idle, waits_for_eta) (s, λ h. absurd (ground arith))
          | inl both ↦
              rw (both, waits_for_eta)
                (
                  looked_at-Released,
                  λ h.
                      decide_blocked (PriorityQueue.peek seen.eta_queue).0
                        (PriorityQueue.peek seen.queue).0 refl refl (ground arith) h,
                )
        ]
    where
      decide_blocked :
          (x y : Option ℕ)
          → (PriorityQueue.peek seen.eta_queue).0 ≡ x
          → (PriorityQueue.peek seen.queue).0 ≡ y
          → seen.sequential ≡ true
          → comes_first jobs' x y ≡ true
          → IsBlocked now jobs q
      decide_blocked none y ex ey sequential l = absurd (ground arith)
      decide_blocked (some a) none ex ey sequential l = absurd (ground arith)
      decide_blocked (some a) (some b) ex ey sequential l = blocked a b ex ey sequential l

module _ (now : ℕ) (jobs jobs' : Jobs) (q seen : ChannelQueue)
    (s : Released now jobs q (jobs', seen)) where
  pop_released-PopSpec : PopSpec now jobs q (pop_released jobs' seen)
  unfolding pop_released
  pop_released-PopSpec = elim (Bool-cases (waits_for_eta jobs' seen).0) [
    | inl e ↦
        rw (e, pop_released)
          (record {
            inv = (waits_for_eta_lem now jobs jobs' q seen s).0.inv;
            seq = (waits_for_eta_lem now jobs jobs' q seen s).0.seq;
            kept = (waits_for_eta_lem now jobs jobs' q seen s).0.kept;
            result = inl (
              refl,
              (waits_for_eta_lem now jobs jobs' q seen s).0.same,
              inr ((waits_for_eta_lem now jobs jobs' q seen s).1 e),
            );
          })
    | inr e ↦
        rw (e, pop_released)
          (popped-PopSpec now jobs jobs' q (waits_for_eta jobs' seen).1
            (waits_for_eta_lem now jobs jobs' q seen s).0)
  ]

-- `pop` gives back a held job whose eta is unset or past, such that no other due job comes before it
-- when etas are ignored, and takes that job alone out of the queue. If it gives none, the queue holds
-- what it held, and either no held job is due, or the queue is sequential and a job that waits for
-- its eta comes before the next due job. Only etas that have passed are cleared.
pub pop_next :
    (now : ℕ) (jobs : Jobs) (q : ChannelQueue) → Inv jobs q → PopSpec now jobs q (pop now jobs q)
unfolding pop
pop_next now jobs q v =
    pop_released-PopSpec now jobs (release_due (suc (length q.eta_queue.heap)) now jobs q).0 q
      (release_due (suc (length q.eta_queue.heap)) now jobs q).1
      (release_due-Released (suc (length q.eta_queue.heap)) now jobs q v (omega arith))
