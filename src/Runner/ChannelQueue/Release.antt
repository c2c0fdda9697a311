-- ===== src/Runner/ChannelQueue/Release.antt =====
-- The first loop of `pop`: every job whose eta has passed joins the jobs without one.
use integration_queue.Prelude.{
  ℕ, zero, suc, ◌≡◌, ◌<◌, ◌≤◌, refl, true, Option, none, some, inl, inr, arith, Bool-cases,
  Option-cases, ◌==◌, leb, length, ◌⊎◌, leb→le, ◌∙◌, ==_iff,
}
use integration_queue.Runner.PriorityQueue
use integration_queue.Runner.PriorityQueue.{PriorityQueue}
use integration_queue.Runner.PriorityQueue.Laws.{contains-add, contains-heap, peek-live}
use integration_queue.Runner.PriorityQueue.Order.{All-elem, peek-Sorted}
use integration_queue.Runner.PriorityQueue.Heap.{
  All-peek, contains-pop_self, contains-pop-some, pop-peek, pop-length, peek-length,
}
use integration_queue.Runner.PriorityQueue.Least.{
  IsFirst, IsEmpty, contains-peek, peek-IsFirst, peek-IsEmpty, len-IsEmpty,
}
use integration_queue.Runner.ChannelJob.{Jobs, clear_eta, lt_in, job_lt}
use integration_queue.Runner.ChannelJob.Order.{job_lt-IsOrder}
use integration_queue.Runner.ChannelQueue.{
  ChannelQueue, contains, release_first, first_eta, release_due,
}
use integration_queue.Runner.ChannelQueue.Laws.{Inv, HasEta, release_first-Inv}

-- What the reading of `_eta_queue[0]` gives.
pub record Shows (jobs : Jobs) (q : ChannelQueue) (r : Option ℕ × ChannelQueue) : Type 0 where
  pub inv : Inv jobs r.1
  pub same : (a : ℕ) → contains a r.1 ≡ contains a q
  pub plain : r.1.queue ≡ q.queue
  pub seq : r.1.sequential ≡ q.sequential
  pub short : length r.1.eta_queue.heap ≤ length q.eta_queue.heap
  pub shown :
      ((r.0 ≡ none) × IsEmpty r.1.eta_queue)
      ⊎ ((o : ℕ) × (r.0 ≡ some o)
          × IsFirst (lt_in jobs) r.1.eta_queue o
          × ((PriorityQueue.pop r.1.eta_queue).0 ≡ some o))

module _ (jobs : Jobs) (q : ChannelQueue) (v : Inv jobs q) where
  peeked_Inv : Inv jobs (record q { eta_queue = (PriorityQueue.peek q.eta_queue).1 })
  peeked_Inv = record {
    etas = (peek-live q.eta_queue v.etas).2;
    plain = v.plain;
    etas_sorted = peek-Sorted (lt_in jobs) q.eta_queue v.etas_sorted;
    plain_sorted = v.plain_sorted;
    etas_set = All-peek (HasEta jobs) q.eta_queue v.etas_set;
    plain_unset = v.plain_unset;
  }

  peeked_shown :
      (seen : PriorityQueue)
      → (PriorityQueue.peek q.eta_queue).1 ≡ seen
      → ((PriorityQueue.peek q.eta_queue).0 ≡ none) × IsEmpty seen
        ⊎ ((o : ℕ) × ((PriorityQueue.peek q.eta_queue).0 ≡ some o)
            × IsFirst (lt_in jobs) seen o
            × ((PriorityQueue.pop seen).0 ≡ some o))
  peeked_shown seen s = elim (Option-cases (PriorityQueue.peek q.eta_queue).0) [
    | inl e ↦ inl (
      e,
      record {
        nothing = λ a.
            rw (← s, contains-peek q.eta_queue a v.etas)
              ((peek-IsEmpty q.eta_queue v.etas e).nothing a);
      },
    )
    | inr (o, e) ↦
        let first =
          peek-IsFirst (lt_in jobs) q.eta_queue (job_lt-IsOrder jobs) v.etas v.etas_sorted e in
        inr (
          o,
          e,
          record {
            held = rw (← s, contains-peek q.eta_queue o v.etas) first.held;
            least = λ a h. first.least a (rw (← s, contains-peek q.eta_queue a v.etas) at h);
          },
          rw (← s) (pop-peek q.eta_queue v.etas ∙ e),
        )
  ]

  pub first_eta-Shows : Shows jobs q (first_eta q)
  unfolding first_eta contains
  first_eta-Shows = elim (Bool-cases (PriorityQueue.len q.eta_queue == 0)) [
    | inl empty ↦
        rw (empty, first_eta)
          (record {
            inv = v;
            same = λ a. refl;
            plain = refl;
            seq = refl;
            short = omega arith;
            shown = inl (refl, len-IsEmpty q.eta_queue v.etas empty);
          })
    | inr some_job ↦
        rw (some_job, first_eta)
          (record {
            inv = peeked_Inv;
            same = λ a. rw (contains-peek q.eta_queue a v.etas);
            plain = refl;
            seq = refl;
            short = peek-length q.eta_queue;
            shown = peeked_shown _ refl;
          })
  ]

-- What has become of one job: nothing, or it was held, its eta has passed and is cleared.
abbrev pub Kept : ℕ → ChannelQueue → Jobs → Jobs → ℕ → Type 0
Kept now q jobs jobs' a =
    (jobs' a ≡ jobs a)
    ⊎ ((contains a q ≡ true)
        × ((jobs a).eta ≤ now)
        × (0 < (jobs a).eta)
        × (jobs' a ≡ record (jobs a) { eta = 0 }))

-- What the loop leaves: the same jobs are held, and those in the eta queue all wait.
pub record Released (now : ℕ) (jobs : Jobs) (q : ChannelQueue) (r : Jobs × ChannelQueue)
    : Type 0 where
  pub inv : Inv r.0 r.1
  pub same : (a : ℕ) → contains a r.1 ≡ contains a q
  pub seq : r.1.sequential ≡ q.sequential
  pub kept : (a : ℕ) → Kept now q jobs r.0 a
  pub waits : (a : ℕ) → PriorityQueue.contains a r.1.eta_queue ≡ true → now < (r.0 a).eta

module _ (jobs : Jobs) (q : ChannelQueue) (v : Inv jobs q) (o : ℕ)
    (popped : (PriorityQueue.pop q.eta_queue).0 ≡ some o) where
  contains-release_first : (a : ℕ) → contains a (release_first jobs q).1 ≡ contains a q
  unfolding contains release_first
  contains-release_first a =
      rw (popped, release_first)
        (ground (
          arith,
          contains-pop-some q.eta_queue {o = o} a v.etas popped,
          contains-pop_self q.eta_queue {o = o} v.etas popped,
          contains-add (lt_in (clear_eta o jobs)) o a q.queue v.plain,
        ))

  release_first-sequential : (release_first jobs q).1.sequential ≡ q.sequential
  unfolding release_first
  release_first-sequential = rw (popped, release_first)

  release_first-jobs : (release_first jobs q).0 ≡ clear_eta o jobs
  unfolding release_first
  release_first-jobs = rw (popped, release_first)

  release_first-length :
      suc (length (release_first jobs q).1.eta_queue.heap) ≤ length q.eta_queue.heap
  unfolding release_first
  release_first-length = rw (popped, release_first) (pop-length q.eta_queue popped)

  first_has_eta : 0 < (jobs o).eta
  first_has_eta =
      All-elem (HasEta jobs) q.eta_queue.heap o v.etas_set
        (contains-heap o q.eta_queue v.etas (contains-pop_self q.eta_queue v.etas popped).0)

  first_held : contains o q ≡ true
  unfolding contains
  first_held = ground (arith, contains-pop_self q.eta_queue {o = o} v.etas popped)

  release_first-Kept : (now a : ℕ) → (jobs o).eta ≤ now → Kept now q jobs (release_first jobs q).0 a
  unfolding clear_eta
  release_first-Kept now a due = rw release_first-jobs (elim (Bool-cases (o == a)) [
    | inl same ↦ inr (rw (← ((==_iff o a).0 same)) (first_held, due, first_has_eta, ground arith))
    | inr other ↦ inl (rw other)
  ])

-- Two stretches of the loop.
Kept-trans :
    (now : ℕ) (q q' : ChannelQueue) (jobs jobs' jobs'' : Jobs) (a : ℕ)
    → contains a q' ≡ contains a q
    → Kept now q jobs jobs' a
    → Kept now q' jobs' jobs'' a
    → Kept now q jobs jobs'' a
Kept-trans now q q' jobs jobs' jobs'' a same k k' = ground arith

-- If the first eta has not passed, none has.
first_waits :
    (now : ℕ) (jobs : Jobs) (q : ChannelQueue) (o : ℕ)
    → Inv jobs q
    → IsFirst (lt_in jobs) q.eta_queue o
    → now < (jobs o).eta
    → (a : ℕ) → PriorityQueue.contains a q.eta_queue ≡ true
    → now < (jobs a).eta
unfolding job_lt
first_waits now jobs q o v first wait a h = ground (
  arith,
  first.least a h,
  All-elem (HasEta jobs) q.eta_queue.heap a v.etas_set (contains-heap a q.eta_queue v.etas h),
)

stopped :
    (now : ℕ) (jobs : Jobs) (q : ChannelQueue) (r : Option ℕ × ChannelQueue)
    → Shows jobs q r
    → ((a : ℕ) → PriorityQueue.contains a r.1.eta_queue ≡ true → now < (jobs a).eta)
    → Released now jobs q (jobs, r.1)
stopped now jobs q r s wait = record {
  inv = s.inv;
  same = s.same;
  seq = s.seq;
  kept = λ a. inl refl;
  waits = wait;
}

went_on :
    (now : ℕ) (jobs : Jobs) (q q' : ChannelQueue) (o : ℕ) (r : Jobs × ChannelQueue)
    → Inv jobs q'
    → ((a : ℕ) → contains a q' ≡ contains a q)
    → q'.sequential ≡ q.sequential
    → (PriorityQueue.pop q'.eta_queue).0 ≡ some o
    → (jobs o).eta ≤ now
    → Released now (release_first jobs q').0 (release_first jobs q').1 r
    → Released now jobs q r
went_on now jobs q q' o r v same seq popped due rest = record {
  inv = rest.inv;
  same = λ a. rest.same a ∙ contains-release_first jobs q' v o popped a ∙ same a;
  seq = rest.seq ∙ release_first-sequential jobs q' v o popped ∙ seq;
  kept = λ a.
      Kept-trans now q (release_first jobs q').1 jobs (release_first jobs q').0 r.0 a
        (contains-release_first jobs q' v o popped a ∙ same a)
        (ground (arith, release_first-Kept jobs q' v o popped now a due, same a)) (rest.kept a);
  waits = rest.waits;
}

-- The heap of the eta queue is fuel enough: the loop ends with every passed eta cleared.
pub release_due-Released :
    (fuel now : ℕ) (jobs : Jobs) (q : ChannelQueue)
    → Inv jobs q
    → length q.eta_queue.heap < fuel
    → Released now jobs q (release_due fuel now jobs q)
unfolding release_due
release_due-Released zero now jobs q v h = absurd (omega arith)
release_due-Released (suc fuel) now jobs q v h =
    let s = first_eta-Shows jobs q v in
    elim s.shown [
      | inl (e, none_left) ↦
          rw (e, release_due)
            (stopped now jobs q (first_eta q) s (λ a held. ground (arith, none_left.nothing a)))
      | inr (o, e, first, popped) ↦ elim (Bool-cases (leb (jobs o).eta now)) [
        | inl due ↦
            rw (e, due, release_due)
              (went_on now jobs q (first_eta q).1 o _ s.inv s.same s.seq popped
                (leb→le (jobs o).eta now due)
                (release_due-Released fuel now (release_first jobs (first_eta q).1).0
                  (release_first jobs (first_eta q).1).1
                  (release_first-Inv jobs (first_eta q).1 s.inv)
                  (omega
                    (arith, s.short, release_first-length jobs (first_eta q).1 s.inv o popped))))
        | inr wait ↦
            rw (e, wait, release_due)
              (stopped now jobs q (first_eta q) s
                (first_waits now jobs (first_eta q).1 o s.inv first (ground arith)))
      ]
    ]
