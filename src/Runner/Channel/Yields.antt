-- ===== src/Runner/Channel/Yields.antt =====
-- Which jobs one channel yields, and what it keeps.
use integration_queue.Prelude.{
  ℕ, ◌≡◌, ◌<◌, ◌≤◌, refl, true, false, ◌||◌, List, [], ◌∷◌, Option, none, some, arith, length, elem,
  elem-insert, All, if◌then◌else◌, ◌==◌, inl, inr, ◌⊎◌, subst, ap,
}
use integration_queue.Runner.ChannelJob.{Jobs, lt_ignoring_eta}
use integration_queue.Runner.ChannelQueue
use integration_queue.Runner.ChannelQueue.{ChannelQueue}
use integration_queue.Runner.ChannelQueue.Laws.{Inv}
use integration_queue.Runner.ChannelQueue.Release.{Kept}
use integration_queue.Runner.ChannelQueue.Pop.{IsNext, pop_next}
use integration_queue.Runner.ChannelQueue.Idle.{IsIdle, pop-none-IsIdle}
use integration_queue.Runner.ChannelQueue.Measure.{total}
use integration_queue.Runner.PriorityQueue.Order.{All-mono}
use integration_queue.Runner.Channel.{Channel, has_capacity, yield_jobs, throttled, add_throttle}
use integration_queue.Runner.Channel.Loop.{start, yield_jobs_ind}

-- A yielded job was held and due, and no due job that comes before it is left in the queue.
pub record IsChosen (now : ℕ) (jobs : Jobs) (before after : ChannelQueue) (o : ℕ) : Type 0 where
  pub held : ChannelQueue.contains o before ≡ true
  pub due : (jobs o).eta ≤ now
  pub least :
      (a : ℕ)
      → ChannelQueue.contains a after ≡ true
      → (jobs a).eta ≤ now
      → lt_ignoring_eta (jobs a) (jobs o) ≡ false

-- Why the loop ended: no capacity, one throttled job, or nothing to give.
abbrev pub HasEnded : ℕ → List ℕ × Jobs × Channel → Type 0
HasEnded now r =
    (has_capacity r.2 ≡ false)
    ⊎ ((throttled r.2.throttle ≡ true)
        × (length r.0 ≡ 1)
        × (r.2.pause_until ≡ add_throttle now r.2.throttle))
    ⊎ IsIdle now r.1 r.2.queue

pub record YieldSpec (now : ℕ) (jobs : Jobs) (c : Channel) (r : List ℕ × Jobs × Channel)
    : Type 0 where
  pub inv : Inv r.1 r.2.queue
  pub kept : (a : ℕ) → Kept now c.queue jobs r.1 a
  pub chosen : All (IsChosen now jobs c.queue r.2.queue) r.0
  pub held :
      (a : ℕ)
      → ChannelQueue.contains a r.2.queue
        ≡ (if elem a r.0 then false else ChannelQueue.contains a c.queue)
  pub ran : (a : ℕ) → elem a r.2.running ≡ (elem a r.0 || elem a c.running)
  pub rest : (r.2.failed ≡ c.failed) × (r.2.throttle ≡ c.throttle) × (r.2.capacity ≡ c.capacity)
  pub ended : HasEnded now r

-- The state after one round that yields `job`.
module _ (now : ℕ) (jobs jobs' : Jobs) (q q' : ChannelQueue) (job : ℕ)
    (kept : (a : ℕ) → Kept now q jobs jobs' a)
    (held : (a : ℕ)
      → ChannelQueue.contains a q' ≡ (if job == a then false else ChannelQueue.contains a q)) where
  Kept-more : (jobs'' : Jobs) (a : ℕ) → Kept now q' jobs' jobs'' a → Kept now q jobs jobs'' a
  Kept-more jobs'' a k = ground (arith, kept a, held a)

  IsChosen-more :
      (q'' : ChannelQueue) (o : ℕ)
      → ((a : ℕ) → ChannelQueue.contains a q'' ≡ true → ChannelQueue.contains a q' ≡ true)
      → IsChosen now jobs' q' q'' o
      → IsChosen now jobs q q'' o
  unfolding lt_ignoring_eta
  IsChosen-more q'' o sub c = record {
    held = ground (arith, c.held, held o);
    due = ground (arith, c.due, kept o);
    least = λ a h due. same_keys a (c.least a h (ground (arith, kept a, due)));
  }
    where
      same_keys :
          (a : ℕ)
          → lt_ignoring_eta (jobs' a) (jobs' o) ≡ false
          → lt_ignoring_eta (jobs a) (jobs o) ≡ false
      same_keys a h = ground (arith, kept a, kept o)

module _ (now : ℕ) (jobs : Jobs) (c : Channel) (v : Inv jobs c.queue) (job : ℕ)
    (e : (ChannelQueue.pop now jobs c.queue).0 ≡ some job) where
  abbrev popped : Option ℕ × Jobs × ChannelQueue
  popped = ChannelQueue.pop now jobs c.queue

  popped-IsNext :
      IsNext now jobs c.queue job
      × ((a : ℕ)
          → ChannelQueue.contains a popped.2
            ≡ (if job == a then false else ChannelQueue.contains a c.queue))
  popped-IsNext = elim (pop_next now jobs c.queue v).result [
    | inl (n, _, _) ↦ absurd (ground arith)
    | inr (o, e', next, held) ↦ subst Next (ground arith) (next, held)
  ]
    where
      Next : ℕ → Type 0
      Next o =
          IsNext now jobs c.queue o
          × ((a : ℕ)
              → ChannelQueue.contains a popped.2
                ≡ (if o == a then false else ChannelQueue.contains a c.queue))

  job-IsChosen :
      (after : ChannelQueue)
      → ((a : ℕ) → ChannelQueue.contains a after ≡ true → ChannelQueue.contains a popped.2 ≡ true)
      → IsChosen now jobs c.queue after job
  job-IsChosen after sub = record {
    held = popped-IsNext.0.held;
    due = popped-IsNext.0.due;
    least = λ a h due. popped-IsNext.0.least a (ground (arith, sub a h, popped-IsNext.1 a)) due;
  }

  yield_once :
      throttled c.throttle ≡ true
      → YieldSpec now jobs c (
        job ∷ [],
        popped.1,
        record (start jobs c popped.2 job) { pause_until = add_throttle now c.throttle },
      )
  unfolding elem
  yield_once slow =
      let p = pop_next now jobs c.queue v in
      record {
        inv = p.inv;
        kept = p.kept;
        chosen = (job-IsChosen popped.2 (λ a h. h), tt);
        held = λ a. ground (arith, popped-IsNext.1 a);
        ran = λ a. ground (arith, elem-insert job a c.running);
        rest = (refl, refl, refl);
        ended = inr (inl (slow, refl, refl));
      }

  yield_more :
      (r : List ℕ × Jobs × Channel)
      → throttled c.throttle ≡ false
      → YieldSpec now popped.1 (start jobs c popped.2 job) r
      → YieldSpec now jobs c (job ∷ r.0, r.1, r.2)
  unfolding elem
  yield_more r fast y =
      let p = pop_next now jobs c.queue v in
      record {
        inv = y.inv;
        kept = λ a.
            Kept-more now jobs popped.1 c.queue popped.2 job p.kept popped-IsNext.1 r.1 a
              (y.kept a);
        chosen = (
          job-IsChosen r.2.queue (λ a h. ground (arith, y.held a)),
          All-mono r.0
              (λ o.
                IsChosen-more now jobs popped.1 c.queue popped.2 job p.kept popped-IsNext.1
                  r.2.queue o (λ a h. ground (arith, y.held a)))
              y.chosen,
        );
        held = λ a. ground (arith, y.held a, popped-IsNext.1 a);
        ran = λ a. ground (arith, y.ran a, elem-insert job a c.running);
        rest = y.rest;
        ended = elim y.ended [
          | inl e' ↦ inl e'
          | inr (inl e') ↦ absurd (ground (arith, ap throttled y.rest.1))
          | inr (inr e') ↦ inr (inr e')
        ];
      }

-- On fuel above the size of the heaps, the loop yields jobs that were held and due, leaves no due job
-- in the queue that comes before a yielded one, and moves just the yielded jobs from the queue to
-- `_running`. It ends at full capacity, after one job of a throttled channel, or when the queue holds
-- no due job or is blocked by one that waits for its eta.
pub yield_jobs_choice :
    (fuel now : ℕ) (jobs : Jobs) (c : Channel)
    → total c.queue < fuel
    → Inv jobs c.queue
    → YieldSpec now jobs c (yield_jobs fuel now jobs c)
unfolding elem
yield_jobs_choice fuel now jobs c enough =
    yield_jobs_ind (λ jobs c r. Inv jobs c.queue → YieldSpec now jobs c r) now full stop
      (λ jobs c job room slow e v. yield_once now jobs c v job e slow)
      (λ jobs c job r room fast e rest v.
        yield_more now jobs c v job e r fast (rest (pop_next now jobs c.queue v).inv))
      fuel jobs c enough
  where
    full :
        (jobs : Jobs) (c : Channel)
        → has_capacity c ≡ false
        → Inv jobs c.queue
        → YieldSpec now jobs c ([], jobs, c)
    full jobs c none_left v = record {
      inv = v;
      kept = λ a. inl refl;
      chosen = tt;
      held = λ a. refl;
      ran = λ a. refl;
      rest = (refl, refl, refl);
      ended = inl none_left;
    }

    stop :
        (jobs : Jobs) (c : Channel)
        → has_capacity c ≡ true
        → (ChannelQueue.pop now jobs c.queue).0 ≡ none
        → Inv jobs c.queue
        → YieldSpec now jobs c (
          [],
          (ChannelQueue.pop now jobs c.queue).1,
          record c { queue = (ChannelQueue.pop now jobs c.queue).2 },
        )
    stop jobs c room e v =
        let p = pop_next now jobs c.queue v in
        record {
          inv = p.inv;
          kept = p.kept;
          chosen = tt;
          held = elim p.result [
            | inl (_, same, _) ↦ same
            | inr (o, e', _, _) ↦ absurd (ground arith)
          ];
          ran = λ a. refl;
          rest = (refl, refl, refl);
          ended = inr (inr (pop-none-IsIdle now jobs c.queue v e));
        }
