-- ===== src/Runner/ChannelQueue/Measure.antt =====
-- The heaps of a channel queue shrink with every job that it gives back.
use integration_queue.Prelude.{
  ℕ, zero, suc, ◌+◌, ◌≡◌, ◌≤◌, Bool, some, arith, length, List, [], ◌∷◌, leb, inl, inr,
  Option-cases, Bool-cases, refl,
}
use integration_queue.Runner.PriorityQueue
use integration_queue.Runner.PriorityQueue.{PriorityQueue, heappush}
use integration_queue.Runner.PriorityQueue.Heap.{pop-length, peek-length, pop-length-le}
use integration_queue.Runner.ChannelJob.{Jobs}
use integration_queue.Runner.ChannelQueue.{
  ChannelQueue, release_first, first_eta, release_due, waits_for_eta, pop_queue, pop_released, pop,
}

abbrev pub total : ChannelQueue → ℕ
total q = length q.eta_queue.heap + length q.queue.heap

heappush-length :
    (lt : ℕ → ℕ → Bool) (o : ℕ) (heap : List ℕ) → length (heappush lt o heap) ≡ suc (length heap)
unfolding heappush
heappush-length lt o [] = refl
heappush-length lt o (x ∷ heap) = ground (arith, heappush-length lt o heap)

add-length :
    (lt : ℕ → ℕ → Bool) (o : ℕ) (q : PriorityQueue)
    → length (PriorityQueue.add lt o q).heap ≤ suc (length q.heap)
unfolding PriorityQueue.add
add-length lt o q = ground (arith, heappush-length lt o q.heap)

release_first-total : (jobs : Jobs) (q : ChannelQueue) → total (release_first jobs q).1 ≤ total q
unfolding release_first
release_first-total jobs q = elim (Option-cases (PriorityQueue.pop q.eta_queue).0) [
  | inl e ↦ rw (e, release_first) (omega (arith, pop-length-le q.eta_queue))
  | inr (o, e) ↦
      rw (e, release_first) (omega (arith, pop-length q.eta_queue e, add-length _ o q.queue))
]

first_eta-total : (q : ChannelQueue) → total (first_eta q).1 ≤ total q
unfolding first_eta
first_eta-total q = ground (arith, peek-length q.eta_queue)

pub release_due-total :
    (fuel now : ℕ) (jobs : Jobs) (q : ChannelQueue)
    → total (release_due fuel now jobs q).1 ≤ total q
unfolding release_due
release_due-total zero now jobs q = omega arith
release_due-total (suc fuel) now jobs q = elim (Option-cases (first_eta q).0) [
  | inl e ↦ rw (e, release_due) (first_eta-total q)
  | inr (o, e) ↦ elim (Bool-cases (leb (jobs o).eta now)) [
    | inl due ↦
        rw (e, due, release_due)
          (omega (
            arith,
            first_eta-total q,
            release_first-total jobs (first_eta q).1,
            release_due-total fuel now (release_first jobs (first_eta q).1).0
                (release_first jobs (first_eta q).1).1,
          ))
    | inr wait ↦ rw (e, wait, release_due) (first_eta-total q)
  ]
]

waits_for_eta-total : (jobs : Jobs) (q : ChannelQueue) → total (waits_for_eta jobs q).1 ≤ total q
unfolding waits_for_eta
waits_for_eta-total jobs q = ground (arith, peek-length q.eta_queue, peek-length q.queue)

pop_queue-total :
    (q : ChannelQueue) {o : ℕ} → (pop_queue q).0 ≡ some o → suc (total (pop_queue q).1) ≤ total q
unfolding pop_queue
pop_queue-total q {o} e = omega (arith, pop-length q.queue {o = o} e)

pop_released-total :
    (jobs : Jobs) (q : ChannelQueue) {o : ℕ}
    → (pop_released jobs q).0 ≡ some o
    → suc (total (pop_released jobs q).2) ≤ total q
unfolding pop_released
pop_released-total jobs q {o} e = elim (Bool-cases (waits_for_eta jobs q).0) [
  | inl w ↦ absurd (ground arith)
  | inr w ↦
      rw (w, pop_released)
        (omega (
          arith,
          waits_for_eta-total jobs q,
          pop_queue-total (waits_for_eta jobs q).1 {o = o} (ground arith),
        ))
]

-- A pop that gives a job back takes an object off a heap.
pub pop-total :
    (now : ℕ) (jobs : Jobs) (q : ChannelQueue) {o : ℕ}
    → (pop now jobs q).0 ≡ some o
    → suc (total (pop now jobs q).2) ≤ total q
unfolding pop
pop-total now jobs q {o} e = omega (
  arith,
  release_due-total (suc (length q.eta_queue.heap)) now jobs q,
  pop_released-total (release_due (suc (length q.eta_queue.heap)) now jobs q).0
      (release_due (suc (length q.eta_queue.heap)) now jobs q).1 {o = o} e,
)
