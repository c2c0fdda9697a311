-- ===== src/Runner/Channel/Kept.antt =====
-- What `get_jobs_to_run` leaves as it is in the job objects: all but the eta.
use integration_queue.Prelude.{
  ℕ, zero, suc, ◌≡◌, refl, ap, ◌∙◌, ◌&&◌, not, ◌==◌, ==_iff, ltb, leb, length, Bool-cases,
  Option-cases, inl, inr,
}
use integration_queue.Runner.ChannelJob.{ChannelJob, Jobs, clear_eta}
use integration_queue.Runner.PriorityQueue
use integration_queue.Runner.ChannelQueue
use integration_queue.Runner.ChannelQueue.{
  ChannelQueue, release_first, first_eta, release_due, waits_for_eta, pop_released,
}
use integration_queue.Runner.Channel.{
  Channel, Tree, Forest, node, nil, child, has_capacity, throttled, yield_jobs, queue_fuel,
  own_jobs_to_run, enqueue, get_jobs_to_run, pull_children,
}

-- An attribute that does not read the eta.
module _ {ℓ} {A : Type ℓ} (attribute : ChannelJob → A)
    (without_eta : (j : ChannelJob) → attribute (record j { eta = 0 }) ≡ attribute j) where
  abbrev pub Kept : Jobs → Jobs → Type ℓ
  Kept jobs jobs' = (a : ℕ) → attribute (jobs' a) ≡ attribute (jobs a)

  clear_eta-Kept : (o : ℕ) (jobs : Jobs) → Kept jobs (clear_eta o jobs)
  unfolding clear_eta
  clear_eta-Kept o jobs a = elim (Bool-cases (o == a)) [
    | inl e ↦ rw (e, (==_iff o a).0 e) (without_eta (jobs a))
    | inr e ↦ rw e refl
  ]

  release_first-Kept : (jobs : Jobs) (q : ChannelQueue) → Kept jobs (release_first jobs q).0
  unfolding release_first
  release_first-Kept jobs q = elim (Option-cases (PriorityQueue.pop q.eta_queue).0) [
    | inl e ↦ rw (e, release_first) (λ a. refl)
    | inr (o, e) ↦ rw (e, release_first) (clear_eta-Kept o jobs)
  ]

  release_due-Kept :
      (fuel now : ℕ) (jobs : Jobs) (q : ChannelQueue) → Kept jobs (release_due fuel now jobs q).0
  unfolding release_due
  release_due-Kept zero now jobs q = λ a. refl
  release_due-Kept (suc fuel) now jobs q = elim (Option-cases (first_eta q).0) [
    | inl e ↦ rw (e, release_due) (λ a. refl)
    | inr (o, e) ↦ elim (Bool-cases (leb (jobs o).eta now)) [
      | inl due ↦
          let (jobs', q') = release_first jobs (first_eta q).1 in
          rw (e, due, release_due)
            (λ a. release_due-Kept fuel now jobs' q' a ∙ release_first-Kept jobs (first_eta q).1 a)
      | inr later ↦ rw (e, later, release_due) (λ a. refl)
    ]
  ]

  pop_released-same : (jobs : Jobs) (q : ChannelQueue) → (pop_released jobs q).1 ≡ jobs
  unfolding pop_released
  pop_released-same jobs q = elim (Bool-cases (waits_for_eta jobs q).0) [
    | inl e ↦ rw (e, pop_released) refl
    | inr e ↦ rw (e, pop_released) refl
  ]

  pop-Kept : (now : ℕ) (jobs : Jobs) (q : ChannelQueue) → Kept jobs (ChannelQueue.pop now jobs q).1
  unfolding ChannelQueue.pop
  pop-Kept now jobs q =
      let (jobs', released) = release_due (suc (length q.eta_queue.heap)) now jobs q in
      λ a.
        ap (λ js. attribute (js a)) (pop_released-same jobs' released)
        ∙ release_due-Kept (suc (length q.eta_queue.heap)) now jobs q a

  yield_jobs-Kept :
      (fuel now : ℕ) (jobs : Jobs) (c : Channel) → Kept jobs (yield_jobs fuel now jobs c).1
  unfolding yield_jobs
  yield_jobs-Kept zero now jobs c = λ a. refl
  yield_jobs-Kept (suc fuel) now jobs c = elim (Bool-cases (has_capacity c)) [
    | inr full ↦ rw (full, yield_jobs) (λ a. refl)
    | inl room ↦ elim (Option-cases (ChannelQueue.pop now jobs c.queue).0) [
      | inl e ↦ rw (room, e, yield_jobs) (pop-Kept now jobs c.queue)
      | inr (o, e) ↦ elim (Bool-cases (throttled c.throttle)) [
        | inl slow ↦ rw (room, e, slow, yield_jobs) (pop-Kept now jobs c.queue)
        | inr fast ↦
            rw (room, e, fast, yield_jobs)
              (λ a. yield_jobs-Kept fuel now _ _ a ∙ pop-Kept now jobs c.queue a)
      ]
    ]
  ]

  own_jobs_to_run-Kept :
      (now : ℕ) (jobs : Jobs) (c : Channel) → Kept jobs (own_jobs_to_run now jobs c).1
  unfolding own_jobs_to_run
  own_jobs_to_run-Kept now jobs c =
      elim (Bool-cases (throttled c.throttle && not (c.pause_until == 0))) [
        | inr running ↦
            rw (running, own_jobs_to_run) (yield_jobs-Kept (queue_fuel c.queue) now jobs c)
        | inl paused ↦ elim (Bool-cases (ltb now c.pause_until)) [
          | inl still ↦ rw (paused, still, own_jobs_to_run) (λ a. refl)
          | inr over ↦
              rw (paused, over, own_jobs_to_run)
                (yield_jobs-Kept (queue_fuel c.queue) now jobs (record c { pause_until = 0 }))
        ]
      ]

  mutual
    unfolding get_jobs_to_run pull_children

    pub get_jobs_to_run-Kept :
        (now : ℕ) (jobs : Jobs) (t : Tree) → Kept jobs (get_jobs_to_run now jobs t).1
    get_jobs_to_run-Kept now jobs (node c children) a =
        let (jobs', queue, children') = pull_children now jobs c.queue children in
        own_jobs_to_run-Kept now jobs' (record c { queue = queue }) a
        ∙ pull_children-Kept now jobs c.queue children a

    pull_children-Kept :
        (now : ℕ) (jobs : Jobs) (queue : ChannelQueue) (children : Forest)
        → Kept jobs (pull_children now jobs queue children).0
    pull_children-Kept now jobs queue nil a = refl
    pull_children-Kept now jobs queue (child t children) a =
        let (yielded, jobs', t') = get_jobs_to_run now jobs t in
        pull_children-Kept now jobs' (enqueue jobs' yielded queue) children a
        ∙ get_jobs_to_run-Kept now jobs t a
