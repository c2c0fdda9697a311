-- ===== src/Runner/Channel/Throttle.antt =====
-- The delay between the jobs of a throttled channel, and the block of a failed sequential one.
use integration_queue.Prelude.{
  ℕ, suc, ◌+◌, ◌≡◌, ◌<◌, refl, true, false, List, [], ◌∷◌, arith, length, elem, ◌==◌, ltb,
  Bool-cases, inl, inr, ◌⊎◌, pos,
}
use integration_queue.Runner.ChannelJob.{Jobs}
use integration_queue.Runner.Channel.{
  Channel, has_capacity, yield_jobs, throttled, add_throttle, queue_fuel, own_jobs_to_run,
}
use integration_queue.Runner.Channel.Loop.{yield_jobs_ind}

-- What a throttled channel yields: nothing, or one job, after which it is paused.
abbrev pub OneThenPause : ℕ → Channel → List ℕ × Jobs × Channel → Type 0
OneThenPause now c r =
    (r.2.throttle ≡ c.throttle)
    × ((r.0 ≡ []) ⊎ (length r.0 ≡ 1) × (r.2.pause_until ≡ add_throttle now c.throttle))

yield_jobs-OneThenPause :
    (now : ℕ) (jobs : Jobs) (c : Channel)
    → throttled c.throttle ≡ true
    → OneThenPause now c (yield_jobs (queue_fuel c.queue) now jobs c)
unfolding queue_fuel
yield_jobs-OneThenPause now jobs c =
    yield_jobs_ind (λ jobs c r. throttled c.throttle ≡ true → OneThenPause now c r) now
      (λ jobs c full h. (refl, inl refl)) (λ jobs c room e h. (refl, inl refl))
      (λ jobs c job room slow e h. (refl, inr (refl, refl)))
      (λ jobs c job r room fast e rest h. absurd (ground arith)) (queue_fuel c.queue) jobs c
      (omega arith)

own-OneThenPause :
    (now : ℕ) (jobs : Jobs) (c : Channel)
    → throttled c.throttle ≡ true
    → OneThenPause now c (own_jobs_to_run now jobs c)
unfolding own_jobs_to_run
own-OneThenPause now jobs c h = elim (Bool-cases (c.pause_until == 0)) [
  | inl free ↦ rw (h, free, own_jobs_to_run) (yield_jobs-OneThenPause now jobs c h)
  | inr set ↦ elim (Bool-cases (ltb now c.pause_until)) [
    | inl paused ↦ rw (h, set, paused, own_jobs_to_run) (refl, inl refl)
    | inr over ↦
        rw (h, set, over, own_jobs_to_run)
          (yield_jobs-OneThenPause now jobs (record c { pause_until = 0 }) h)
  ]
]

paused_yields_nothing :
    (now : ℕ) (jobs : Jobs) (c : Channel)
    → throttled c.throttle ≡ true
    → now < c.pause_until
    → own_jobs_to_run now jobs c ≡ ([], jobs, c)
unfolding own_jobs_to_run
paused_yields_nothing now jobs c h p = ground arith

-- A channel with a throttle of `t` > 0 yields no job, or just one, and after a job at `now` it yields
-- none, and keeps its state, at any time before `now + t`, whatever has happened to its queue and its
-- running and failed jobs in between.
pub throttle_distance :
    (now later : ℕ) (jobs jobs' : Jobs) (c c' : Channel) (t : ℕ)
    → c.throttle ≡ pos (suc t)
    → c'.throttle ≡ c.throttle
    → c'.pause_until ≡ (own_jobs_to_run now jobs c).2.pause_until
    → later < now + suc t
    → ((own_jobs_to_run now jobs c).0 ≡ [])
      ⊎ (length (own_jobs_to_run now jobs c).0 ≡ 1)
        × (own_jobs_to_run later jobs' c' ≡ ([], jobs', c'))
unfolding throttled add_throttle
throttle_distance now later jobs jobs' c c' t e same pause early =
    let slow : throttled c.throttle ≡ true = rw e refl in
    elim (own-OneThenPause now jobs c slow).1 [
      | inl none_yielded ↦ inl none_yielded
      | inr (one, until) ↦ inr (
        one,
        paused_yields_nothing later jobs' c' (rw (same, e) refl)
            (rw (pause, until, e, add_throttle) early),
      )
    ]

full_yields_nothing :
    (now : ℕ) (jobs : Jobs) (c : Channel)
    → has_capacity c ≡ false
    → (yield_jobs (queue_fuel c.queue) now jobs c).0 ≡ []
unfolding yield_jobs queue_fuel
full_yields_nothing now jobs c h = rw (h, yield_jobs)

blocked_has_none :
    (c : Channel) (j : ℕ)
    → c.queue.sequential ≡ true
    → elem j c.failed ≡ true
    → has_capacity c ≡ false
unfolding has_capacity elem
blocked_has_none c j s f = go c.failed refl
  where
    go : (xs : List ℕ) → c.failed ≡ xs → has_capacity c ≡ false
    go [] e = absurd (ground (arith, f))
    go (x ∷ xs) e = rw (s, e, has_capacity)

-- A sequential channel in which some job has failed yields no job, paused or not.
pub failed_blocks_sequential :
    (now : ℕ) (jobs : Jobs) (c : Channel) (j : ℕ)
    → c.queue.sequential ≡ true
    → elem j c.failed ≡ true
    → (own_jobs_to_run now jobs c).0 ≡ []
unfolding own_jobs_to_run
failed_blocks_sequential now jobs c j s f = ground (
  arith,
  full_yields_nothing now jobs c (blocked_has_none c j s f),
  full_yields_nothing now jobs (record c { pause_until = 0 })
      (blocked_has_none (record c { pause_until = 0 }) j s f),
)
