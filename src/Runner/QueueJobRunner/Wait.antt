-- ===== src/Runner/QueueJobRunner/Wait.antt =====
-- How long `wait_notification` waits.
use integration_queue.Prelude.{
  ℕ, ◌+◌, ◌≡◌, ◌≤◌, ◌<◌, ◌⊎◌, refl, true, false, List, Option, none, some, ◌==◌, ltb, arith,
  Bool-cases, inl, inr,
}
use integration_queue.Runner.Manager.{get_wakeup_time}
use integration_queue.Runner.QueueJobRunner.{
  Database, Runner, is_notified, timeout, wait_notification,
}

-- Some database has a notification.
abbrev pub HasNotified : List Database → Type 0
HasNotified dbs = is_notified dbs ≡ true

-- The wait ends at the wakeup time, or after a minute if there is none, and there is no wait if a
-- notification has come or the wakeup time is past.
abbrev pub WaitsFor : ℕ → ℕ → List Database → Option ℕ → Type 0
WaitsFor now wakeup_time dbs none = HasNotified dbs ⊎ ((0 < wakeup_time) × (wakeup_time ≤ now))
WaitsFor now wakeup_time dbs (some t) =
    (is_notified dbs ≡ false) × (0 < t) × (((wakeup_time ≡ 0) × (t ≡ 60)) ⊎ (now + t ≡ wakeup_time))

timeout-WaitsFor :
    (now wakeup_time : ℕ) (dbs : List Database)
    → is_notified dbs ≡ false
    → WaitsFor now wakeup_time dbs (timeout now wakeup_time)
unfolding timeout
timeout-WaitsFor now wakeup_time dbs n = elim (Bool-cases (wakeup_time == 0)) [
  | inl e ↦ rw (e, timeout) (n, omega arith, inl (ground arith, refl))
  | inr e ↦ elim (Bool-cases (ltb now wakeup_time)) [
    | inl l ↦ rw (e, l, timeout) (n, ground arith, inr (ground arith))
    | inr l ↦ rw (e, l, timeout) (inr (ground arith, ground arith))
  ]
]

pub wait_notification-WaitsFor :
    (now : ℕ) (r : Runner)
    → WaitsFor now (get_wakeup_time r.manager).0 r.db_by_name (wait_notification now r).0
unfolding wait_notification
wait_notification-WaitsFor now r = elim (Bool-cases (is_notified r.db_by_name)) [
  | inl e ↦ rw (e, wait_notification) (inl e)
  | inr e ↦
      rw (e, wait_notification) (timeout-WaitsFor now (get_wakeup_time r.manager).0 r.db_by_name e)
]
