-- ===== src/Runner/QueueJobRunner/Lifetime.antt =====
-- The jobs that the runner knows while it runs.
use integration_queue.Prelude.{
  ℕ, refl, Bool, List, [], ◌∷◌, Option, none, some, Text, Bool-cases, Option-cases, inl, inr,
}
use integration_queue.Runner.Manager.{get_jobs_to_run, get_wakeup_time}
use integration_queue.Runner.Manager.Owned.{get_jobs_to_run-Owned}
use integration_queue.Runner.QueueJobRunner.{
  Runner, Ending, returns, raises, find_database, send_request, run_jobs_from, run_jobs,
  process_databases, process_notifications, is_notified, wait_notification, Fault, taken,
}
use integration_queue.Runner.QueueJobRunner.Run.{
  Round, Place, in_notifications, in_wait, receive, up_to, interrupt_notifications, wait_or_raise,
  and_then, run_round_with, run_round, run_rounds,
}
use integration_queue.Runner.QueueJobRunner.Closed.{has_name}
use integration_queue.Runner.QueueJobRunner.Opens.{
  Tracks, process_databases-Owned, AllOpen-self, AllOpen-up_to, Tracks-map, Tracks-put_database,
}

-- Returned or raised, the jobs of the manager are of the databases that are open then.
abbrev pub EndsTracked : Ending → Type 0
EndsTracked (returns r) = Tracks r.db_by_name r.manager
EndsTracked (raises e r) = Tracks r.db_by_name r.manager

process_notifications-EndsTracked :
    (r : Runner) → Tracks r.db_by_name r.manager → EndsTracked (process_notifications r)
unfolding process_notifications
process_notifications-EndsTracked r t =
    let all =
      process_databases-Owned (λ n. has_name n r.db_by_name) r.db_by_name r.manager
        (AllOpen-self r.db_by_name) t in
    elim (Option-cases (process_databases r.db_by_name r.manager).1) [
      | inl h ↦ rw (h, process_notifications) (Tracks-map taken r.db_by_name _ (λ db. refl) all)
      | inr (e, h) ↦ rw (h, process_notifications) all
    ]

interrupt_notifications-EndsTracked :
    (n k : ℕ) (fault : Fault) (r : Runner)
    → Tracks r.db_by_name r.manager
    → EndsTracked (interrupt_notifications n k fault r)
unfolding interrupt_notifications
interrupt_notifications-EndsTracked n k fault r t =
    let opens : Text → Bool = λ x. has_name x r.db_by_name in
    let all =
      process_databases-Owned opens (up_to n k r.db_by_name) r.manager
        (AllOpen-up_to opens n k r.db_by_name (AllOpen-self r.db_by_name)) t in
    elim (Option-cases (process_databases (up_to n k r.db_by_name) r.manager).1) [
      | inl h ↦ rw (h, interrupt_notifications) all
      | inr (e, h) ↦ rw (h, interrupt_notifications) all
    ]

run_jobs_from-EndsTracked :
    (db_now : ℕ) (os : List ℕ) (r : Runner)
    → Tracks r.db_by_name r.manager
    → EndsTracked (run_jobs_from db_now os r)
unfolding run_jobs_from send_request
run_jobs_from-EndsTracked db_now [] r t = t
run_jobs_from-EndsTracked db_now (o ∷ os) r t =
    let job = r.manager.jobs o in
    elim (Option-cases (find_database job.db_name r.db_by_name)) [
      | inl n ↦ rw (n, run_jobs_from) t
      | inr (db, f) ↦
          rw (f, run_jobs_from)
            (run_jobs_from-EndsTracked db_now os (send_request db_now job.uuid db r)
              (Tracks-put_database _ r.db_by_name r.manager t))
    ]

run_jobs-EndsTracked :
    (now db_now : ℕ) (r : Runner)
    → Tracks r.db_by_name r.manager
    → EndsTracked (run_jobs now db_now r)
unfolding run_jobs
run_jobs-EndsTracked now db_now r t =
    let (os, m) = get_jobs_to_run now r.manager in
    run_jobs_from-EndsTracked db_now os (record r { manager = m })
      (get_jobs_to_run-Owned (λ n. has_name n r.db_by_name) now r.manager t)

wait_notification-Tracks :
    (now : ℕ) (r : Runner)
    → Tracks r.db_by_name r.manager
    → Tracks (wait_notification now r).1.db_by_name (wait_notification now r).1.manager
unfolding wait_notification get_wakeup_time
wait_notification-Tracks now r t = elim (Bool-cases (is_notified r.db_by_name)) [
  | inl e ↦ rw (e, wait_notification) t
  | inr e ↦
      rw (e, wait_notification)
        (record {
          keyed = record { keys_match = t.keyed.keys_match; keys_distinct = t.keyed.keys_distinct };
          entries = t.entries;
        })
]

pub and_then-EndsTracked :
    (next : Runner → Ending) (x : Ending)
    → ((r : Runner) → Tracks r.db_by_name r.manager → EndsTracked (next r))
    → EndsTracked x
    → EndsTracked (and_then next x)
and_then-EndsTracked next (returns r) h t = h r t
and_then-EndsTracked next (raises e r) h t = t

wait_or_raise-EndsTracked :
    (round : Round) (fault : Option Fault) (r : Runner)
    → Tracks r.db_by_name r.manager
    → EndsTracked (wait_or_raise round fault r)
wait_or_raise-EndsTracked round none r t = wait_notification-Tracks round.now r t
wait_or_raise-EndsTracked round (some fault) r t = wait_notification-Tracks round.now r t

-- The three calls of a round.
calls-EndsTracked :
    (round : Round) (fault : Option Fault) (r : Runner)
    → Tracks r.db_by_name r.manager
    → EndsTracked (
        and_then
          (wait_or_raise round fault)
          (and_then (run_jobs round.now round.db_now) (process_notifications r)))
calls-EndsTracked round fault r t =
    and_then-EndsTracked (wait_or_raise round fault) _
      (λ r' t'. wait_or_raise-EndsTracked round fault r' t')
      (and_then-EndsTracked (run_jobs round.now round.db_now) _
        (λ r' t'. run_jobs-EndsTracked round.now round.db_now r' t')
        (process_notifications-EndsTracked r t))

run_round_with-EndsTracked :
    (fault : Option (Place × Fault)) (round : Round) (r : Runner)
    → Tracks r.db_by_name r.manager
    → EndsTracked (run_round_with fault round r)
unfolding run_round_with
run_round_with-EndsTracked none round r t = calls-EndsTracked round none r t
run_round_with-EndsTracked (some (in_wait, fault)) round r t =
    calls-EndsTracked round (some fault) r t
run_round_with-EndsTracked (some (in_notifications n k, fault)) round r t =
    interrupt_notifications-EndsTracked n k fault r t

pub run_rounds-EndsTracked :
    (rounds : List Round) (r : Runner)
    → Tracks r.db_by_name r.manager
    → EndsTracked (run_rounds rounds r)
unfolding run_rounds run_round
run_rounds-EndsTracked [] r t = t
run_rounds-EndsTracked (round ∷ rounds) r t =
    and_then-EndsTracked (run_rounds rounds) (run_round round r)
      (λ r' t'. run_rounds-EndsTracked rounds r' t')
      (run_round_with-EndsTracked round.fault round _
        (Tracks-map (receive round) r.db_by_name r.manager (λ db. refl) t))
