-- ===== src/Tests/Channels/Runners.antt =====
-- The theorems on the manager's dictionary and on the runner at concrete inputs.
use integration_queue.Prelude.{◌≡◌, refl, true, [], ◌∷◌, none, some, text, arith}
use integration_queue.Job.State.{enqueued}
use integration_queue.Job.Record.{Job}
use integration_queue.Job.Create.{Params, unset, new_job}
use integration_queue.Runner.Errors.{ok, err}
use integration_queue.Runner.Manager.{Manager, init, notify, get_jobs_to_run, get_wakeup_time}
use integration_queue.Runner.Manager.Keyed.{IsKeyed}
use integration_queue.Runner.Manager.Notified.{Notified, notify-Notified}
use integration_queue.Runner.Database.{mark_enqueued, set_job_enqueued}
use integration_queue.Runner.QueueJobRunner.{
  Database, Runner, returns, job_data, find_database, run_jobs, run_jobs_from, send_request,
  put_database, wait_notification, close_databases,
}
use integration_queue.Runner.QueueJobRunner.Sent.{AreOpen, HasSent, run_jobs-HasSent}
use integration_queue.Runner.QueueJobRunner.Wait.{WaitsFor, wait_notification-WaitsFor}
use integration_queue.Runner.QueueJobRunner.Closed.{WithoutDbs, close_databases-WithoutDbs}
use integration_queue.Runner.QueueJobRunner.{Server, database_error}
use integration_queue.Runner.QueueJobRunner.Run.{Session, in_wait, run_session, run}
use integration_queue.Runner.QueueJobRunner.Recovery.{GoesOn, run-GoesOn}
use integration_queue.Tests.Channels.{program}

abbrev defaults : Params
defaults = record {
  priority = none;
  eta = unset;
  max_retries = none;
  channel = none;
  identity_key = none;
}

abbrev only_job : Job
only_job = new_job 50 (text "u") (text "root") defaults

abbrev db : Database
db = record { name = text "db"; table = only_job ∷ []; seq_of = λ u. 7; notifies = [] }

-- The manager once it is told of the job.
abbrev told : Manager
told = elim (notify (job_data db only_job) init) [ err e ↦ init | ok m ↦ m ]

abbrev runner : Runner
runner = record { manager = told; db_by_name = db ∷ []; requests = [] }

requests_sent :
    run_jobs 100 101 runner
    ≡ returns (record runner {
      manager = (get_jobs_to_run 100 told).1;
      db_by_name =
          record db { table = record only_job { state = enqueued; date_enqueued = some 101 } ∷ [] }
          ∷ [];
      requests = (text "db", text "u") ∷ [];
    })
unfolding program job_data new_job run_jobs run_jobs_from find_database send_request put_database
    set_job_enqueued mark_enqueued
requests_sent = refl

init-IsKeyed : IsKeyed init
unfolding init
init-IsKeyed = record { keys_match = tt; keys_distinct = tt }

told-IsKeyed : IsKeyed told
unfolding program job_data new_job
told-IsKeyed = record { keys_match = (refl, omega arith, tt); keys_distinct = (refl, tt) }

notify-Notified_example : Notified (job_data db only_job) init (notify (job_data db only_job) init)
notify-Notified_example = notify-Notified (job_data db only_job) init init-IsKeyed

runner-AreOpen : AreOpen (get_jobs_to_run 100 told).1.jobs (db ∷ []) (get_jobs_to_run 100 told).0
unfolding program job_data new_job find_database
runner-AreOpen = ((db, refl), tt)

run_jobs-HasSent_example :
    (after : Runner) × (run_jobs 100 101 runner ≡ returns after)
    × HasSent 101
        (get_jobs_to_run 100 told).1.jobs
        (get_jobs_to_run 100 told).0
        (record runner { manager = (get_jobs_to_run 100 told).1 })
        after
run_jobs-HasSent_example = run_jobs-HasSent 100 101 runner runner-AreOpen

wait_notification-WaitsFor_example :
    WaitsFor 100 (get_wakeup_time told).0 (db ∷ []) (wait_notification 100 runner).0
wait_notification-WaitsFor_example = wait_notification-WaitsFor 100 runner

close_databases-WithoutDbs_example : WithoutDbs (db ∷ []) told (close_databases true runner).manager
close_databases-WithoutDbs_example = close_databases-WithoutDbs runner told-IsKeyed

abbrev server : Server
server = record {
  open_fault = λ name. none;
  select_fault = λ name. none;
  has_modules = λ name. true;
  is_installed = λ name. true;
  triggers = λ name. 3;
  lock_is_free = λ name. true;
  content = λ name. db;
}

-- One round, before which the job is notified of, with an error of a connection while it waits.
abbrev session_of_one : Session
session_of_one = record {
  server = server;
  db_names = text "db" ∷ [];
  rounds =
      record {
        now = 100;
        db_now = 101;
        arrive = λ d. record d { notifies = text "u" ∷ [] };
        fault = some (in_wait, database_error);
      }
      ∷ [];
}

abbrev started_runner : Runner
started_runner = record { manager = init; db_by_name = []; requests = [] }

run-GoesOn_example :
    GoesOn
      (run_session session_of_one started_runner)
      (session_of_one ∷ [])
      (run (session_of_one ∷ session_of_one ∷ []) started_runner)
unfolding init
run-GoesOn_example = run-GoesOn session_of_one (session_of_one ∷ []) started_runner refl
