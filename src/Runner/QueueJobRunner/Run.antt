-- ===== src/Runner/QueueJobRunner/Run.antt =====
-- `run` of `QueueJobRunner`, whose rounds may have a fault.
use integration_queue.Prelude.{
  ℕ, zero, suc, take, Bool, true, false, List, [], ◌∷◌, map, reverse, Option, none, some,
  if◌then◌else◌, Text,
}
use integration_queue.Runner.QueueJobRunner.{
  Database, Server, Fault, database_error, interrupted, Runner, Raised, master_election_lost,
  key_error, of_manager, of_fault, Ending, returns, raises, initialize_databases, run_jobs,
  process_databases, process_notifications, wait_notification, close_databases,
}

-- Where a round has a fault: while the notifications are processed, after those of so many databases
-- and so many of the next, or while it waits.
pub data Place : Type 0 where
  in_notifications : (databases notifications : ℕ) → Place
  in_wait : Place

-- A round of the inner loop: the clocks, what has happened in each database since the last, and the
-- fault, if any. A fault of the `UPDATE` in `run_jobs` is left out.
pub record Round : Type 0 where
  pub now : ℕ
  pub db_now : ℕ
  pub arrive : Database → Database
  pub fault : Option (Place × Fault)

abbrev pub receive : Round → Database → Database
receive round db = record (round.arrive db) { name = db.name }

-- The databases up to a place, with the notifications that are processed before it.
unfoldable pub up_to : ℕ → ℕ → List Database → List Database
up_to databases notifications [] = []
up_to zero notifications (db ∷ dbs) =
    record db { notifies = reverse (take notifications (reverse db.notifies)) } ∷ []
up_to (suc databases) notifications (db ∷ dbs) = db ∷ up_to databases notifications dbs

-- The fault after the notifications that are processed before it.
unfoldable pub interrupt_notifications : ℕ → ℕ → Fault → Runner → Ending
unfolding process_databases up_to
interrupt_notifications databases notifications fault r =
    let (m, error) = process_databases (up_to databases notifications r.db_by_name) r.manager in
    elim error [
      | none ↦ raises (of_fault fault) (record r { manager = m })
      | some e ↦ raises (of_manager e) (record r { manager = m })
    ]

-- What comes after a method that returns.
abbrev pub and_then : (Runner → Ending) → Ending → Ending
and_then next (returns r) = next r
and_then next (raises e r) = raises e r

-- The call of `wait_notification`, which may have a fault.
abbrev pub wait_or_raise : Round → Option Fault → Runner → Ending
wait_or_raise round none r = returns (wait_notification round.now r).1
wait_or_raise round (some fault) r = raises (of_fault fault) (wait_notification round.now r).1

unfoldable pub run_round_with : Option (Place × Fault) → Round → Runner → Ending
unfolding process_notifications run_jobs wait_notification interrupt_notifications
run_round_with (some (in_notifications n k, fault)) round r = interrupt_notifications n k fault r
run_round_with (some (in_wait, fault)) round r =
    and_then (wait_or_raise round (some fault))
      (and_then (run_jobs round.now round.db_now) (process_notifications r))
run_round_with none round r =
    and_then (wait_or_raise round none)
      (and_then (run_jobs round.now round.db_now) (process_notifications r))

unfoldable pub run_round : Round → Runner → Ending
unfolding run_round_with
run_round round r =
    run_round_with round.fault round (record r { db_by_name = map (receive round) r.db_by_name })

-- The inner loop, up to the round after which `_stop` is set.
unfoldable pub run_rounds : List Round → Runner → Ending
unfolding run_round
run_rounds [] r = returns r
run_rounds (round ∷ rounds) r = and_then (run_rounds rounds) (run_round round r)

-- A round of the outer loop.
pub record Session : Type 0 where
  pub server : Server
  pub db_names : List Text
  pub rounds : List Round

unfoldable pub run_session : Session → Runner → Ending
unfolding initialize_databases run_rounds
run_session session r =
    and_then (run_rounds session.rounds) (initialize_databases session.server session.db_names r)

-- An interrupt stops the runner.
unfoldable pub stops : Raised → Bool
stops (of_fault interrupted) = true
stops (of_fault database_error) = false
stops (of_manager e) = false
stops master_election_lost = false
stops key_error = false

-- `run`: an interrupt ends it, and any other exception closes the databases, whose jobs are removed, and
-- starts the next session.
unfoldable pub run : List Session → Runner → Runner
unfolding run_session close_databases stops
run [] r = close_databases false r
run (session ∷ sessions) r = elim (run_session session r) [
  | returns r' ↦ close_databases false r'
  | raises e r' ↦
      let recovered = run sessions (close_databases true r') in
      if stops e then close_databases false r' else recovered
]
