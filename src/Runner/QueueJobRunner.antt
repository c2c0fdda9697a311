-- ===== src/Runner/QueueJobRunner.antt =====
-- `Database` and `QueueJobRunner` of integration_queue_job/jobrunner/runner.py, while `_stop` is not set.
-- What a database server answers is a parameter.
pub mod Rows
pub mod Sent
pub mod Wait
pub mod Closed
pub mod Run
pub mod Opens
pub mod Lifetime
pub mod Recovery
use integration_queue.Prelude.{
  ℕ, zero, suc, ◌-◌, take, Bool, true, false, List, [], ◌∷◌, ◌++◌, map, reverse, Option, none, some,
  if◌then◌else◌, ◌==◌, ltb, Text, text_eq,
}
use integration_queue.Job.State.{
  State, wait_dependencies, pending, enqueued, cancelled, done, started, failed,
}
use integration_queue.Job.Record.{Job, Table}
use integration_queue.Job.Store.{find_row}
use integration_queue.Runner.Errors.{Error, Result, ok, err}
use integration_queue.Runner.Manager.{
  Manager, Row, notify, remove_job, remove_db, get_jobs_to_run, get_wakeup_time,
}
use integration_queue.Runner.Database.{set_job_enqueued}

-- An open database: its table of jobs, the ids of the rows by uuid, and the notifications that have
-- arrived, the last one last.
pub record Database : Type 0 where
  pub name : Text
  pub table : Table
  pub seq_of : Text → ℕ
  pub notifies : List Text

-- An exception that no method raises itself: of psycopg2 or a socket, or a `KeyboardInterrupt` or an
-- `InterruptedError`.
pub data Fault : Type 0 where
  database_error interrupted : Fault

-- What the databases on the server answer, by name. `open_fault` is what `Database(...)` raises besides
-- `MasterElectionLost`, and `select_fault` what the select of the jobs raises, after so many rows.
pub record Server : Type 0 where
  pub open_fault : Text → Option Fault
  pub select_fault : Text → Option (ℕ × Fault)
  pub has_modules : Text → Bool
  pub is_installed : Text → Bool
  pub triggers : Text → ℕ
  pub lock_is_free : Text → Bool
  pub content : Text → Database

-- `_has_queue_job`
unfoldable pub has_queue_job : Server → Text → Bool
has_queue_job server name =
    if server.has_modules name
    then if server.is_installed name then server.triggers name == 3 else false
    else false

-- How `Database(db_name)` ends: without the jobs' table, with `MasterElectionLost`, with a fault, or
-- ready.
pub data Opened : Type 0 where
  without_jobs election_lost : Opened
  faulty : Fault → Opened
  ready : Database → Opened

unfoldable pub open_database : Server → Text → Opened
unfolding has_queue_job
open_database server name = elim (server.open_fault name) [
  | some fault ↦ faulty fault
  | none ↦
      if has_queue_job server name
      then if server.lock_is_free name
        then ready (record (server.content name) { name = name })
        else election_lost
      else without_jobs
]

-- `_stop` is left out; `requests` are the calls of `_async_http_get`.
pub record Runner : Type 0 where
  pub manager : Manager
  pub db_by_name : List Database
  pub requests : List (Text × Text)

pub data Raised : Type 0 where
  master_election_lost key_error : Raised
  of_manager : Error → Raised
  of_fault : Fault → Raised

-- How a method ends, with the runner that it leaves. A `notify` that raises leaves the manager as the
-- `notify` before it did.
pub data Ending : Type 0 where
  returns : Runner → Ending
  raises : Raised → Runner → Ending

unfoldable pub find_database : Text → List Database → Option Database
find_database name [] = none
find_database name (db ∷ dbs) = if text_eq db.name name then some db else find_database name dbs

-- `self.db_by_name[db.name] = db`
unfoldable pub put_database : Database → List Database → List Database
put_database new [] = new ∷ []
put_database new (db ∷ dbs) =
    if text_eq db.name new.name then new ∷ dbs else db ∷ put_database new dbs

unfoldable pub is_not_done : State → Bool
is_not_done done = false
is_not_done cancelled = false
is_not_done wait_dependencies = true
is_not_done pending = true
is_not_done enqueued = true
is_not_done started = true
is_not_done failed = true

unfoldable pub epoch : Option ℕ → ℕ
epoch none = 0
epoch (some eta) = eta

-- A row that `select_jobs` gives, as the arguments of `notify`.
unfoldable pub job_data : Database → Job → Row
unfolding epoch
job_data db job = record {
  db_name = db.name;
  channel_name = job.channel;
  uuid = job.uuid;
  seq = db.seq_of job.uuid;
  date_created = job.date_created;
  priority = job.priority;
  eta = epoch job.eta;
  state = some job.state;
}

-- The jobs that are not done, which `initialize_databases` selects, up to the first that raises.
unfoldable pub notify_not_done : Database → Table → Manager → Manager × Option Error
unfolding is_not_done job_data
notify_not_done db [] m = (m, none)
notify_not_done db (job ∷ jobs) m =
    let others = notify_not_done db jobs m in
    if is_not_done job.state
    then elim (notify (job_data db job) m) [
      | err e ↦ (m, some e)
      | ok m' ↦ notify_not_done db jobs m'
    ]
    else others

unfoldable pub text_leb : Text → Text → Bool
text_leb [] t = true
text_leb (x ∷ s) [] = false
text_leb (x ∷ s) (y ∷ t) = if ltb x y then true else if x == y then text_leb s t else false

unfoldable pub insert_name : Text → List Text → List Text
unfolding text_leb
insert_name s [] = s ∷ []
insert_name s (t ∷ ts) = if text_leb s t then s ∷ t ∷ ts else t ∷ insert_name s ts

-- `sorted(self.get_db_names())`
unfoldable pub sort_names : List Text → List Text
unfolding insert_name
sort_names [] = []
sort_names (s ∷ ts) = insert_name s (sort_names ts)

unfoldable pub add_database : Database → Runner → Runner
unfolding put_database
add_database db r = record r { db_by_name = put_database db r.db_by_name }

-- The rows that the select gives before its fault.
unfoldable pub selected : Option (ℕ × Fault) → Table → Table
selected none table = table
selected (some (n, fault)) table = take n table

-- How the select of the jobs of a database ends: the error of `notify`, or else its fault.
unfoldable pub after_select : Option Error → Option (ℕ × Fault) → Option Raised
after_select (some e) fault = some (of_manager e)
after_select none (some (n, fault)) = some (of_fault fault)
after_select none none = none

unfoldable pub initialize_from : Server → List Text → Runner → Ending
unfolding open_database notify_not_done add_database selected after_select
initialize_from server [] r = returns r
initialize_from server (name ∷ names) r = elim (open_database server name) [
  | without_jobs ↦ initialize_from server names r
  | election_lost ↦ raises master_election_lost r
  | faulty fault ↦ raises (of_fault fault) r
  | ready db ↦
      let (m, error) =
        notify_not_done db (selected (server.select_fault name) db.table) r.manager in
      let r' = record (add_database db r) { manager = m } in
      elim (after_select error (server.select_fault name)) [
        | none ↦ initialize_from server names r'
        | some e ↦ raises e r'
      ]
]

unfoldable pub initialize_databases : Server → List Text → Runner → Ending
unfolding initialize_from sort_names
initialize_databases server db_names r = initialize_from server (sort_names db_names) r

-- The row is marked and the request sent.
unfoldable pub send_request : ℕ → Text → Database → Runner → Runner
unfolding put_database
send_request db_now uuid db r = record r {
  db_by_name =
      put_database (record db { table = set_job_enqueued db_now uuid db.table }) r.db_by_name;
  requests = r.requests ++ (db.name, uuid) ∷ [];
}

-- The loop of `run_jobs`; `db_now` is the clock of the databases.
unfoldable pub run_jobs_from : ℕ → List ℕ → Runner → Ending
unfolding find_database send_request
run_jobs_from db_now [] r = returns r
run_jobs_from db_now (o ∷ os) r = elim (find_database (r.manager.jobs o).db_name r.db_by_name) [
  | none ↦ raises key_error r
  | some db ↦ run_jobs_from db_now os (send_request db_now (r.manager.jobs o).uuid db r)
]

unfoldable pub run_jobs : ℕ → ℕ → Runner → Ending
unfolding run_jobs_from
run_jobs now db_now r =
    let (os, m) = get_jobs_to_run now r.manager in
    run_jobs_from db_now os (record r { manager = m })

-- The notifications of one database, of which the source takes the last one first.
unfoldable pub process_database : Database → List Text → Manager → Manager × Option Error
unfolding job_data
process_database db [] m = (m, none)
process_database db (uuid ∷ uuids) m = elim (find_row uuid db.table) [
  | none ↦ process_database db uuids (remove_job uuid m)
  | some job ↦ elim (notify (job_data db job) m) [
    | err e ↦ (m, some e)
    | ok m' ↦ process_database db uuids m'
  ]
]

unfoldable pub process_databases : List Database → Manager → Manager × Option Error
unfolding process_database
process_databases [] m = (m, none)
process_databases (db ∷ dbs) m =
    let (m', error) = process_database db (reverse db.notifies) m in
    elim error [ none ↦ process_databases dbs m' | some e ↦ (m', some e) ]

-- The notifications have been taken.
abbrev pub taken : Database → Database
taken db = record db { notifies = [] }

unfoldable pub process_notifications : Runner → Ending
unfolding process_databases
process_notifications r =
    let (m, error) = process_databases r.db_by_name r.manager in
    elim error [
      | none ↦ returns (record r { manager = m; db_by_name = map taken r.db_by_name })
      | some e ↦ raises (of_manager e) (record r { manager = m })
    ]

abbrev pub select_timeout : ℕ
select_timeout = 60

unfoldable pub is_notified : List Database → Bool
is_notified [] = false
is_notified (db ∷ dbs) = elim db.notifies [ [] ↦ is_notified dbs | u ∷ us ↦ true ]

-- The timeout of `select`, or no wait.
unfoldable pub timeout : ℕ → ℕ → Option ℕ
timeout now wakeup_time =
    if wakeup_time == 0
    then some select_timeout
    else if ltb now wakeup_time
    then some (wakeup_time - now)
    else none

unfoldable pub wait_notification : ℕ → Runner → Option ℕ × Runner
unfolding is_notified timeout
wait_notification now r =
    let (wakeup_time, m) = get_wakeup_time r.manager in
    if is_notified r.db_by_name
    then (none, r)
    else (timeout now wakeup_time, record r { manager = m })

unfoldable pub remove_dbs : List Database → Manager → Manager
remove_dbs [] m = m
remove_dbs (db ∷ dbs) m = remove_dbs dbs (remove_db db.name m)

unfoldable pub close_databases : Bool → Runner → Runner
unfolding remove_dbs
close_databases remove_jobs r = record r {
  manager = if remove_jobs then remove_dbs r.db_by_name r.manager else r.manager;
  db_by_name = [];
}
