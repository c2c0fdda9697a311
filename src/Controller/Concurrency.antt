-- ===== src/Controller/Concurrency.antt =====
-- A run that meets a concurrency error of the database.
use integration_queue.Prelude.{
  ℕ, ◌+◌, ◌≡◌, refl, true, false, Option, none, some, Text, ap, sym, ◌∙◌, inl, inr, ◌⊎◌,
}
use integration_queue.Job.State.{enqueued}
use integration_queue.Job.Record.{Job, Table, set_started, set_done}
use integration_queue.Job.Perform.{operational_error, Exception, returned, raised, perform}
use integration_queue.Job.Store.{find_row, from_row, load, store}
use integration_queue.Job.Store.Rows.{find_row-uuid}
use integration_queue.Controller.{
  Env, Course, not_begun, performs, after_begin, finish, pg_retry, Response, empty, after_perform,
  try_perform_job, convert, on_exception, handle, runjob,
}
use integration_queue.Controller.Rows.{find_row-store_self, find_enqueued-row}
use integration_queue.Controller.Retries.{IsTriedAgain, tried, handle-IsTriedAgain}

-- A run meets the exception once the job is begun: its function raises it, or returns and the flush
-- or the last commit raises it.
abbrev pub MeetsLater : Env → Exception → Type 0
MeetsLater env e =
    (env.outcome ≡ performs (raised e))
    ⊎ ((result : Option Text) × (env.outcome ≡ performs (returned result))
        × ((env.flush ≡ some e) ⊎ ((env.flush ≡ none) × (env.commit ≡ some e))))

-- A run meets the exception where the job has so many tries counted.
abbrev pub MeetsAt : Env → Exception → Job → ℕ → Type 0
MeetsAt env e row tries =
    ((env.outcome ≡ not_begun e) × (tries ≡ row.retry))
    ⊎ (MeetsLater env e × (tries ≡ row.retry + 1))

abbrev TriedAgain : Env → Text → Job → ℕ → Response × Table → Type 0
TriedAgain env uuid row tries (response, table) =
    (response ≡ empty)
    × ((after : Job) × (find_row uuid table ≡ some after)
        × IsTriedAgain env pg_retry tries row after)

-- What a concurrency error of the database leads to, whatever job object is held.
handle-concurrency_error :
    (env : Env) (uuid message : Text) (running : Table) (tries : ℕ) (row held job : Job)
    → find_row uuid running ≡ some held
    → job.uuid ≡ uuid
    → job.retry ≡ tries
    → job.max_retries ≡ row.max_retries
    → TriedAgain env uuid row tries
        (handle env uuid (running, job, some (operational_error true message)))
unfolding handle convert on_exception
handle-concurrency_error env uuid message running tries row held job f same r m = (
  refl,
  handle-IsTriedAgain env uuid pg_retry false message running tries row held job f same r m,
)

-- What is held when the exception is raised.
abbrev Held : Env → Text → Table → Job → ℕ → Exception → Type 0
Held env uuid table row tries e =
    (running : Table) × (held : Job) × (job : Job) × (after_begin env env.outcome
        (set_started env.now env.pid (from_row row)) table
      ≡ (running, job, some e))
    × (find_row uuid running ≡ some held)
    × (job.uuid ≡ uuid)
    × (job.retry ≡ tries)
    × (job.max_retries ≡ row.max_retries)

MeetsAt-Held :
    (env : Env) (uuid message : Text) (table : Table) (tries : ℕ) (row : Job)
    → find_row uuid table ≡ some row
    → MeetsAt env (operational_error true message) row tries
    → Held env uuid table row tries (operational_error true message)
unfolding perform set_started from_row after_begin after_perform finish set_done
MeetsAt-Held env uuid message table tries row f meets =
    let same = find_row-uuid uuid table f in
    let begun = set_started env.now env.pid (from_row row) in
    let started = find_row-store_self begun uuid table f same in
    let running = store begun table in
    let course = λ (c : Course). after_begin env c begun table in
    elim meets [
      | inl (o, n) ↦ (table, row, begun, ap course o, f, same, sym n, refl)
      | inr (inl o, n) ↦ (running, _, tried env row, ap course o, started, same, sym n, refl)
      | inr (inr (result, o, inl e), n) ↦
          let job = record (tried env row) { result = result } in
          (
            running,
            _,
            job,
            ap course o ∙ ap (λ g. finish env running job g env.commit) e,
            started,
            same,
            sym n,
            refl,
          )
      | inr (inr (result, o, inr (clean, e)), n) ↦
          let job = record (tried env row) { result = result } in
          (
            running,
            _,
            set_done env.now none job,
            ap course o
                ∙ ap (λ g. finish env running job g env.commit) clean
                ∙ ap (λ c. finish env running job none c) e,
            started,
            same,
            sym n,
            refl,
          )
    ]

begin_concurrency_error :
    (env : Env) (uuid message : Text) (table : Table) (tries : ℕ) (row : Job)
    → find_row uuid table ≡ some row
    → MeetsAt env (operational_error true message) row tries
    → TriedAgain env uuid row tries (
        handle env uuid
          (after_begin env env.outcome (set_started env.now env.pid (from_row row)) table))
begin_concurrency_error env uuid message table tries row f meets =
    let (running, held, job, ends, found, same, r, m) =
      MeetsAt-Held env uuid message table tries row f meets in
    rw ends (handle-concurrency_error env uuid message running tries row held job found same r m)

-- A run of an enqueued job that meets a concurrency error of the database postpones the job, however
-- many tries it has had: with this try counted if the job's function, the flush or the last commit
-- raises the error, and not counted if the first store or commit does.
pub runjob_concurrency_error :
    (env : Env) (uuid message : Text) (table : Table) (tries : ℕ) {row : Job}
    → find_row uuid table ≡ some row
    → row.state ≡ enqueued
    → MeetsAt env (operational_error true message) row tries
    → ((runjob env uuid table).0 ≡ empty)
      × ((after : Job) × (find_row uuid (runjob env uuid table).1 ≡ some after)
          × IsTriedAgain env pg_retry tries row after)
unfolding runjob load try_perform_job
runjob_concurrency_error env uuid message table tries {row} f h meets =
    rw (runjob, load, find_enqueued-row uuid table f h, f)
      (begin_concurrency_error env uuid message table tries row f meets)
