-- ===== src/Controller/Retries.antt =====
-- The count of the tries of a job and the delay before the next one.
use integration_queue.Prelude.{
  ℕ, ◌+◌, ◌≡◌, ◌<◌, ◌≤◌, refl, Bool, false, some, Text, ap, leb, ◌==◌, arith, Bool-cases, inl, inr,
  ◌⊎◌,
}
use integration_queue.Job.State.{wait_dependencies, pending, enqueued, failed}
use integration_queue.Job.Record.{Job, Table, set_started, set_pending, set_failed}
use integration_queue.Job.Perform.{
  retryable_job_error, failed_job_error, raised, perform, on_retryable, choose_seconds, draw,
  eta_after, postpone, get_retry_seconds,
}
use integration_queue.Job.Store.{find_row, from_row, load, store, stored_row}
use integration_queue.Job.Store.Rows.{find_row-uuid}
use integration_queue.Controller.{
  Env, Course, performs, after_begin, Response, empty, error, after_perform, try_perform_job,
  convert, on_exception, handle, runjob, retry_postpone, fail,
}
use integration_queue.Controller.Rows.{find_row-store_self, find_enqueued-row}
use integration_queue.Controller.Settled.{wait_or_pending}

-- The row of a job that is to be tried again, with so many tries counted.
pub record IsTriedAgain (env : Env) (seconds tries : ℕ) (row after : Job) : Type 0 where
  pub state : (after.state ≡ pending) ⊎ (after.state ≡ wait_dependencies)
  pub retry : after.retry ≡ tries
  pub max_retries : after.max_retries ≡ row.max_retries
  pub eta :
      after.eta
      ≡ eta_after env.now (draw env.randint (choose_seconds env.retry_pattern seconds tries))

-- The row of a job that is to be tried again, with its new try counted.
abbrev pub IsRetried : Env → ℕ → Job → Job → Type 0
IsRetried env seconds row after = IsTriedAgain env seconds (row.retry + 1) row after

pub record IsExhausted (row after : Job) : Type 0 where
  pub state : after.state ≡ failed
  pub retry : after.retry ≡ row.retry + 1
  pub max_retries : after.max_retries ≡ row.max_retries

-- More tries are left, or none is.
abbrev pub TriesLeft : Job → Type 0
TriesLeft row = (row.max_retries ≡ 0) ⊎ (row.retry + 1 < row.max_retries)

abbrev pub NoTriesLeft : Job → Type 0
NoTriesLeft row = (0 < row.max_retries) × (row.max_retries ≤ row.retry + 1)

-- The job object once `perform` has counted the try.
abbrev pub tried : Env → Job → Job
tried env row = record (set_started env.now env.pid (from_row row)) { retry = row.retry + 1 }

abbrev started_table : Env → Job → Table → Table
started_table env row table = store (set_started env.now env.pid (from_row row)) table

pub handle-IsTriedAgain :
    (env : Env) (uuid : Text) (seconds : ℕ) (i : Bool) (message : Text) (running : Table)
    (tries : ℕ) (row held job : Job)
    → find_row uuid running ≡ some held
    → job.uuid ≡ uuid
    → job.retry ≡ tries
    → job.max_retries ≡ row.max_retries
    → (after : Job) × (find_row uuid
          (handle env uuid (running, job, some (retryable_job_error seconds i message))).1
        ≡ some after)
      × IsTriedAgain env seconds tries row after
unfolding handle convert on_exception retry_postpone set_pending postpone stored_row
    get_retry_seconds
handle-IsTriedAgain env uuid seconds i message running tries row held job f same r m = (
  _,
  find_row-store_self _ uuid running f same,
  record {
    state = wait_or_pending _;
    retry = r;
    max_retries = m;
    eta =
        ap (λ n. eta_after env.now (draw env.randint (choose_seconds env.retry_pattern seconds n)))
          r;
  },
)

handle-retryable :
    (env : Env) (uuid : Text) (seconds : ℕ) (i : Bool) (message : Text) (table : Table) (row : Job)
    → find_row uuid table ≡ some row
    → (after : Job) × (find_row uuid
          (handle env uuid (
            started_table env row table,
            tried env row,
            some (retryable_job_error seconds i message),
          )).1
        ≡ some after)
      × IsRetried env seconds row after
unfolding set_started from_row
handle-retryable env uuid seconds i message table row f =
    let same = find_row-uuid uuid table f in
    handle-IsTriedAgain env uuid seconds i message _ (row.retry + 1) row _ (tried env row)
      (find_row-store_self (set_started env.now env.pid (from_row row)) uuid table f same) same refl
      refl

handle-IsExhausted :
    (env : Env) (uuid message : Text) (table : Table) (row : Job)
    → find_row uuid table ≡ some row
    → (after : Job) × (find_row uuid
          (handle env uuid
            (started_table env row table, tried env row, some (failed_job_error message))).1
        ≡ some after)
      × IsExhausted row after
unfolding handle convert on_exception fail set_failed stored_row set_started from_row
handle-IsExhausted env uuid message table row f =
    let same = find_row-uuid uuid table f in
    let started =
      find_row-store_self (set_started env.now env.pid (from_row row)) uuid table f same in
    (
      _,
      find_row-store_self _ uuid (started_table env row table) started same,
      record { state = refl; retry = refl; max_retries = refl },
    )

-- What `perform` makes of the outcome decides.
abbrev pub Retries : Env → Text → ℕ → Job → Response × Table → Type 0
Retries env uuid seconds row (response, table) =
    (after : Job) × (find_row uuid table ≡ some after)
    × ((TriesLeft row × (response ≡ empty) × IsRetried env seconds row after)
        ⊎ (NoTriesLeft row × (response ≡ error) × IsExhausted row after))

-- `on_retryable` where the retry counts.
on_retryable-cases :
    (seconds : ℕ) (message : Text) (job : Job)
    → (((job.max_retries ≡ 0) ⊎ (job.retry < job.max_retries))
        × (on_retryable seconds false message job
            ≡ (job, raised (retryable_job_error seconds false message))))
      ⊎ (((0 < job.max_retries) × (job.max_retries ≤ job.retry))
          × (on_retryable seconds false message job ≡ (job, raised (failed_job_error message))))
unfolding on_retryable
on_retryable-cases seconds message job = elim (Bool-cases (job.max_retries == 0)) [
  | inl unlimited ↦ inl (inl (ground arith), rw unlimited refl)
  | inr limited ↦ elim (Bool-cases (leb job.max_retries job.retry)) [
    | inl elapsed ↦ inr ((ground arith, ground arith), rw (limited, elapsed) refl)
    | inr left ↦ inl (inr (ground arith), rw (limited, left) refl)
  ]
]

on_retryable-Retries :
    (env : Env) (uuid : Text) (seconds : ℕ) (message : Text) (table : Table) (row : Job)
    → find_row uuid table ≡ some row
    → Retries env uuid seconds row (
        handle env uuid (
          after_perform env
            (started_table env row table)
            (on_retryable seconds false message (tried env row))))
unfolding after_perform handle convert on_exception set_started from_row
on_retryable-Retries env uuid seconds message table row f =
    elim (on_retryable-cases seconds message (tried env row)) [
      | inl (left, e) ↦
          let (after, found, retried) =
            handle-retryable env uuid seconds false message table row f in
          rw e (after, found, inl (left, refl, retried))
      | inr (left, e) ↦
          let (after, found, exhausted) = handle-IsExhausted env uuid message table row f in
          rw e (after, found, inr (left, refl, exhausted))
    ]

after_begin-Retries :
    (env : Env) (uuid : Text) (seconds : ℕ) (message : Text) (table : Table) (row : Job)
    (course : Course)
    → find_row uuid table ≡ some row
    → course ≡ performs (raised (retryable_job_error seconds false message))
    → Retries env uuid seconds row (
        handle env uuid (after_begin env course (set_started env.now env.pid (from_row row)) table))
unfolding perform set_started from_row after_begin
after_begin-Retries env uuid seconds message table row course f o =
    rw (o, after_begin, perform) (on_retryable-Retries env uuid seconds message table row f)

-- A job whose function asks for a retry is postponed with its try counted while tries are left, and
-- fails when none is.
pub runjob-Retries :
    (env : Env) (uuid : Text) (seconds : ℕ) (message : Text) (table : Table) {row : Job}
    → find_row uuid table ≡ some row
    → row.state ≡ enqueued
    → env.outcome ≡ performs (raised (retryable_job_error seconds false message))
    → Retries env uuid seconds row (runjob env uuid table)
unfolding runjob load try_perform_job
runjob-Retries env uuid seconds message table {row} f h o =
    rw (runjob, load, find_enqueued-row uuid table f h, f)
      (after_begin-Retries env uuid seconds message table row env.outcome f o)
