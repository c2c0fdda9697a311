-- ===== src/Runner/QueueJobRunner/Sent.antt =====
-- What `run_jobs` does to the rows of the jobs, and the requests that it sends.
use mathlib.Core.List.{append_assoc, append-nil}
use integration_queue.Prelude.{
  ℕ, ◌≡◌, refl, sym, ap, ◌∙◌, Bool, false, ◌&&◌, ◌||◌, List, [], ◌∷◌, ◌++◌, map, some, Text,
  text_eq, Bool-cases, inl, inr,
}
use integration_queue.Runner.ChannelJob.{Jobs}
use integration_queue.Runner.Manager.{get_jobs_to_run}
use integration_queue.Runner.QueueJobRunner.{
  Database, Runner, returns, find_database, put_database, send_request, run_jobs_from, run_jobs,
}
use integration_queue.Runner.QueueJobRunner.Rows.{
  row_in, enqueue_if, enqueue_if-not, enqueue_if-twice, find_database-name,
  find_database-put_database, put_here, put_there, row_in-send_request,
}

-- One of the job objects is that of the row.
abbrev pub asked_for : Jobs → Text → Text → List ℕ → Bool
asked_for jobs name uuid [] = false
asked_for jobs name uuid (o ∷ os) =
    (text_eq (jobs o).db_name name && text_eq (jobs o).uuid uuid) || asked_for jobs name uuid os

abbrev pub request_of : Jobs → ℕ → Text × Text
request_of jobs o = ((jobs o).db_name, (jobs o).uuid)

-- Each of the jobs is in an open database.
abbrev pub AreOpen : Jobs → List Database → List ℕ → Type 0
AreOpen jobs dbs [] = Unit {0}
AreOpen jobs dbs (o ∷ os) =
    ((db : Database) × (find_database (jobs o).db_name dbs ≡ some db)) × AreOpen jobs dbs os

AreOpen-put_database :
    (jobs : Jobs) (new : Database) (dbs : List Database) (os : List ℕ)
    → AreOpen jobs dbs os
    → AreOpen jobs (put_database new dbs) os
AreOpen-put_database jobs new dbs [] h = tt
AreOpen-put_database jobs new dbs (o ∷ os) ((db, f), rest) = (
  (let put = find_database-put_database (jobs o).db_name new dbs in
      elim (Bool-cases (text_eq new.name (jobs o).db_name)) [
        | inl e ↦ (new, put ∙ put_here new (jobs o).db_name (find_database (jobs o).db_name dbs) e)
        | inr e ↦
            (db, put ∙ put_there new (jobs o).db_name (find_database (jobs o).db_name dbs) e ∙ f)
      ]),
  AreOpen-put_database jobs new dbs os rest,
)

-- The runner after the requests for the jobs.
pub record HasSent (now : ℕ) (jobs : Jobs) (os : List ℕ) (r after : Runner) : Type 0 where
  pub same_manager : after.manager ≡ r.manager
  pub sent : after.requests ≡ r.requests ++ map (request_of jobs) os
  pub rows :
      (n u : Text)
      → row_in n u after.db_by_name
        ≡ enqueue_if now (asked_for jobs n u os) (row_in n u r.db_by_name)

run_jobs_from-HasSent :
    (now : ℕ) (os : List ℕ) (r : Runner)
    → AreOpen r.manager.jobs r.db_by_name os
    → (after : Runner) × (run_jobs_from now os r ≡ returns after)
      × HasSent now r.manager.jobs os r after
unfolding run_jobs_from
run_jobs_from-HasSent now [] r h = (
  r,
  refl,
  record {
    same_manager = refl;
    sent = sym (append-nil r.requests);
    rows = λ n u. sym (enqueue_if-not now (row_in n u r.db_by_name));
  },
)
run_jobs_from-HasSent now (o ∷ os) r ((db, f), h) =
    let job = r.manager.jobs o in
    let named = find_database-name job.db_name r.db_by_name f in
    let next = send_request now job.uuid db r in
    let (after, e, s) =
      run_jobs_from-HasSent now os next (AreOpen-put_database r.manager.jobs _ r.db_by_name os h) in
    (
      after,
      rw (f, run_jobs_from) e,
      record {
        same_manager = s.same_manager;
        sent =
            s.sent
            ∙ append_assoc r.requests ((db.name, job.uuid) ∷ [])
                (map (request_of r.manager.jobs) os)
            ∙ ap (λ name. r.requests ++ (name, job.uuid) ∷ map (request_of r.manager.jobs) os)
                named;
        rows = λ n u.
            s.rows n u
            ∙ ap (enqueue_if now (asked_for r.manager.jobs n u os)) (
                row_in-send_request now job.uuid db r n u
                  (ap (λ name. find_database name r.db_by_name) named ∙ f))
            ∙ enqueue_if-twice now (asked_for r.manager.jobs n u os)
                (text_eq db.name n && text_eq job.uuid u) (row_in n u r.db_by_name)
            ∙ ap
                (λ name.
                  enqueue_if now
                    ((text_eq name n && text_eq job.uuid u) || asked_for r.manager.jobs n u os)
                    (row_in n u r.db_by_name))
                named;
      },
    )

-- If the jobs to run are in open databases, `run_jobs` sends a request for each of them, in their order,
-- and enqueues the row of each; the other rows of the databases stay as they are.
pub run_jobs-HasSent :
    (now db_now : ℕ) (r : Runner)
    → AreOpen (get_jobs_to_run now r.manager).1.jobs r.db_by_name (get_jobs_to_run now r.manager).0
    → (after : Runner) × (run_jobs now db_now r ≡ returns after)
      × HasSent db_now
          (get_jobs_to_run now r.manager).1.jobs
          (get_jobs_to_run now r.manager).0
          (record r { manager = (get_jobs_to_run now r.manager).1 })
          after
unfolding run_jobs
run_jobs-HasSent now db_now r h =
    run_jobs_from-HasSent db_now (get_jobs_to_run now r.manager).0
      (record r { manager = (get_jobs_to_run now r.manager).1 }) h
