-- ===== src/Runner/QueueJobRunner/Recovery.antt =====
-- How the runner goes on after a session, which is one round of the outer loop of `run`.
use integration_queue.Prelude.{
  ℕ, ◌≡◌, refl, sym, ap, ◌∙◌, subst, ◌⊎◌, true, false, List, [], ◌∷◌, none, some, Text, text_eq,
  text_eq_self, Bool, arith, Bool-cases, Option-cases, inl, inr, ◌||◌,
}
use integration_queue.Runner.ChannelJob.{Jobs}
use integration_queue.Runner.Manager.{Manager, find_job}
use integration_queue.Runner.Manager.Owned.{Entries}
use integration_queue.Runner.QueueJobRunner.{
  Database, Server, Fault, Runner, Ending, Raised, returns, raises, Opened, ready, without_jobs,
  faulty, election_lost, open_database, notify_not_done, add_database, initialize_from,
  initialize_databases, sort_names, after_select, selected, close_databases, put_database, of_fault,
  of_manager, master_election_lost, key_error, interrupted, database_error,
}
use integration_queue.Runner.QueueJobRunner.Run.{run_rounds, Session, run_session, run, stops}
use integration_queue.Runner.QueueJobRunner.Closed.{has_name, of_no_db, close_databases-WithoutDbs}
use integration_queue.Runner.QueueJobRunner.Opens.{
  Tracks, notify_not_done-Owned, has_name-put_database, Tracks-put_database,
}
use integration_queue.Runner.QueueJobRunner.Lifetime.{
  EndsTracked, and_then-EndsTracked, run_rounds-EndsTracked,
}

Opened-cases :
    (x : Opened)
    → (x ≡ without_jobs)
      ⊎ ((x ≡ election_lost)
          ⊎ (((f : Fault) × (x ≡ faulty f)) ⊎ ((db : Database) × (x ≡ ready db))))
Opened-cases without_jobs = inl refl
Opened-cases election_lost = inr (inl refl)
Opened-cases (faulty f) = inr (inr (inl (f, refl)))
Opened-cases (ready db) = inr (inr (inr (db, refl)))

initialize_from-EndsTracked :
    (server : Server) (names : List Text) (r : Runner)
    → Tracks r.db_by_name r.manager
    → EndsTracked (initialize_from server names r)
unfolding initialize_from add_database
initialize_from-EndsTracked server [] r t = t
initialize_from-EndsTracked server (name ∷ names) r t =
    elim (Opened-cases (open_database server name)) [
      | inl other ↦ rw (other, initialize_from) (initialize_from-EndsTracked server names r t)
      | inr (inl lost) ↦ rw (lost, initialize_from) t
      | inr (inr (inl (f, broken))) ↦ rw (broken, initialize_from) t
      | inr (inr (inr (db, is_ready))) ↦
          let dbs = put_database db r.db_by_name in
          let rows = selected (server.select_fault name) db.table in
          let is_open : has_name db.name dbs ≡ true =
            has_name-put_database db.name db r.db_by_name
            ∙ ap (λ b. b || has_name db.name r.db_by_name) (text_eq_self db.name) in
          let all =
            notify_not_done-Owned (λ n. has_name n dbs) db rows r.manager is_open
              (Tracks-put_database db r.db_by_name r.manager t) in
          elim (Option-cases
            (after_select (notify_not_done db rows r.manager).1 (server.select_fault name))) [
              | inl h ↦
                  rw (is_ready, h, initialize_from)
                    (initialize_from-EndsTracked server names
                      (record (add_database db r) {
                        manager = (notify_not_done db rows r.manager).0;
                      })
                      all)
              | inr (e, h) ↦ rw (is_ready, h, initialize_from) all
            ]
    ]

run_session-EndsTracked :
    (session : Session) (r : Runner)
    → Tracks r.db_by_name r.manager
    → EndsTracked (run_session session r)
unfolding run_session initialize_databases
run_session-EndsTracked session r t =
    and_then-EndsTracked (run_rounds session.rounds) _
      (λ r' t'. run_rounds-EndsTracked session.rounds r' t')
      (initialize_from-EndsTracked session.server (sort_names session.db_names) r t)

-- A job that is found is of a database that passes the test.
Entries-find_job :
    (opens : Text → Bool) (jobs : Jobs) (es : List (Text × ℕ)) (u : Text) {o : ℕ}
    → Entries opens jobs es
    → find_job u es ≡ some o
    → opens (jobs o).db_name ≡ true
unfolding find_job
Entries-find_job opens jobs [] u e h = absurd (ground arith)
Entries-find_job opens jobs ((v, p) ∷ es) u {o} (e, rest) h = elim (Bool-cases (text_eq v u)) [
  | inl same ↦
      let p_o : p ≡ o = ground (arith, same, h) in ap (λ a. opens (jobs a).db_name) (sym p_o) ∙ e
  | inr other ↦ Entries-find_job opens jobs es u rest (ground (arith, other, h))
]

no_job_left :
    (dbs : List Database) (m : Manager)
    → Tracks dbs m
    → (u : Text) → of_no_db m.jobs dbs (find_job u m.jobs_by_uuid) ≡ none
no_job_left dbs m t u = elim (Option-cases (find_job u m.jobs_by_uuid)) [
  | inl n ↦ rw n refl
  | inr (o, f) ↦
      rw (f, Entries-find_job (λ n. has_name n dbs) m.jobs m.jobs_by_uuid u t.entries f) refl
]

nothing_found : (es : List (Text × ℕ)) → ((u : Text) → find_job u es ≡ none) → es ≡ []
unfolding find_job
nothing_found [] h = refl
nothing_found ((v, o) ∷ es) h = absurd (ground (arith, h v, text_eq_self v))

close_databases-empty :
    (r : Runner)
    → Tracks r.db_by_name r.manager
    → (close_databases true r).manager.jobs_by_uuid ≡ []
close_databases-empty r t =
    let closed = close_databases-WithoutDbs r t.keyed in
    nothing_found _ (λ u. closed.found u ∙ no_job_left r.db_by_name r.manager t u)

-- The runner from which `run` recovers: no database is open and no job is known. The requests that were
-- sent are kept.
pub record StartsAfresh (r fresh : Runner) : Type 0 where
  pub no_database : fresh.db_by_name ≡ []
  pub no_known_job : fresh.manager.jobs_by_uuid ≡ []
  pub same_requests : fresh.requests ≡ r.requests

-- The session ends with the runner, and the runner stops.
abbrev pub IsStopped : Ending → Runner → Type 0
IsStopped ending r = (ending ≡ returns r) ⊎ (ending ≡ raises (of_fault interrupted) r)

-- The session ends with the runner and an exception that is no interrupt.
abbrev pub HasRaised : Ending → Runner → Type 0
HasRaised ending r = (e : Raised) × (ending ≡ raises e r) × (e ≡ of_fault interrupted → ⊥)

-- How `run` goes on after the ending of its first session.
abbrev pub GoesOn : Ending → List Session → Runner → Type 0
GoesOn ending sessions after =
    ((r : Runner) × IsStopped ending r
      × Tracks r.db_by_name r.manager
      × (after ≡ record r { db_by_name = [] }))
    ⊎ ((r : Runner) × (fresh : Runner) × HasRaised ending r
        × StartsAfresh r fresh
        × (after ≡ run sessions fresh))

Ending-cases :
    (x : Ending)
    → ((r : Runner) × (x ≡ returns r)) ⊎ ((e : Raised) × (r : Runner) × (x ≡ raises e r))
Ending-cases (returns r) = inl (r, refl)
Ending-cases (raises e r) = inr (e, r, refl)

stops-interrupted : (e : Raised) → stops e ≡ true → e ≡ of_fault interrupted
unfolding stops
stops-interrupted (of_fault interrupted) h = refl
stops-interrupted (of_fault database_error) h = absurd (ground arith)
stops-interrupted (of_manager e) h = absurd (ground arith)
stops-interrupted master_election_lost h = absurd (ground arith)
stops-interrupted key_error h = absurd (ground arith)

goes_on : (e : Raised) → stops e ≡ false → e ≡ of_fault interrupted → ⊥
unfolding stops
goes_on e h same = absurd (ground (arith, h, ap stops same))

no_job-Tracks : (dbs : List Database) (m : Manager) → m.jobs_by_uuid ≡ [] → Tracks dbs m
no_job-Tracks dbs m h = record {
  keyed = record { keys_match = rw h tt; keys_distinct = rw h tt };
  entries = rw h tt;
}

-- From a runner that knows no job, `run` ends after its first session if this ends or is interrupted,
-- with the jobs of the databases that were open then, which it closes. If the session raises any other
-- exception, `run` goes on with the next from a runner that knows no job again and has no open
-- database, and keeps the requests that were sent.
pub run-GoesOn :
    (session : Session) (sessions : List Session) (r : Runner)
    → r.manager.jobs_by_uuid ≡ []
    → GoesOn (run_session session r) sessions (run (session ∷ sessions) r)
unfolding run close_databases
run-GoesOn session sessions r h =
    let tracked = run_session-EndsTracked session r (no_job-Tracks r.db_by_name r.manager h) in
    elim (Ending-cases (run_session session r)) [
      | inl (r', ends) ↦
          let t : Tracks r'.db_by_name r'.manager = subst EndsTracked ends tracked in
          rw (ends, run) (inl (r', inl refl, t, refl))
      | inr (e, r', ends) ↦
          let t : Tracks r'.db_by_name r'.manager = subst EndsTracked ends tracked in
          elim (Bool-cases (stops e)) [
            | inl stop ↦
                rw (ends, stop, run)
                  (inl (r', inr (ap (λ x. raises x r') (stops-interrupted e stop)), t, refl))
            | inr next ↦
                rw (ends, next, run)
                  (inr (
                    r',
                    close_databases true r',
                    (e, refl, goes_on e next),
                    record {
                      no_database = refl;
                      no_known_job = close_databases-empty r' t;
                      same_requests = refl;
                    },
                    refl,
                  ))
          ]
    ]
