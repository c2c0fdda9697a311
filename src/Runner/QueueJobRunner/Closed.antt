-- ===== src/Runner/QueueJobRunner/Closed.antt =====
-- The runner after `close_databases`, with which it recovers from an error.
use integration_queue.Prelude.{
  ℕ, ◌≡◌, refl, sym, ap, ◌∙◌, Bool, true, false, ◌||◌, List, [], ◌∷◌, Option, none, some,
  if◌then◌else◌, Text, text_eq, Bool-cases, inl, inr,
}
use integration_queue.Runner.ChannelJob.{Jobs}
use integration_queue.Runner.Manager.{Manager, find_job, remove_db}
use integration_queue.Runner.Manager.Keyed.{IsKeyed}
use integration_queue.Runner.Manager.Removal.{of_other_db, remove_db-WithoutDb}
use integration_queue.Runner.QueueJobRunner.{Database, Runner, remove_dbs, close_databases}

-- One of the databases has the name.
abbrev pub has_name : Text → List Database → Bool
has_name name [] = false
has_name name (db ∷ dbs) = text_eq name db.name || has_name name dbs

-- The found job, unless its database is one of these.
abbrev pub of_no_db : Jobs → List Database → Option ℕ → Option ℕ
of_no_db jobs dbs none = none
of_no_db jobs dbs (some o) = if has_name (jobs o).db_name dbs then none else some o

of_no_db-cons :
    (jobs : Jobs) (db : Database) (dbs : List Database) (found : Option ℕ)
    → of_no_db jobs dbs (of_other_db jobs db.name found) ≡ of_no_db jobs (db ∷ dbs) found
of_no_db-cons jobs db dbs none = refl
of_no_db-cons jobs db dbs (some o) = elim (Bool-cases (text_eq (jobs o).db_name db.name)) [
  | inl e ↦ rw e refl
  | inr e ↦ rw e refl
]

of_no_db-nil : (jobs : Jobs) (found : Option ℕ) → of_no_db jobs [] found ≡ found
of_no_db-nil jobs none = refl
of_no_db-nil jobs (some o) = refl

pub record WithoutDbs (dbs : List Database) (m after : Manager) : Type 0 where
  pub same_jobs : after.jobs ≡ m.jobs
  pub still_keyed : IsKeyed after
  pub found :
      (u : Text) → find_job u after.jobs_by_uuid ≡ of_no_db m.jobs dbs (find_job u m.jobs_by_uuid)

remove_dbs-WithoutDbs :
    (dbs : List Database) (m : Manager) → IsKeyed m → WithoutDbs dbs m (remove_dbs dbs m)
unfolding remove_dbs
remove_dbs-WithoutDbs [] m k = record {
  same_jobs = refl;
  still_keyed = k;
  found = λ u. sym (of_no_db-nil m.jobs (find_job u m.jobs_by_uuid));
}
remove_dbs-WithoutDbs (db ∷ dbs) m k =
    let first = remove_db-WithoutDb db.name m k in
    let rest = remove_dbs-WithoutDbs dbs (remove_db db.name m) first.still_keyed in
    record {
      same_jobs = rest.same_jobs ∙ first.same_jobs;
      still_keyed = rest.still_keyed;
      found = λ u.
          rest.found u
          ∙ ap (λ jobs. of_no_db jobs dbs (find_job u (remove_db db.name m).jobs_by_uuid))
              first.same_jobs
          ∙ ap (of_no_db m.jobs dbs) (first.found u)
          ∙ of_no_db-cons m.jobs db dbs (find_job u m.jobs_by_uuid);
    }

-- From a dictionary with one entry for each uuid, `close_databases` takes out the jobs of the open
-- databases and no others, and leaves it such a dictionary.
pub close_databases-WithoutDbs :
    (r : Runner)
    → IsKeyed r.manager
    → WithoutDbs r.db_by_name r.manager (close_databases true r).manager
unfolding close_databases
close_databases-WithoutDbs r k = remove_dbs-WithoutDbs r.db_by_name r.manager k
