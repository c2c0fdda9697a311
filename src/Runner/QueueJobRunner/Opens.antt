-- ===== src/Runner/QueueJobRunner/Opens.antt =====
-- The jobs of the manager are of open databases, whatever rows it is told of.
use integration_queue.Prelude.{
  ℕ, zero, suc, ◌≡◌, refl, ap, ◌∙◌, Bool, true, ◌||◌, List, [], ◌∷◌, reverse, map, Text, text_eq,
  text_eq_iff, text_eq_self, arith, Bool-cases, Option-cases, inl, inr,
}
use integration_queue.Job.Record.{Table}
use integration_queue.Job.Store.{find_row}
use integration_queue.Runner.Manager.{Manager, notify, remove_job}
use integration_queue.Runner.Manager.Notified.{Result-cases}
use integration_queue.Runner.Manager.Owned.{Owned, Owned-mono, notify-Owned, remove_job-Owned}
use integration_queue.Runner.QueueJobRunner.{
  Database, is_not_done, job_data, notify_not_done, put_database, process_database,
  process_databases,
}
use integration_queue.Runner.QueueJobRunner.Run.{up_to}
use integration_queue.Runner.QueueJobRunner.Closed.{has_name}

-- The jobs of the manager are of open databases.
abbrev pub Tracks : List Database → Manager → Type 0
Tracks dbs m = Owned (λ n. has_name n dbs) m

pub notify_not_done-Owned :
    (opens : Text → Bool) (db : Database) (table : Table) (m : Manager)
    → opens db.name ≡ true
    → Owned opens m
    → Owned opens (notify_not_done db table m).0
unfolding notify_not_done job_data
notify_not_done-Owned opens db [] m is_open k = k
notify_not_done-Owned opens db (job ∷ jobs) m is_open k =
    elim (Bool-cases (is_not_done job.state)) [
      | inr over ↦ rw (over, notify_not_done) (notify_not_done-Owned opens db jobs m is_open k)
      | inl live ↦ elim (Result-cases (notify (job_data db job) m)) [
        | inr (e, h) ↦ rw (live, h, notify_not_done) k
        | inl (m', h) ↦
            rw (live, h, notify_not_done)
              (notify_not_done-Owned opens db jobs m' is_open
                (notify-Owned opens (job_data db job) m m' is_open k h))
      ]
    ]

process_database-Owned :
    (opens : Text → Bool) (db : Database) (uuids : List Text) (m : Manager)
    → opens db.name ≡ true
    → Owned opens m
    → Owned opens (process_database db uuids m).0
unfolding process_database job_data
process_database-Owned opens db [] m is_open k = k
process_database-Owned opens db (uuid ∷ uuids) m is_open k =
    elim (Option-cases (find_row uuid db.table)) [
      | inl gone ↦
          rw (gone, process_database)
            (process_database-Owned opens db uuids (remove_job uuid m) is_open
              (remove_job-Owned opens uuid m k))
      | inr (job, f) ↦ elim (Result-cases (notify (job_data db job) m)) [
        | inr (e, h) ↦ rw (f, h, process_database) k
        | inl (m', h) ↦
            rw (f, h, process_database)
              (process_database-Owned opens db uuids m' is_open
                (notify-Owned opens (job_data db job) m m' is_open k h))
      ]
    ]

-- The databases all pass the test.
abbrev pub AllOpen : (Text → Bool) → List Database → Type 0
AllOpen opens [] = Unit {0}
AllOpen opens (db ∷ dbs) = (opens db.name ≡ true) × AllOpen opens dbs

pub process_databases-Owned :
    (opens : Text → Bool) (dbs : List Database) (m : Manager)
    → AllOpen opens dbs
    → Owned opens m
    → Owned opens (process_databases dbs m).0
unfolding process_databases
process_databases-Owned opens [] m all k = k
process_databases-Owned opens (db ∷ dbs) m (is_open, all) k =
    let first = process_database-Owned opens db (reverse db.notifies) m is_open k in
    elim (Option-cases (process_database db (reverse db.notifies) m).1) [
      | inl h ↦ rw (h, process_databases) (process_databases-Owned opens dbs _ all first)
      | inr (e, h) ↦ rw (h, process_databases) first
    ]

AllOpen-mono :
    (p q : Text → Bool) (dbs : List Database)
    → ((n : Text) → p n ≡ true → q n ≡ true)
    → AllOpen p dbs
    → AllOpen q dbs
AllOpen-mono p q [] h a = tt
AllOpen-mono p q (db ∷ dbs) h (a, rest) = (h db.name a, AllOpen-mono p q dbs h rest)

has_name-first :
    (n : Text) (db : Database) (dbs : List Database)
    → text_eq n db.name ≡ true
    → has_name n (db ∷ dbs) ≡ true
has_name-first n db dbs h = ground (arith, h)

has_name-later :
    (n : Text) (db : Database) (dbs : List Database)
    → has_name n dbs ≡ true
    → has_name n (db ∷ dbs) ≡ true
has_name-later n db dbs h = ground (arith, h)

pub AllOpen-self : (dbs : List Database) → AllOpen (λ n. has_name n dbs) dbs
AllOpen-self [] = tt
AllOpen-self (db ∷ dbs) = (
  has_name-first db.name db dbs (text_eq_self db.name),
  AllOpen-mono (λ n. has_name n dbs) (λ n. has_name n (db ∷ dbs)) dbs
      (λ n h. has_name-later n db dbs h) (AllOpen-self dbs),
)

pub AllOpen-up_to :
    (opens : Text → Bool) (n k : ℕ) (dbs : List Database)
    → AllOpen opens dbs
    → AllOpen opens (up_to n k dbs)
unfolding up_to
AllOpen-up_to opens n k [] a = tt
AllOpen-up_to opens zero k (db ∷ dbs) (a, rest) = (a, tt)
AllOpen-up_to opens (suc n) k (db ∷ dbs) (a, rest) = (a, AllOpen-up_to opens n k dbs rest)

-- A change of the databases that keeps their names.
has_name-map :
    (f : Database → Database) (n : Text) (dbs : List Database)
    → ((db : Database) → (f db).name ≡ db.name)
    → has_name n (map f dbs) ≡ has_name n dbs
has_name-map f n [] h = refl
has_name-map f n (db ∷ dbs) h =
    ap (λ x. text_eq n x || has_name n (map f dbs)) (h db)
    ∙ ap (λ b. text_eq n db.name || b) (has_name-map f n dbs h)

pub Tracks-map :
    (f : Database → Database) (dbs : List Database) (m : Manager)
    → ((db : Database) → (f db).name ≡ db.name)
    → Tracks dbs m
    → Tracks (map f dbs) m
Tracks-map f dbs m h t =
    Owned-mono (λ n. has_name n dbs) (λ n. has_name n (map f dbs)) m
      (λ n k. has_name-map f n dbs h ∙ k) t

-- The name of a database that is put, and the names before it, are names of databases.
pub has_name-put_database :
    (n : Text) (new : Database) (dbs : List Database)
    → has_name n (put_database new dbs) ≡ (text_eq n new.name || has_name n dbs)
unfolding put_database
has_name-put_database n new [] = refl
has_name-put_database n new (db ∷ dbs) = elim (Bool-cases (text_eq db.name new.name)) [
  | inl same ↦
      let named = ap (λ x. text_eq n x) ((text_eq_iff db.name new.name).0 same) in
      rw same (ground (arith, named))
  | inr other ↦ rw other (ground (arith, has_name-put_database n new dbs))
]

pub Tracks-put_database :
    (new : Database) (dbs : List Database) (m : Manager)
    → Tracks dbs m
    → Tracks (put_database new dbs) m
Tracks-put_database new dbs m t =
    Owned-mono (λ n. has_name n dbs) (λ n. has_name n (put_database new dbs)) m
      (λ n h. has_name-put_database n new dbs ∙ ground (arith, h)) t
