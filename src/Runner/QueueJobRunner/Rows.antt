-- ===== src/Runner/QueueJobRunner/Rows.antt =====
-- The rows of the jobs in the open databases, and a request's change of them.
use integration_queue.Prelude.{
  ℕ, ◌≡◌, refl, sym, ap, ◌∙◌, Bool, true, false, ◌&&◌, ◌||◌, List, [], ◌∷◌, Option, none, some,
  if◌then◌else◌, Text, text_eq, text_eq_iff, text_eq-flip, arith, Bool-cases, inl, inr,
}
use integration_queue.Job.State.{enqueued}
use integration_queue.Job.Record.{Job, Table}
use integration_queue.Job.Store.{find_row}
use integration_queue.Job.Store.Rows.{find_row-here, find_row-there}
use integration_queue.Runner.Database.{mark_enqueued, set_job_enqueued}
use integration_queue.Runner.QueueJobRunner.{
  Database, Runner, find_database, put_database, send_request,
}

-- The row of a job in one of the open databases.
abbrev pub row_of : Text → Option Database → Option Job
row_of uuid none = none
row_of uuid (some db) = find_row uuid db.table

unfoldable pub row_in : Text → Text → List Database → Option Job
row_in name uuid dbs = row_of uuid (find_database name dbs)

-- The row, enqueued at `now` if the Boolean is true.
abbrev pub enqueue_if : ℕ → Bool → Option Job → Option Job
enqueue_if now b none = none
enqueue_if now false (some row) = some row
enqueue_if now true (some row) = some (record row { state = enqueued; date_enqueued = some now })

pub enqueue_if-not : (now : ℕ) (o : Option Job) → enqueue_if now false o ≡ o
enqueue_if-not now none = refl
enqueue_if-not now (some row) = refl

pub enqueue_if-twice :
    (now : ℕ) (a b : Bool) (o : Option Job)
    → enqueue_if now a (enqueue_if now b o) ≡ enqueue_if now (b || a) o
enqueue_if-twice now a b none = refl
enqueue_if-twice now a false (some row) = refl
enqueue_if-twice now false true (some row) = refl
enqueue_if-twice now true true (some row) = refl

mark_enqueued-here :
    (now : ℕ) (uuid : Text) (row : Job)
    → text_eq row.uuid uuid ≡ true
    → mark_enqueued now uuid row ≡ record row { state = enqueued; date_enqueued = some now }
unfolding mark_enqueued
mark_enqueued-here now uuid row e = rw e refl

mark_enqueued-there :
    (now : ℕ) (uuid : Text) (row : Job)
    → text_eq row.uuid uuid ≡ false
    → mark_enqueued now uuid row ≡ row
unfolding mark_enqueued
mark_enqueued-there now uuid row e = rw e refl

mark_enqueued-uuid :
    (now : ℕ) (uuid : Text) (row : Job) → (mark_enqueued now uuid row).uuid ≡ row.uuid
mark_enqueued-uuid now uuid row = elim (Bool-cases (text_eq row.uuid uuid)) [
  | inl e ↦ ap (λ r. r.uuid) (mark_enqueued-here now uuid row e)
  | inr e ↦ ap (λ r. r.uuid) (mark_enqueued-there now uuid row e)
]

-- The row at the front of the table.
found_marked :
    (now : ℕ) (uuid u : Text) (row : Job)
    → text_eq row.uuid u ≡ true
    → some (mark_enqueued now uuid row) ≡ enqueue_if now (text_eq uuid u) (some row)
found_marked now uuid u row e =
    let same = (text_eq_iff row.uuid u).0 e in
    elim (Bool-cases (text_eq row.uuid uuid)) [
      | inl m ↦
          ap some (mark_enqueued-here now uuid row m)
          ∙ rw (sym (ap (λ v. text_eq v u) ((text_eq_iff row.uuid uuid).0 m)) ∙ e) refl
      | inr m ↦
          ap some (mark_enqueued-there now uuid row m)
          ∙ rw (sym (ap (text_eq uuid) same) ∙ text_eq-flip row.uuid uuid m) refl
    ]

find_row-enqueued :
    (now : ℕ) (uuid u : Text) (table : Table)
    → find_row u (set_job_enqueued now uuid table)
      ≡ enqueue_if now (text_eq uuid u) (find_row u table)
unfolding find_row set_job_enqueued
find_row-enqueued now uuid u [] = refl
find_row-enqueued now uuid u (row ∷ rows) = elim (Bool-cases (text_eq row.uuid u)) [
  | inl e ↦
      find_row-here u (mark_enqueued now uuid row) (set_job_enqueued now uuid rows)
        (ap (λ v. text_eq v u) (mark_enqueued-uuid now uuid row) ∙ e)
      ∙ found_marked now uuid u row e
      ∙ ap (enqueue_if now (text_eq uuid u)) (sym (find_row-here u row rows e))
  | inr e ↦
      find_row-there u (mark_enqueued now uuid row) (set_job_enqueued now uuid rows)
        (ap (λ v. text_eq v u) (mark_enqueued-uuid now uuid row) ∙ e)
      ∙ find_row-enqueued now uuid u rows
      ∙ ap (enqueue_if now (text_eq uuid u)) (sym (find_row-there u row rows e))
]

find_database-here :
    (n : Text) (db : Database) (dbs : List Database)
    → text_eq db.name n ≡ true
    → find_database n (db ∷ dbs) ≡ some db
unfolding find_database
find_database-here n db dbs e = rw e refl

find_database-there :
    (n : Text) (db : Database) (dbs : List Database)
    → text_eq db.name n ≡ false
    → find_database n (db ∷ dbs) ≡ find_database n dbs
unfolding find_database
find_database-there n db dbs e = rw e refl

or_this : Database → Option Database → Database
or_this d none = d
or_this d (some db) = db

pub find_database-name :
    (n : Text) (dbs : List Database) {db : Database} → find_database n dbs ≡ some db → db.name ≡ n
unfolding find_database or_this
find_database-name n [] {db} h = absurd (ground arith)
find_database-name n (d ∷ dbs) {db} h = elim (Bool-cases (text_eq d.name n)) [
  | inl e ↦
      let d_db : d ≡ db = ap (or_this d) (sym (find_database-here n d dbs e) ∙ h) in
      ap (λ x. x.name) (sym d_db) ∙ (text_eq_iff d.name n).0 e
  | inr e ↦ find_database-name n dbs (sym (find_database-there n d dbs e) ∙ h)
]

-- The databases after one has been put in.
pub find_database-put_database :
    (n : Text) (new : Database) (dbs : List Database)
    → find_database n (put_database new dbs)
      ≡ (if text_eq new.name n then some new else find_database n dbs)
unfolding put_database
find_database-put_database n new [] = elim (Bool-cases (text_eq new.name n)) [
  | inl e ↦ find_database-here n new [] e ∙ rw e refl
  | inr e ↦ find_database-there n new [] e ∙ rw e refl
]
find_database-put_database n new (db ∷ dbs) = elim (Bool-cases (text_eq db.name new.name)) [
  | inl same ↦
      rw (same, put_database)
        (elim (Bool-cases (text_eq new.name n)) [
          | inl e ↦ find_database-here n new dbs e ∙ rw e refl
          | inr e ↦
              find_database-there n new dbs e
              ∙ sym (
                  find_database-there n db dbs
                    (ap (λ v. text_eq v n) ((text_eq_iff db.name new.name).0 same) ∙ e))
              ∙ rw e refl
        ])
  | inr other ↦
      rw (other, put_database)
        (elim (Bool-cases (text_eq db.name n)) [
          | inl e ↦
              find_database-here n db (put_database new dbs) e
              ∙ sym (find_database-here n db dbs e)
              ∙ rw
                  (text_eq-flip n new.name
                    (sym (ap (λ v. text_eq v new.name) ((text_eq_iff db.name n).0 e)) ∙ other))
                  refl
          | inr e ↦
              find_database-there n db (put_database new dbs) e
              ∙ find_database-put_database n new dbs
              ∙ ap (λ o. if text_eq new.name n then some new else o)
                  (sym (find_database-there n db dbs e))
        ])
]

row_in-found :
    (n u : Text) (dbs : List Database) {db : Database}
    → find_database n dbs ≡ some db
    → row_in n u dbs ≡ find_row u db.table
unfolding row_in
row_in-found n u dbs h = ap (row_of u) h

pub put_here :
    (new : Database) (n : Text) (o : Option Database)
    → text_eq new.name n ≡ true
    → (if text_eq new.name n then some new else o) ≡ some new
put_here new n o e = rw e refl

pub put_there :
    (new : Database) (n : Text) (o : Option Database)
    → text_eq new.name n ≡ false
    → (if text_eq new.name n then some new else o) ≡ o
put_there new n o e = rw e refl

-- One request enqueues the row of its job.
pub row_in-send_request :
    (now : ℕ) (uuid : Text) (db : Database) (r : Runner) (n u : Text)
    → find_database db.name r.db_by_name ≡ some db
    → row_in n u (send_request now uuid db r).db_by_name
      ≡ enqueue_if now (text_eq db.name n && text_eq uuid u) (row_in n u r.db_by_name)
unfolding row_in send_request
row_in-send_request now uuid db r n u h =
    let new : Database = record db { table = set_job_enqueued now uuid db.table } in
    let put = find_database-put_database n new r.db_by_name in
    elim (Bool-cases (text_eq db.name n)) [
      | inl e ↦
          row_in-found n u (put_database new r.db_by_name)
            (put ∙ put_here new n (find_database n r.db_by_name) e)
          ∙ find_row-enqueued now uuid u db.table
          ∙ ap (enqueue_if now (text_eq uuid u)) (
              sym (
                row_in-found n u r.db_by_name
                  (ap (λ m. find_database m r.db_by_name) (sym ((text_eq_iff db.name n).0 e)) ∙ h)))
          ∙ rw e refl
      | inr e ↦
          ap (row_of u) (put ∙ put_there new n (find_database n r.db_by_name) e)
          ∙ sym (enqueue_if-not now (row_in n u r.db_by_name))
          ∙ rw e refl
    ]
