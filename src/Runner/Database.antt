-- ===== src/Runner/Database.antt =====
-- `Database.set_job_enqueued` of integration_queue_job/jobrunner/runner.py, on the rows of the
-- table. The date is that of the database.
use integration_queue.Prelude.{
  ℕ, ◌≡◌, refl, [], ◌∷◌, some, Text, text_eq, text_eq_self, if◌then◌else◌, map, Bool-cases, inl,
  inr, ◌∙◌, ap,
}
use integration_queue.Job.State.{enqueued}
use integration_queue.Job.Record.{Job, Table}
use integration_queue.Job.Store.{find_row}
use integration_queue.Job.Store.Rows.{find_row-map, find_row-uuid}

-- The row that the `UPDATE` leaves.
unfoldable pub mark_enqueued : ℕ → Text → Job → Job
mark_enqueued now uuid row =
    if text_eq row.uuid uuid then record row { state = enqueued; date_enqueued = some now } else row

unfoldable pub set_job_enqueued : ℕ → Text → Table → Table
set_job_enqueued now uuid [] = []
set_job_enqueued now uuid (row ∷ rows) = mark_enqueued now uuid row ∷ set_job_enqueued now uuid rows

mark_enqueued-uuid : (now : ℕ) (uuid : Text) (r : Job) → (mark_enqueued now uuid r).uuid ≡ r.uuid
unfolding mark_enqueued
mark_enqueued-uuid now uuid r = elim (Bool-cases (text_eq r.uuid uuid)) [
  | inl e ↦ rw e refl
  | inr e ↦ rw e refl
]

set_job_enqueued-map :
    (now : ℕ) (uuid : Text) (rows : Table)
    → set_job_enqueued now uuid rows ≡ map (mark_enqueued now uuid) rows
unfolding set_job_enqueued
set_job_enqueued-map now uuid [] = refl
set_job_enqueued-map now uuid (r ∷ rows) =
    ap (λ s. mark_enqueued now uuid r ∷ s) (set_job_enqueued-map now uuid rows)

mark_enqueued_self :
    (now : ℕ) (uuid : Text) (row : Job)
    → row.uuid ≡ uuid
    → mark_enqueued now uuid row ≡ record row { state = enqueued; date_enqueued = some now }
unfolding mark_enqueued
mark_enqueued_self now uuid row e = rw (e, text_eq_self uuid) refl

pub find_row-set_job_enqueued :
    (now : ℕ) (uuid : Text) (table : Table) {row : Job}
    → find_row uuid table ≡ some row
    → find_row uuid (set_job_enqueued now uuid table)
      ≡ some (record row { state = enqueued; date_enqueued = some now })
find_row-set_job_enqueued now uuid table {row} f =
    ap (find_row uuid) (set_job_enqueued-map now uuid table)
    ∙ find_row-map (mark_enqueued now uuid) (mark_enqueued-uuid now uuid) uuid table f
    ∙ ap some (mark_enqueued_self now uuid row (find_row-uuid uuid table f))
