-- ===== src/Controller/Rows.antt =====
-- The row of a job in the table that a request reads and writes.
use integration_queue.Prelude.{
  ◌≡◌, refl, true, ◌&&◌, [], ◌∷◌, Option, none, some, Text, text_eq, text_eq_iff, arith, Bool-cases,
  inl, inr, ◌∙◌, ap, sym, if◌then◌else◌,
}
use integration_queue.Job.State.{State, enqueued, ◌is◌}
use integration_queue.Job.Record.{Job, Table}
use integration_queue.Job.Store.{find_row, store, stored_row}
use integration_queue.Job.Store.Rows.{find_row-store, find_row-uuid, find_row-here, find_row-there}
use integration_queue.Controller.{find_enqueued}

-- The row of a stored job.
pub find_row-store_self :
    (job : Job) (uuid : Text) (table : Table) {row : Job}
    → find_row uuid table ≡ some row
    → job.uuid ≡ uuid
    → find_row uuid (store job table) ≡ some (stored_row table job row)
find_row-store_self job uuid table {row} e h =
    let here = find_row-store uuid job table (ap (λ u. find_row u table) h ∙ e) e in
    let same = (text_eq_iff row.uuid job.uuid).1 (find_row-uuid uuid table e ∙ sym h) in
    here ∙ ap (λ b. some (if b then stored_row table job row else row)) same

abbrev state_or : State → Option Job → State
state_or s none = s
state_or s (some row) = row.state

find_enqueued-here :
    (uuid : Text) (r : Job) (rows : Table)
    → text_eq r.uuid uuid ≡ true
    → r.state is enqueued ≡ true
    → find_enqueued uuid (r ∷ rows) ≡ true
unfolding find_enqueued
find_enqueued-here uuid r rows same e = rw (same, e) refl

find_enqueued-there :
    (uuid : Text) (r : Job) (rows : Table)
    → find_enqueued uuid rows ≡ true
    → find_enqueued uuid (r ∷ rows) ≡ true
unfolding find_enqueued
find_enqueued-there uuid r rows e = elim (Bool-cases (text_eq r.uuid uuid && r.state is enqueued)) [
  | inl same ↦ rw same refl
  | inr other ↦ rw other e
]

pub find_enqueued-row :
    (uuid : Text) (table : Table) {row : Job}
    → find_row uuid table ≡ some row
    → row.state ≡ enqueued
    → find_enqueued uuid table ≡ true
unfolding find_row
find_enqueued-row uuid [] e h = ground arith
find_enqueued-row uuid (r ∷ rows) {row} e h = elim (Bool-cases (text_eq r.uuid uuid)) [
  | inl same ↦
      let first = ap (state_or enqueued) (sym (find_row-here uuid r rows same) ∙ e) ∙ h in
      find_enqueued-here uuid r rows same (ap (λ s. s is enqueued) first)
  | inr other ↦
      find_enqueued-there uuid r rows
        (find_enqueued-row uuid rows (sym (find_row-there uuid r rows other) ∙ e) h)
]
