-- ===== src/Job/Store/Rows.antt =====
-- The rows of the table after `store` and after the update of the dependent jobs.
use integration_queue.Prelude.{
  ◌≡◌, refl, true, false, [], ◌∷◌, ◌++◌, Option, none, some, if◌then◌else◌, Text, text_eq, map,
  text_eq_iff, text_eq_self, arith, Bool-cases, inl, inr, ◌∙◌, sym, ap, All, ◌↔◌,
}
use integration_queue.Job.State.{State, ◌is◌}
use integration_queue.Job.Record.{Job, Table}
use integration_queue.Job.Store.{
  find_row, stored_row, write_rows, store, is_parent, all_parents, is_updated, update_rows,
  update_dependent,
}

abbrev over_some : (Job → Job) → Option Job → Option Job
over_some change none = none
over_some change (some row) = some (change row)

pub find_row-here :
    (u : Text) (r : Job) (rows : Table) → text_eq r.uuid u ≡ true → find_row u (r ∷ rows) ≡ some r
unfolding find_row
find_row-here u r rows same = rw same refl

pub find_row-there :
    (u : Text) (r : Job) (rows : Table)
    → text_eq r.uuid u ≡ false
    → find_row u (r ∷ rows) ≡ find_row u rows
unfolding find_row
find_row-there u r rows other = rw other refl

-- A change of the rows that keeps their uuids changes the row found.
module _ (change : Job → Job) (keeps : (r : Job) → (change r).uuid ≡ r.uuid) where
  same_key : (u : Text) (r : Job) → text_eq (change r).uuid u ≡ text_eq r.uuid u
  same_key u r = ap (λ v. text_eq v u) (keeps r)

  pub find_row-map :
      (u : Text) (rows : Table) {row : Job}
      → find_row u rows ≡ some row
      → find_row u (map change rows) ≡ some (change row)
  unfolding find_row
  find_row-map u [] e = ground arith
  find_row-map u (r ∷ rows) {row} e = elim (Bool-cases (text_eq r.uuid u)) [
    | inl same ↦
        find_row-here u (change r) (map change rows) (same_key u r ∙ same)
        ∙ ap (over_some change) (sym (find_row-here u r rows same) ∙ e)
    | inr other ↦
        find_row-there u (change r) (map change rows) (same_key u r ∙ other)
        ∙ find_row-map u rows (sym (find_row-there u r rows other) ∙ e)
  ]

abbrev pub written : Table → Job → Job → Job
written table job row = if text_eq row.uuid job.uuid then stored_row table job row else row

written-uuid : (table : Table) (job r : Job) → (written table job r).uuid ≡ r.uuid
unfolding stored_row
written-uuid table job r = elim (Bool-cases (text_eq r.uuid job.uuid)) [
  | inl e ↦ rw e (sym ((text_eq_iff r.uuid job.uuid).0 e))
  | inr e ↦ rw e refl
]

write_rows-map :
    (table : Table) (job : Job) (rows : Table)
    → write_rows table job rows ≡ map (written table job) rows
unfolding write_rows
write_rows-map table job [] = refl
write_rows-map table job (r ∷ rows) = rw (write_rows-map table job rows) refl

pub find_row-uuid :
    (u : Text) (rows : Table) {row : Job} → find_row u rows ≡ some row → row.uuid ≡ u
unfolding find_row
find_row-uuid u [] e = ground arith
find_row-uuid u (r ∷ rows) {row} e =
    ground (arith, find_row-uuid u rows {row = row}, text_eq_iff r.uuid u)

find_row-append :
    (u : Text) (job : Job) (rows : Table)
    → find_row u rows ≡ none
    → job.uuid ≡ u
    → find_row u (rows ++ job ∷ []) ≡ some job
unfolding find_row
find_row-append u job [] e h = rw (h, text_eq_self u)
find_row-append u job (r ∷ rows) e h = ground (arith, find_row-append u job rows)

-- A job that has a row is stored in it, and every other row stays.
pub find_row-store :
    (u : Text) (job : Job) (table : Table) {old row : Job}
    → find_row job.uuid table ≡ some old
    → find_row u table ≡ some row
    → find_row u (store job table) ≡ some (written table job row)
unfolding store
find_row-store u job table {old} {row} e f =
    rw (store, e, write_rows-map table job table)
      (find_row-map (written table job) (written-uuid table job) u table f)

-- A row after the update of the dependent jobs.
abbrev pub updated : State → State → Job → Table → Job → Job
updated target required job table child =
    if is_updated required job table child then record child { state = target } else child

updated-uuid :
    (target required : State) (job : Job) (table : Table) (child : Job)
    → (updated target required job table child).uuid ≡ child.uuid
updated-uuid target required job table child =
    elim (Bool-cases (is_updated required job table child)) [
      | inl e ↦ rw e refl
      | inr e ↦ rw e refl
    ]

update_rows-map :
    (target required : State) (job : Job) (table rows : Table)
    → update_rows target required job table rows ≡ map (updated target required job table) rows
unfolding update_rows
update_rows-map target required job table [] = refl
update_rows-map target required job table (r ∷ rows) =
    rw (update_rows-map target required job table rows) refl

pub find_row-update_dependent :
    (target required : State) (uuid u : Text) (table : Table) {job row : Job}
    → find_row uuid table ≡ some job
    → find_row u table ≡ some row
    → find_row u (update_dependent target required uuid table)
      ≡ some (updated target required job table row)
unfolding update_dependent
find_row-update_dependent target required uuid u table {job} e f =
    rw (update_dependent, e, update_rows-map target required job table table)
      (find_row-map (updated target required job table) (updated-uuid target required job table) u
        table f)

-- Each row that joins as a parent is in the required state.
abbrev pub ParentsAre : State → Job → Job → Table → Type 0
ParentsAre required job child table =
    All (λ p. is_parent job child p ≡ true → p.state ≡ required) table

pub is_iff : (s t : State) → (s is t) ≡ true → s ≡ t
is_iff s t h = ground arith

pub is_self : (s : State) → (s is s) ≡ true
is_self s = ground arith

pub all_parents-ParentsAre :
    (required : State) (job child : Job) (table : Table)
    → (all_parents required job child table ≡ true) ↔ ParentsAre required job child table
unfolding all_parents
all_parents-ParentsAre required job child [] = (λ h. tt, λ h. refl)
all_parents-ParentsAre required job child (p ∷ rows) = (
  λ h. (
    λ joins. is_iff p.state required (ground arith),
    (all_parents-ParentsAre required job child rows).0 (ground arith),
  ),
  λ h. elim (Bool-cases (is_parent job child p)) [
    | inl joins ↦
        rw (joins, h.0 joins, is_self required)
          ((all_parents-ParentsAre required job child rows).1 h.1)
    | inr other ↦ rw other ((all_parents-ParentsAre required job child rows).1 h.1)
  ],
)
