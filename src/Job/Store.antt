-- ===== src/Job/Store.antt =====
-- The jobs in the database: `load`, `store` and the update of the dependent jobs of
-- integration_queue_job/job.py.
pub mod Rows
pub mod Dependents
pub mod Keys
use integration_queue.Prelude.{
  Bool, true, false, not, ◌&&◌, ◌||◌, List, [], ◌∷◌, ◌++◌, Option, none, some, if◌then◌else◌, Text,
  text_eq,
}
use integration_queue.Job.State.{State, wait_dependencies, pending, enqueued, cancelled, done, ◌is◌}
use integration_queue.Job.Record.{Job, Table, elem_text}

-- `db_records_from_uuids` for one uuid.
unfoldable pub find_row : Text → Table → Option Job
find_row uuid [] = none
find_row uuid (j ∷ rows) = if text_eq j.uuid uuid then some j else find_row uuid rows

-- `value if value else None`
unfoldable pub truthy : Option Text → Option Text
truthy none = none
truthy (some []) = none
truthy (some (c ∷ s)) = some (c ∷ s)

-- `_load_from_db_record`: the name and the message of the exception are not read.
unfoldable pub from_row : Job → Job
from_row row = record row {
  exc_name = none;
  exc_message = none;
  result = truthy row.result;
  exc_info = truthy row.exc_info;
}

-- `none` is the `NoSuchJobError`.
unfoldable pub load : Text → Table → Option Job
unfolding from_row
load uuid table = elim (find_row uuid table) [ none ↦ none | some row ↦ some (from_row row) ]

-- The uuids of `load_many`: those of the rows that exist.
unfoldable pub existing : List Text → Table → List Text
existing uuids [] = []
existing uuids (j ∷ rows) =
    if elem_text j.uuid uuids then j.uuid ∷ existing uuids rows else existing uuids rows

-- `_store_values`: what a row becomes. The channel and the creation date are written once.
unfoldable pub stored_row : Table → Job → Job → Job
unfolding existing
stored_row table job row = record job {
  channel = row.channel;
  date_created = row.date_created;
  result = truthy job.result;
  identity_key = truthy job.identity_key;
  depends_on = existing job.depends_on table;
  reverse_depends_on = existing job.reverse_depends_on table;
}

-- `db_record.write(...)`
unfoldable pub write_rows : Table → Job → Table → Table
write_rows table job [] = []
write_rows table job (row ∷ rows) =
    (if text_eq row.uuid job.uuid then stored_row table job row else row)
    ∷ write_rows table job rows

unfoldable pub store : Job → Table → Table
unfolding write_rows
store job table = elim (find_row job.uuid table) [
  | none ↦ table ++ stored_row table job job ∷ []
  | some _ ↦ write_rows table job table
]

unfoldable pub not_started : State → Bool
not_started wait_dependencies = true
not_started pending = true
not_started enqueued = true
not_started _ = false

unfoldable pub has_key : Text → Job → Bool
has_key key j = elim j.identity_key [ none ↦ false | some k ↦ text_eq k key ]

-- `job_record_with_same_identity_key`
unfoldable pub same_identity_key : Text → Table → Option Job
same_identity_key key [] = none
same_identity_key key (j ∷ rows) =
    if has_key key j && not_started j.state then some j else same_identity_key key rows

-- The existing job, or the new one, stored.
unfoldable pub enqueue_unless : Option Job → Job → Table → Job × Table
unfolding from_row
enqueue_unless none job table = (job, store job table)
enqueue_unless (some existing_row) job table = (from_row existing_row, table)

-- `if self.identity_key`: neither None nor empty.
unfoldable pub enqueue_key : Option Text → Job → Table → Job × Table
unfolding enqueue_unless
enqueue_key none job table = (job, store job table)
enqueue_key (some []) job table = (job, store job table)
enqueue_key (some (c ∷ key)) job table =
    enqueue_unless (same_identity_key (c ∷ key) table) job table

-- `_enqueue_job`
unfoldable pub enqueue_job : Job → Table → Job × Table
unfolding enqueue_key
enqueue_job job table = enqueue_key job.identity_key job table

-- The equality of two `graph_uuid` in SQL: NULL equals nothing.
unfoldable pub same_graph : Job → Job → Bool
same_graph a b = elim a.graph_uuid [
  | none ↦ false
  | some g ↦ elim b.graph_uuid [ none ↦ false | some h ↦ text_eq g h ]
]

-- `parent` in the query of the dependent jobs.
unfoldable pub is_parent : Job → Job → Job → Bool
unfolding same_graph
is_parent job child parent = same_graph parent job && elem_text parent.uuid child.depends_on

-- Some row joins as a parent, which the inner join asks for.
unfoldable pub has_parent : Job → Job → Table → Bool
unfolding is_parent
has_parent job child [] = false
has_parent job child (p ∷ rows) = is_parent job child p || has_parent job child rows

-- `%s = ALL(jobs.parent_states)`
unfoldable pub all_parents : State → Job → Job → Table → Bool
unfolding is_parent
all_parents required job child [] = true
all_parents required job child (p ∷ rows) =
    (not (is_parent job child p) || p.state is required) && all_parents required job child rows

-- The rows that the query of the dependent jobs updates.
unfoldable pub is_updated : State → Job → Table → Job → Bool
unfolding has_parent all_parents
is_updated required job table child =
    same_graph child job
    && elem_text child.uuid job.reverse_depends_on
    && has_parent job child table
    && all_parents required job child table
    && child.state is wait_dependencies

unfoldable pub update_rows : State → State → Job → Table → Table → Table
update_rows target required job table [] = []
update_rows target required job table (child ∷ rows) =
    (if is_updated required job table child then record child { state = target } else child)
    ∷ update_rows target required job table rows

-- `_get_common_dependent_jobs_query` with its parameters.
unfoldable pub update_dependent : State → State → Text → Table → Table
unfolding update_rows
update_dependent target required uuid table = elim (find_row uuid table) [
  | none ↦ table
  | some job ↦ update_rows target required job table table
]

unfoldable pub enqueue_waiting : Text → Table → Table
unfolding update_dependent
enqueue_waiting uuid table = update_dependent pending done uuid table

unfoldable pub cancel_dependent_jobs : Text → Table → Table
unfolding update_dependent
cancel_dependent_jobs uuid table = update_dependent cancelled cancelled uuid table
