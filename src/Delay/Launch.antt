-- ===== src/Delay/Launch.antt =====
-- `DelayableGraph.delay` of integration_queue_job/delay.py, on the connected graph and the jobs that its
-- vertices have built. Whether the jobs run at once (`must_run_without_delay`) is an argument.
pub mod Same
pub mod Depends
pub mod Rows
pub mod Stored
use integration_queue.Prelude.{
  ℕ, Bool, true, false, List, [], ◌∷◌, ◌++◌, Option, none, some, if◌then◌else◌, ◌==◌, elem, Text,
  text_eq,
}
use integration_queue.Job.Record.{Job, Table, elem_text}
use integration_queue.Job.Store.{find_row, truthy, same_identity_key}
use integration_queue.Job.Create.{JobObjects, insert_text, add_depends}
use integration_queue.Delay.Delayable.{Node, Graphs}
use integration_queue.Delay.Connect.{connect_graphs}
use integration_queue.Delay.Graph.{Graph, vertices, edges, topological_sort}

-- The graph uuids of the jobs that have one.
unfoldable pub graph_uuids : List ℕ → JobObjects → List Text
unfolding truthy insert_text
graph_uuids [] jobs = []
graph_uuids (v ∷ vs) jobs = elim (truthy (jobs v).graph_uuid) [
  | none ↦ graph_uuids vs jobs
  | some u ↦ insert_text u (graph_uuids vs jobs)
]

unfoldable pub set_graph_uuid : Text → List ℕ → JobObjects → JobObjects
set_graph_uuid uuid vs jobs a =
    if elem a vs then record (jobs a) { graph_uuid = some uuid } else jobs a

-- The uuid that all jobs get; `none` is the ValueError of jobs of several graphs.
unfoldable pub common_uuid : Text → List Text → Option Text
common_uuid fresh [] = some fresh
common_uuid fresh (u ∷ []) = some u
common_uuid fresh (u ∷ v ∷ us) = none

-- `_ensure_same_graph_uuid`; `none` is a ValueError.
unfoldable pub ensure_same_graph_uuid : Text → List ℕ → JobObjects → Option JobObjects
unfolding graph_uuids set_graph_uuid common_uuid truthy
ensure_same_graph_uuid fresh [] jobs = none
ensure_same_graph_uuid fresh (v ∷ []) jobs = elim (truthy (jobs v).graph_uuid) [
  | none ↦ some jobs
  | some u ↦ none
]
ensure_same_graph_uuid fresh (v ∷ w ∷ vs) jobs =
    elim (common_uuid fresh (graph_uuids (v ∷ w ∷ vs) jobs)) [
      | none ↦ none
      | some u ↦ some (set_graph_uuid u (v ∷ w ∷ vs) jobs)
    ]

-- `neighbour._generated_job.add_depends({vertex._generated_job})` for each edge.
unfoldable pub add_all_depends : List (ℕ × ℕ) → JobObjects → Option JobObjects
unfolding add_depends
add_all_depends [] jobs = some jobs
add_all_depends ((vertex, neighbour) ∷ es) jobs = elim (add_depends neighbour vertex jobs) [
  | none ↦ none
  | some jobs' ↦ add_all_depends es jobs'
]

-- The vertices whose attribute `identity_key`, a key or a function that makes it of the job, is set, and
-- the first job not started that the search finds for a job with no key.
pub record IdentityKeys : Type 0 where
  pub is_set : ℕ → Bool
  pub search_blank : Table → Option Job

-- `job_record_with_same_identity_key` of a generated job.
unfoldable pub search_existing : IdentityKeys → Option Text → Table → Option Job
search_existing keys none table = keys.search_blank table
search_existing keys (some key) table = same_identity_key key table

-- `existing_mapping`, with the entries so far.
unfoldable pub find_existing :
    IdentityKeys → List ℕ → JobObjects → Table → List (ℕ × Job) → List (ℕ × Job)
unfolding truthy search_existing
find_existing keys [] jobs table mapping = mapping
find_existing keys (v ∷ vs) jobs table mapping =
    let others = find_existing keys vs jobs table in
    if keys.is_set v
    then elim (search_existing keys (truthy (jobs v).identity_key) table) [
      | none ↦ []
      | some row ↦ others (mapping ++ (v, row) ∷ [])
    ]
    else others mapping

-- `store` of a job whose parents and children are objects, so that their uuids stand as they are.
unfoldable pub built_row : Job → Job
built_row job = record job { result = truthy job.result; identity_key = truthy job.identity_key }

unfoldable pub write_built : Job → Table → Table
unfolding built_row
write_built job [] = []
write_built job (row ∷ rows) =
    (if text_eq row.uuid job.uuid
      then record (built_row job) { channel = row.channel; date_created = row.date_created }
      else row)
    ∷ write_built job rows

unfoldable pub store_built : Job → Table → Table
unfolding write_built built_row
store_built job table = elim (find_row job.uuid table) [
  | none ↦ table ++ built_row job ∷ []
  | some row ↦ write_built job table
]

unfoldable pub store_all : List ℕ → JobObjects → Table → Table
unfolding store_built
store_all [] jobs table = table
store_all (v ∷ vs) jobs table = store_all vs jobs (store_built (jobs v) table)

-- How `delay` ends: a ValueError, the jobs run in an order, an existing job taken for a vertex, or
-- the jobs stored.
pub data Launched : Type 0 where
  value_error : Launched
  executed : List ℕ → Launched
  replaced : (vertex : ℕ) (row : Job) → Launched
  stored : Table → Launched

-- The loop over `existing_mapping` returns in its first round.
unfoldable pub store_unless : List (ℕ × Job) → List ℕ → JobObjects → Table → Launched
unfolding store_all
store_unless [] vs jobs table = stored (store_all vs jobs table)
store_unless ((v, row) ∷ mapping) vs jobs table = replaced v row

unfoldable pub delay : IdentityKeys → Bool → Text → Graph → JobObjects → Table → Launched
unfolding ensure_same_graph_uuid add_all_depends find_existing store_unless
delay keys direct fresh g jobs table = elim (ensure_same_graph_uuid fresh (vertices g) jobs) [
  | none ↦ value_error
  | some same ↦
      if direct then executed (topological_sort g).0 else elim (add_all_depends (edges g) same) [
        | none ↦ value_error
        | some linked ↦
            store_unless (find_existing keys (vertices g) linked table []) (vertices g) linked table
      ]
]

-- `_build_job`: the generated job is kept if there is one.
unfoldable pub build_job : Option Job → Job → Job
build_job none new = new
build_job (some generated) new = generated

-- `delay` of the graph of an object, from its connection on; `new` are the jobs that the vertices'
-- attributes make. `none` is out of fuel.
unfoldable pub delay_object :
    (ℕ → Node)
    → Graphs
    → ℕ
    → ℕ
    → (generated : ℕ → Option Job) → (new : JobObjects) → IdentityKeys
    → Bool
    → Text
    → Table
    → Option Launched
unfolding connect_graphs delay build_job
delay_object nodes graphs fuel top generated new keys direct fresh table =
    elim (connect_graphs nodes graphs fuel top) [
      | none ↦ none
      | some g ↦ some (delay keys direct fresh g (λ v. build_job (generated v) (new v)) table)
    ]
