-- ===== src/Job/Store/Dependents.antt =====
-- The jobs that `_get_common_dependent_jobs_query` updates.
use integration_queue.Prelude.{
  ◌≡◌, refl, Bool, true, false, ◌&&◌, some, Text, arith, Bool-cases, inl, inr, ◌⊎◌,
}
use integration_queue.Job.State.{State, wait_dependencies, pending, done}
use integration_queue.Job.Record.{Job, Table, elem_text}
use integration_queue.Job.Store.{find_row, same_graph, has_parent, is_updated, enqueue_waiting}
use integration_queue.Job.Store.Rows.{
  find_row-update_dependent, ParentsAre, all_parents-ParentsAre, is_iff,
}

-- A job of the graph that waits for the given job, whose parents in the graph are all in a state.
pub record Ready (required : State) (job : Job) (table : Table) (child : Job) : Type 0 where
  pub graph : same_graph child job ≡ true
  pub dependent : elem_text child.uuid job.reverse_depends_on ≡ true
  pub joined : has_parent job child table ≡ true
  pub parents : ParentsAre required job child table
  pub waits : child.state ≡ wait_dependencies

and_split :
    (a b c d e : Bool)
    → (a && b && c && d && e) ≡ true
    → (a ≡ true) × (b ≡ true) × (c ≡ true) × (d ≡ true) × (e ≡ true)
and_split a b c d e h = ground arith

is_updated-Ready :
    (required : State) (job : Job) (table : Table) (child : Job)
    → is_updated required job table child ≡ true
    → Ready required job table child
unfolding is_updated
is_updated-Ready required job table child h =
    let (graph, dependent, joined, parents, waits) = and_split _ _ _ _ _ h in
    record {
      graph = graph;
      dependent = dependent;
      joined = joined;
      parents = (all_parents-ParentsAre required job child table).0 parents;
      waits = is_iff child.state wait_dependencies waits;
    }

Ready-is_updated :
    (required : State) (job : Job) (table : Table) (child : Job)
    → Ready required job table child
    → is_updated required job table child ≡ true
unfolding is_updated
Ready-is_updated required job table child r =
    rw
      (
        r.graph,
        r.dependent,
        r.joined,
        (all_parents-ParentsAre required job child table).1 r.parents,
        r.waits,
      )
      refl

true-ne-false : {b : Bool} → b ≡ true → b ≡ false → ⊥
true-ne-false h k = ground arith

-- The row becomes pending if the job is ready for it, and stays as it is if not.
pub enqueue_waiting-Ready :
    (uuid u : Text) (table : Table) {job row : Job}
    → find_row uuid table ≡ some job
    → find_row u table ≡ some row
    → (Ready done job table row
        × (find_row u (enqueue_waiting uuid table) ≡ some (record row { state = pending })))
      ⊎ ((Ready done job table row → ⊥) × (find_row u (enqueue_waiting uuid table) ≡ some row))
unfolding enqueue_waiting
enqueue_waiting-Ready uuid u table {job} {row} e f =
    let after = find_row-update_dependent pending done uuid u table e f in
    elim (Bool-cases (is_updated done job table row)) [
      | inl updates ↦ inl (is_updated-Ready done job table row updates, rw (after, updates) refl)
      | inr keeps ↦
          inr (
            λ r. true-ne-false (Ready-is_updated done job table row r) keeps,
            rw (after, keeps) refl,
          )
    ]
