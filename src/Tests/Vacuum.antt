-- ===== src/Tests/Vacuum.antt =====
-- `autovacuum` at a concrete input.
use integration_queue.Prelude.{Bool, false, ◌↔◌, ◌≡◌, [], ◌∷◌, none, some, text}
use integration_queue.Job.Record.{Job, Table}
use integration_queue.Job.Create.{Params, unset, new_job}
use integration_queue.QueueJob.{filter}
use integration_queue.QueueJob.Autovacuum.{ChannelRecord, autovacuum}
use integration_queue.QueueJob.Autovacuum.Removed.{IsOverdue, autovacuum-IsOverdue}

abbrev defaults : Params
defaults = record {
  priority = none;
  eta = unset;
  max_retries = none;
  channel = none;
  identity_key = none;
}

abbrev jobs : Table
jobs =
    record (new_job 50 (text "a") (text "root") defaults) { date_done = some 60 }
    ∷ new_job 50 (text "b") (text "root") defaults
    ∷ record (new_job 50 (text "c") (text "root") defaults) { date_cancelled = some 9000000 }
    ∷ []

abbrev root_record : ChannelRecord
root_record = record { complete_name = text "root"; removal_interval = 30 }

autovacuum-IsOverdue_example :
    (keeps : Job → Bool) × (autovacuum 9000000 (root_record ∷ []) jobs ≡ some (filter keeps jobs))
    × ((row : Job) → (keeps row ≡ false) ↔ IsOverdue 9000000 (root_record ∷ []) row)
autovacuum-IsOverdue_example = autovacuum-IsOverdue 9000000 (root_record ∷ []) jobs
