-- ===== src/QueueJob/Autovacuum.antt =====
-- `autovacuum` of integration_queue_job/models/queue_job.py. The search gives the rows in the order of the
-- table; the channels are records of the table of channels.
pub mod Removed
use integration_queue.Prelude.{
  ℕ, zero, suc, ◌+◌, ◌*◌, Bool, true, false, ◌&&◌, ◌||◌, List, [], ◌∷◌, Option, none, some,
  if◌then◌else◌, leb, length, Text, text_eq,
}
use integration_queue.Job.Record.{Job, Table}

-- The attributes of a channel record that it reads; the interval is in days.
pub record ChannelRecord : Type 0 where
  pub complete_name : Text
  pub removal_interval : ℕ

abbrev pub day_seconds : ℕ
day_seconds = 24 * 60 * 60

-- `date <= now - timedelta(days=days)` for a date that is set.
unfoldable pub is_past : ℕ → ℕ → Option ℕ → Bool
is_past now days none = false
is_past now days (some date) = leb (date + days * day_seconds) now

-- The domain of the search.
unfoldable pub is_expired : ℕ → ChannelRecord → Job → Bool
unfolding is_past
is_expired now channel job =
    (is_past now channel.removal_interval job.date_done
      || is_past now channel.removal_interval job.date_cancelled)
    && text_eq job.channel channel.complete_name

-- Some row is found.
unfoldable pub any_expired : (Job → Bool) → Table → Bool
any_expired test [] = false
any_expired test (row ∷ rows) = test row || any_expired test rows

-- `unlink` of the rows that a search with a limit finds.
unfoldable pub unlink_found : (Job → Bool) → ℕ → Table → Table
unlink_found test zero rows = rows
unlink_found test (suc n) [] = []
unlink_found test (suc n) (row ∷ rows) =
    if test row then unlink_found test n rows else row ∷ unlink_found test (suc n) rows

abbrev pub search_limit : ℕ
search_limit = 1000

-- The `while` loop of one channel; `none` is out of fuel.
unfoldable pub vacuum_loop : (Job → Bool) → ℕ → Table → Option Table
unfolding any_expired unlink_found
vacuum_loop test zero table = none
vacuum_loop test (suc fuel) table =
    let rest = vacuum_loop test fuel (unlink_found test search_limit table) in
    if any_expired test table then rest else some table

unfoldable pub autovacuum : ℕ → List ChannelRecord → Table → Option Table
unfolding vacuum_loop is_expired
autovacuum now [] table = some table
autovacuum now (channel ∷ channels) table =
    elim (vacuum_loop (is_expired now channel) (suc (length table)) table) [
      | none ↦ none
      | some table' ↦ autovacuum now channels table'
    ]
